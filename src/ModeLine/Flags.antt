-- ===== src/ModeLine/Flags.antt =====
-- modeSentence.ts: the flags of a line with their signs.
use Prim.Native.String.{String}
use ircfiber_site.Common.{
  ℕ, ◌≡◌, refl, ap, ◌∙◌, ◌≢◌, Bool, true, false, Option, some, List, [], ◌∷◌, ◌++◌, append-nil,
  arith, ◌==◌, if◌then◌else◌,
}
use ircfiber_site.ModeLine.{Event, flag, Line, sign, turns}

-- Each letter with the sign before it.
unfoldable pub read_flags : Bool → List ℕ → List (ℕ × Bool)
read_flags adding [] = []
read_flags adding (c ∷ cs) = elim (c == b'+') [
  | true ↦ read_flags true cs
  | false ↦ elim (c == b'-') [
    | true ↦ read_flags false cs
    | false ↦ (c, adding) ∷ read_flags adding cs
  ]
]

unfoldable pub flag_of : Event → List (ℕ × Bool)
flag_of (flag ch adding _) = (ch, adding) ∷ []
flag_of _ = []

-- The letters that are flags, with their signs.
unfoldable pub flags_of : List Event → List (ℕ × Bool)
flags_of [] = []
flags_of (e ∷ es) = flag_of e ++ flags_of es

unfoldable pub IsLetter : ℕ → Type 0
IsLetter c = (c ≢ 43) × (c ≢ 45)

-- The sign that is read last.
last_sign : Bool → List ℕ → Bool
last_sign adding [] = adding
last_sign adding (c ∷ cs) = elim (c == b'+') [
  | true ↦ last_sign true cs
  | false ↦ elim (c == b'-') [ true ↦ last_sign false cs | false ↦ last_sign adding cs ]
]

read_flags-append :
    (adding : Bool) (xs ys : List ℕ)
    → read_flags adding (xs ++ ys) ≡ read_flags adding xs ++ read_flags (last_sign adding xs) ys
unfolding read_flags last_sign
read_flags-append adding [] ys = refl
read_flags-append adding (c ∷ cs) ys = ground (
  arith,
  read_flags-append true cs ys,
  read_flags-append false cs ys,
  read_flags-append adding cs ys,
)

last_sign-append :
    (adding : Bool) (xs ys : List ℕ)
    → last_sign adding (xs ++ ys) ≡ last_sign (last_sign adding xs) ys
unfolding last_sign
last_sign-append adding [] ys = refl
last_sign-append adding (c ∷ cs) ys = ground (
  arith,
  last_sign-append true cs ys,
  last_sign-append false cs ys,
  last_sign-append adding cs ys,
)

-- The run's sign is the one that its letters end with.
unfoldable IsRun : Line → Type 0
IsRun line = (s : Bool) → line.flag_sign ≡ some s → last_sign true line.flag_letters ≡ s

read_flags-sign : (d adding : Bool) → read_flags d (sign adding ∷ []) ≡ []
unfolding read_flags
read_flags-sign d true = refl
read_flags-sign d false = refl

last_sign-sign : (d adding : Bool) → last_sign d (sign adding ∷ []) ≡ adding
unfolding last_sign
last_sign-sign d true = refl
last_sign-sign d false = refl

sign-last_sign : (adding : Bool) (xs : List ℕ) → last_sign true (xs ++ sign adding ∷ []) ≡ adding
sign-last_sign adding xs =
    last_sign-append true xs (sign adding ∷ []) ∙ last_sign-sign (last_sign true xs) adding

sign-read_flags :
    (adding : Bool) (xs : List ℕ) → read_flags true (xs ++ sign adding ∷ []) ≡ read_flags true xs
sign-read_flags adding xs =
    read_flags-append true xs (sign adding ∷ [])
    ∙ ap (λ t. read_flags true xs ++ t) (read_flags-sign (last_sign true xs) adding)
    ∙ append-nil (read_flags true xs)

-- The letters before the pushed one end with its sign, and the new sign adds no flag.
signed :
    (adding : Bool) (line : Line)
    → IsRun line
    → (last_sign true (
          if turns adding line.flag_sign
          then line.flag_letters ++ sign adding ∷ []
          else line.flag_letters)
        ≡ adding)
      × (read_flags true (
            if turns adding line.flag_sign
            then line.flag_letters ++ sign adding ∷ []
            else line.flag_letters)
          ≡ read_flags true line.flag_letters)
unfolding turns IsRun
signed adding line r = ground (
  arith,
  sign-last_sign adding line.flag_letters,
  sign-read_flags adding line.flag_letters,
  r adding,
)

-- Events are of letters that are no sign.
unfoldable AreLetters : List Event → Type 0
AreLetters [] = Unit
AreLetters (flag ch _ _ ∷ es) = IsLetter ch × AreLetters es
AreLetters (_ ∷ es) = AreLetters es
