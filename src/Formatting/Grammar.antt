-- ===== src/Formatting/Grammar.antt =====
-- ircFormatting.ts: a text as the codes it is written with.
use ircfiber_site.Common.{
  ℕ, ◌≤◌, ◌≡◌, ◌≢◌, Bool, true, false, not, ◌&&◌, Option, none, some, List, [], ◌∷◌, ◌++◌, ◌==◌,
  length, All,
}
use ircfiber_site.Formatting.Codes.{is_digit, is_hex_digit}
use ircfiber_site.Formatting.Strip.{is_toggle, is_kept}

-- A unit to show, a toggle or the reset by its code, or a color code (3 or 4) with its arguments.
pub data Code : Type 0 where
  char : ℕ → Code
  toggle : ℕ → Code
  color : List ℕ → Option (List ℕ) → Code
  hex : List ℕ → Option (List ℕ) → Code

unfoldable pub write_second : Option (List ℕ) → List ℕ
write_second none = []
write_second (some b) = 44 ∷ b

unfoldable pub write : List Code → List ℕ
write [] = []
write (char c ∷ ks) = c ∷ write ks
write (toggle c ∷ ks) = c ∷ write ks
write (color f b ∷ ks) = 3 ∷ f ++ (write_second b ++ write ks)
write (hex f b ∷ ks) = 4 ∷ f ++ (write_second b ++ write ks)

-- What the codes show.
unfoldable pub shown : List Code → List ℕ
shown [] = []
shown (char c ∷ ks) = c ∷ shown ks
shown (_ ∷ ks) = shown ks

-- The first unit shown is not of the class `p` and no comma.
unfoldable pub Ends : (ℕ → Bool) → List Code → Type 0
Ends p [] = Unit
Ends p (char c ∷ ks) = (p c ≡ false) × (c ≢ 44)
Ends p (_ ∷ ks) = Ends p ks

-- A number of `lo` to `hi` units of the class `p`.
pub record IsNumber (p : ℕ → Bool) (lo hi : ℕ) (cs : List ℕ) : Type 0 where
  pub units : All (λ c. p c ≡ true) cs
  pub at_least : lo ≤ length cs
  pub at_most : length cs ≤ hi

-- No number at all, one, or two.
unfoldable pub AreArguments : (ℕ → Bool) → ℕ → ℕ → List ℕ → Option (List ℕ) → Type 0
AreArguments p lo hi [] b = b ≡ none
AreArguments p lo hi (c ∷ cs) none = IsNumber p lo hi (c ∷ cs)
AreArguments p lo hi (c ∷ cs) (some b) = IsNumber p lo hi (c ∷ cs) × IsNumber p lo hi b

-- A unit that is no code.
unfoldable pub is_char : ℕ → Bool
is_char c = is_kept c && not (c == 3) && not (c == 4)

unfoldable pub IsCanonical : List Code → Type 0
IsCanonical [] = Unit
IsCanonical (char c ∷ ks) = (is_char c ≡ true) × IsCanonical ks
IsCanonical (toggle c ∷ ks) = (is_toggle c ≡ true) × IsCanonical ks
IsCanonical (color f b ∷ ks) = AreArguments is_digit 1 2 f b × Ends is_digit ks × IsCanonical ks
IsCanonical (hex f b ∷ ks) =
    AreArguments is_hex_digit 6 6 f b × Ends is_hex_digit ks × IsCanonical ks
