-- ===== src/Formatting/Reading.antt =====
-- ircFormatting.ts: the arguments of a colour code beside the units they are written with.
use ircfiber_site.Common.{
  ℕ, zero, suc, ◌≤◌, ◌<◌, ◌≡◌, refl, ◌≢◌, Bool, true, false, Option, none, some, List, [], ◌∷◌,
  ◌++◌, append-nil, arith, le→leb, length, length-append, All,
}
use ircfiber_site.Formatting.Codes.{is_digit, is_hex_digit, read_units, read_second, read_arguments}
use ircfiber_site.Formatting.Strip.{is_toggle, match_second, match_arguments}
use ircfiber_site.Formatting.Grammar.{
  Code, char, toggle, color, hex, write_second, write, Ends, IsNumber, AreArguments, IsCanonical,
}

-- No control character and no comma is of the class.
unfoldable pub IsClass : (ℕ → Bool) → Type 0
IsClass p = (c : ℕ) → c < 45 → p c ≡ false

pub is_digit-IsClass : IsClass is_digit
unfolding is_digit IsClass
is_digit-IsClass c h = ground arith

pub is_hex_digit-IsClass : IsClass is_hex_digit
unfolding is_hex_digit IsClass
is_hex_digit-IsClass c h = ground arith

-- Neither a unit of the class nor a comma comes first.
unfoldable pub NoStart : (ℕ → Bool) → List ℕ → Type 0
NoStart p [] = Unit
NoStart p (c ∷ _) = (p c ≡ false) × (c ≢ 44)

is_toggle-lt : (c : ℕ) → is_toggle c ≡ true → c < 32
unfolding is_toggle
is_toggle-lt c h = ground arith

pub write-NoStart :
    (p : ℕ → Bool) (ks : List Code) → IsClass p → IsCanonical ks → Ends p ks → NoStart p (write ks)
unfolding IsClass write IsCanonical Ends NoStart
write-NoStart p [] k h e = tt
write-NoStart p (char c ∷ ks) k h e = e
write-NoStart p (toggle c ∷ ks) k h e =
    let low = is_toggle-lt c h.0 in (k c (omega arith), omega arith)
write-NoStart p (color f b ∷ ks) k h e = (k 3 (omega arith), omega arith)
write-NoStart p (hex f b ∷ ks) k h e = (k 4 (omega arith), omega arith)

read_units-NoStart :
    (p : ℕ → Bool) (k : ℕ) (cs : List ℕ) → NoStart p cs → read_units p k cs ≡ ([], cs)
unfolding read_units NoStart
read_units-NoStart p zero cs h = refl
read_units-NoStart p (suc k) [] h = refl
read_units-NoStart p (suc k) (c ∷ cs) h = rw h.0

-- No unit is read from `cs`.
Stops : (ℕ → Bool) → List ℕ → Type 0
Stops p cs = (k : ℕ) → read_units p k cs ≡ ([], cs)

NoStart-Stops : (p : ℕ → Bool) (cs : List ℕ) → NoStart p cs → Stops p cs
unfolding Stops
NoStart-Stops p cs h k = read_units-NoStart p k cs h

-- A number is read up to what follows it, when that stops the reading.
read_units-append :
    (p : ℕ → Bool) (k : ℕ) (f cs : List ℕ)
    → All (λ c. p c ≡ true) f
    → length f ≤ k
    → Stops p cs
    → read_units p k (f ++ cs) ≡ (f, cs)
unfolding read_units Stops
read_units-append p k [] cs a l h = h k
read_units-append p zero (c ∷ f) cs a l h = absurd (omega arith)
read_units-append p (suc k) (c ∷ f) cs a l h =
    rw (a.0, read_units-append p k f cs a.1 (omega arith) h)

read_second-write :
    (p : ℕ → Bool) (lo hi : ℕ) (f b cs : List ℕ)
    → IsNumber p lo hi b
    → NoStart p cs
    → read_second p hi f (44 ∷ b ++ cs) ≡ record { first = f; second = some b; rest = cs }
unfolding read_second
read_second-write p lo hi f b cs n h =
    rw (read_units-append p hi b cs n.units n.at_most (NoStart-Stops p cs h))

read_second-NoStart :
    (p : ℕ → Bool) (hi : ℕ) (f cs : List ℕ)
    → NoStart p cs
    → read_second p hi f cs ≡ record { first = f; second = none; rest = cs }
unfolding read_second NoStart
read_second-NoStart p hi f [] h = refl
read_second-NoStart p hi f (c ∷ cs) h = ground arith

comma-Stops : (p : ℕ → Bool) (cs : List ℕ) → IsClass p → Stops p (44 ∷ cs)
unfolding Stops IsClass read_units
comma-Stops p cs k zero = refl
comma-Stops p cs k (suc n) = rw (k 44 (omega arith))

-- The arguments of a code are read back, and nothing behind them.
pub read_arguments-write :
    (p : ℕ → Bool) (lo hi : ℕ) (f : List ℕ) (b : Option (List ℕ)) (cs : List ℕ)
    → IsClass p
    → AreArguments p lo hi f b
    → NoStart p cs
    → read_arguments p hi (f ++ (write_second b ++ cs))
      ≡ record { first = f; second = b; rest = cs }
unfolding read_arguments AreArguments write_second
read_arguments-write p lo hi [] none cs k a h =
    rw (read_units-NoStart p hi cs h) (read_second-NoStart p hi [] cs h)
read_arguments-write p lo hi [] (some b) cs k a h = cc
read_arguments-write p lo hi (c ∷ f) none cs k a h =
    rw (read_units-append p hi (c ∷ f) cs a.units a.at_most (NoStart-Stops p cs h))
      (read_second-NoStart p hi (c ∷ f) cs h)
read_arguments-write p lo hi (c ∷ f) (some b) cs k a h =
    rw
      (read_units-append p hi (c ∷ f) (44 ∷ b ++ cs) a.0.units a.0.at_most
        (comma-Stops p (b ++ cs) k))
      (read_second-write p lo hi (c ∷ f) b cs a.1 h)

match_second-NoStart :
    (p : ℕ → Bool) (lo hi : ℕ) (cs : List ℕ) → NoStart p cs → match_second p lo hi cs ≡ 0
unfolding match_second NoStart
match_second-NoStart p lo hi [] h = refl
match_second-NoStart p lo hi (c ∷ cs) h = ground arith

match_second-write :
    (p : ℕ → Bool) (lo hi : ℕ) (b cs : List ℕ)
    → IsNumber p lo hi b
    → NoStart p cs
    → match_second p lo hi (44 ∷ b ++ cs) ≡ suc (length b)
unfolding match_second
match_second-write p lo hi b cs n h = rw (
  read_units-append p hi b cs n.units n.at_most (NoStart-Stops p cs h),
  le→leb lo (length b) n.at_least,
)

-- The arguments of a code are what the regular expression matches behind it.
pub match_arguments-write :
    (p : ℕ → Bool) (lo hi : ℕ) (f : List ℕ) (b : Option (List ℕ)) (cs : List ℕ)
    → IsClass p
    → 1 ≤ lo
    → AreArguments p lo hi f b
    → NoStart p cs
    → match_arguments p lo hi (f ++ (write_second b ++ cs)) ≡ length (f ++ write_second b)
unfolding match_arguments AreArguments write_second
match_arguments-write p lo hi [] none cs k low a h =
    rw (read_units-NoStart p hi cs h) (ground arith)
match_arguments-write p lo hi [] (some b) cs k low a h = cc
match_arguments-write p lo hi (c ∷ f) none cs k low a h =
    rw
      (
        read_units-append p hi (c ∷ f) cs a.units a.at_most (NoStart-Stops p cs h),
        le→leb lo (length (c ∷ f)) a.at_least,
        match_second-NoStart p lo hi cs h,
        append-nil f,
      )
      (omega arith)
match_arguments-write p lo hi (c ∷ f) (some b) cs k low a h =
    rw
      (
        read_units-append p hi (c ∷ f) (44 ∷ b ++ cs) a.0.units a.0.at_most
            (comma-Stops p (b ++ cs) k),
        le→leb lo (length (c ∷ f)) a.0.at_least,
        match_second-write p lo hi b cs a.1 h,
        length-append f (44 ∷ b),
      )
      (omega arith)
