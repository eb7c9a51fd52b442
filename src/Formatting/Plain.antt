-- ===== src/Formatting/Plain.antt =====
-- ircFormatting.ts: `stripIrcFormatting` on a text as the codes it is written with.
use ircfiber_site.Common.{
  ℕ, ◌≤◌, ◌<◌, ◌≡◌, refl, sym, ap, ◌∙◌, Bool, true, false, Option, none, some, List, [], ◌∷◌, ◌++◌,
  append_assoc, arith, length, All, All-append, filter,
}
use ircfiber_site.Formatting.Codes.{is_digit, is_hex_digit}
use ircfiber_site.Formatting.Strip.{
  is_toggle, is_kept, match_arguments, remove_codes, remove_colors, remove_hex_colors,
  strip_irc_formatting,
}
use ircfiber_site.Formatting.Grammar.{
  Code, char, toggle, color, hex, write_second, write, shown, Ends, AreArguments, is_char,
  IsCanonical,
}
use ircfiber_site.Formatting.Reading.{
  IsClass, is_digit-IsClass, is_hex_digit-IsClass, NoStart, write-NoStart, match_arguments-write,
}

not_toggle : Code → Bool
not_toggle (toggle _) = false
not_toggle _ = true

not_color : Code → Bool
not_color (color _ _) = false
not_color _ = true

-- Leaving out codes, but no unit to show.
module _ (q : Code → Bool) (keeps : (c : ℕ) → q (char c) ≡ true) where
  shown-filter : (ks : List Code) → shown (filter q ks) ≡ shown ks
  unfolding shown
  shown-filter [] = refl
  shown-filter (char c ∷ ks) = ground (arith, keeps c, shown-filter ks)
  shown-filter (toggle c ∷ ks) = ground (arith, shown-filter ks)
  shown-filter (color f b ∷ ks) = ground (arith, shown-filter ks)
  shown-filter (hex f b ∷ ks) = ground (arith, shown-filter ks)

  Ends-filter : (p : ℕ → Bool) (ks : List Code) → Ends p ks → Ends p (filter q ks)
  unfolding Ends
  Ends-filter p [] h = tt
  Ends-filter p (char c ∷ ks) h = ground (arith, keeps c)
  Ends-filter p (toggle c ∷ ks) h = ground (arith, Ends-filter p ks)
  Ends-filter p (color f b ∷ ks) h = ground (arith, Ends-filter p ks)
  Ends-filter p (hex f b ∷ ks) h = ground (arith, Ends-filter p ks)

  IsCanonical-filter : (ks : List Code) → IsCanonical ks → IsCanonical (filter q ks)
  unfolding IsCanonical
  IsCanonical-filter [] h = tt
  IsCanonical-filter (char c ∷ ks) h = ground (arith, keeps c, IsCanonical-filter ks)
  IsCanonical-filter (toggle c ∷ ks) h = ground (arith, IsCanonical-filter ks)
  IsCanonical-filter (color f b ∷ ks) h =
      ground (arith, IsCanonical-filter ks, Ends-filter is_digit ks)
  IsCanonical-filter (hex f b ∷ ks) h =
      ground (arith, IsCanonical-filter ks, Ends-filter is_hex_digit ks)

-- The units of the arguments of a code are neither control characters nor spaces.
class-le : (p : ℕ → Bool) (c : ℕ) → IsClass p → p c ≡ true → 45 ≤ c
unfolding IsClass
class-le p c k h = ground (arith, k c)

number-le :
    (p : ℕ → Bool) (cs : List ℕ) → IsClass p → All (λ c. p c ≡ true) cs → All (λ c. 44 ≤ c) cs
number-le p [] k h = tt
number-le p (c ∷ cs) k h = (omega (arith, class-le p c k h.0), number-le p cs k h.1)

arguments-le :
    (p : ℕ → Bool) (lo hi : ℕ) (f : List ℕ) (b : Option (List ℕ))
    → IsClass p
    → AreArguments p lo hi f b
    → All (λ c. 44 ≤ c) (f ++ write_second b)
unfolding AreArguments write_second
arguments-le p lo hi [] none k a = tt
arguments-le p lo hi [] (some b) k a = cc
arguments-le p lo hi (c ∷ f) none k a =
    All-append (λ d. 44 ≤ d) (c ∷ f) [] (number-le p (c ∷ f) k a.units) tt
arguments-le p lo hi (c ∷ f) (some b) k a =
    All-append (λ d. 44 ≤ d) (c ∷ f) (44 ∷ b) (number-le p (c ∷ f) k a.0.units)
      (omega arith, number-le p b k a.1.units)

filter-is_kept :
    (cs ds : List ℕ) → All (λ c. 44 ≤ c) cs → filter is_kept (cs ++ ds) ≡ cs ++ filter is_kept ds
unfolding is_kept is_toggle
filter-is_kept [] ds h = refl
filter-is_kept (c ∷ cs) ds h = ground (arith, filter-is_kept cs ds)

filter-arguments :
    (f w cs : List ℕ)
    → All (λ c. 44 ≤ c) (f ++ w)
    → filter is_kept (f ++ (w ++ cs)) ≡ f ++ (w ++ filter is_kept cs)
filter-arguments f w cs h =
    ap (filter is_kept) (sym (append_assoc f w cs))
    ∙ filter-is_kept (f ++ w) cs h
    ∙ append_assoc f w (filter is_kept cs)

-- The first replacement.
filter-write :
    (ks : List Code) → IsCanonical ks → filter is_kept (write ks) ≡ write (filter not_toggle ks)
unfolding write IsCanonical is_char is_kept not_toggle is_toggle
filter-write [] h = refl
filter-write (char c ∷ ks) h = ground (arith, filter-write ks)
filter-write (toggle c ∷ ks) h = ground (arith, filter-write ks)
filter-write (color f b ∷ ks) h =
    let le = arguments-le is_digit 1 2 f b is_digit-IsClass h.0 in
    ap (λ t. 3 ∷ t)
      (filter-arguments f (write_second b) (write ks) le
        ∙ ap (λ t. f ++ (write_second b ++ t)) (filter-write ks h.2))
filter-write (hex f b ∷ ks) h =
    let le = arguments-le is_hex_digit 6 6 f b is_hex_digit-IsClass h.0 in
    ap (λ t. 4 ∷ t)
      (filter-arguments f (write_second b) (write ks) le
        ∙ ap (λ t. f ++ (write_second b ++ t)) (filter-write ks h.2))

module _ (code : ℕ) (p : ℕ → Bool) (lo hi : ℕ) (low : code < 44) where
  -- A match is skipped.
  remove_codes-skip :
      (cs ds : List ℕ)
      → remove_codes code p lo hi (length cs) (cs ++ ds) ≡ remove_codes code p lo hi 0 ds
  unfolding remove_codes
  remove_codes-skip [] ds = refl
  remove_codes-skip (c ∷ cs) ds = remove_codes-skip cs ds

  -- What is no control character is kept.
  remove_codes-append :
      (cs ds : List ℕ)
      → All (λ c. 44 ≤ c) cs
      → remove_codes code p lo hi 0 (cs ++ ds) ≡ cs ++ remove_codes code p lo hi 0 ds
  unfolding remove_codes
  remove_codes-append [] ds h = refl
  remove_codes-append (c ∷ cs) ds h = ground (arith, remove_codes-append cs ds)

  remove_codes-keeps :
      (f w cs : List ℕ)
      → All (λ c. 44 ≤ c) (f ++ w)
      → remove_codes code p lo hi 0 (f ++ (w ++ cs)) ≡ f ++ (w ++ remove_codes code p lo hi 0 cs)
  remove_codes-keeps f w cs h =
      ap (remove_codes code p lo hi 0) (sym (append_assoc f w cs))
      ∙ remove_codes-append (f ++ w) cs h
      ∙ append_assoc f w (remove_codes code p lo hi 0 cs)

  remove_codes-match :
      (cs : List ℕ)
      → remove_codes code p lo hi 0 (code ∷ cs)
        ≡ remove_codes code p lo hi (match_arguments p lo hi cs) cs
  unfolding remove_codes
  remove_codes-match cs = ground arith

  -- A code is removed with its arguments.
  remove_codes-write :
      (f : List ℕ) (b : Option (List ℕ)) (cs : List ℕ)
      → IsClass p
      → 1 ≤ lo
      → AreArguments p lo hi f b
      → NoStart p cs
      → remove_codes code p lo hi 0 (code ∷ f ++ (write_second b ++ cs))
        ≡ remove_codes code p lo hi 0 cs
  remove_codes-write f b cs k one a h =
      remove_codes-match (f ++ (write_second b ++ cs))
      ∙ rw
          (match_arguments-write p lo hi f b cs k one a h, sym (append_assoc f (write_second b) cs))
          (remove_codes-skip (f ++ write_second b) cs)

-- The second replacement.
remove_colors-write :
    (ks : List Code) → IsCanonical ks → remove_colors (write ks) ≡ write (filter not_color ks)
unfolding write IsCanonical is_char is_kept not_color is_toggle remove_codes
remove_colors-write [] h = refl
remove_colors-write (char c ∷ ks) h = ground (arith, remove_colors-write ks)
remove_colors-write (toggle c ∷ ks) h = ground (arith, remove_colors-write ks)
remove_colors-write (color f b ∷ ks) h =
    remove_codes-write 3 is_digit 1 2 (omega arith) f b (write ks) is_digit-IsClass (omega arith)
      h.0 (write-NoStart is_digit ks is_digit-IsClass h.2 h.1)
    ∙ remove_colors-write ks h.2
remove_colors-write (hex f b ∷ ks) h =
    let le = arguments-le is_hex_digit 6 6 f b is_hex_digit-IsClass h.0 in
    ap (λ t. 4 ∷ t)
      (remove_codes-keeps 3 is_digit 1 2 (omega arith) f (write_second b) (write ks) le
        ∙ ap (λ t. f ++ (write_second b ++ t)) (remove_colors-write ks h.2))

-- Only units to show and hex colours are left.
IsHexOnly : List Code → Type 0
IsHexOnly [] = Unit
IsHexOnly (char _ ∷ ks) = IsHexOnly ks
IsHexOnly (hex _ _ ∷ ks) = IsHexOnly ks
IsHexOnly (_ ∷ ks) = ⊥

filters-IsHexOnly : (ks : List Code) → IsHexOnly (filter not_color (filter not_toggle ks))
unfolding IsHexOnly not_color not_toggle
filters-IsHexOnly [] = tt
filters-IsHexOnly (char c ∷ ks) = filters-IsHexOnly ks
filters-IsHexOnly (toggle c ∷ ks) = filters-IsHexOnly ks
filters-IsHexOnly (color f b ∷ ks) = filters-IsHexOnly ks
filters-IsHexOnly (hex f b ∷ ks) = filters-IsHexOnly ks

-- The third replacement.
remove_hex_colors-write :
    (ks : List Code) → IsCanonical ks → IsHexOnly ks → remove_hex_colors (write ks) ≡ shown ks
unfolding write IsCanonical is_char shown IsHexOnly remove_codes
remove_hex_colors-write [] h o = refl
remove_hex_colors-write (char c ∷ ks) h o = ground (arith, remove_hex_colors-write ks)
remove_hex_colors-write (toggle c ∷ ks) h o = absurd o
remove_hex_colors-write (color f b ∷ ks) h o = absurd o
remove_hex_colors-write (hex f b ∷ ks) h o =
    remove_codes-write 4 is_hex_digit 6 6 (omega arith) f b (write ks) is_hex_digit-IsClass
      (omega arith) h.0 (write-NoStart is_hex_digit ks is_hex_digit-IsClass h.2 h.1)
    ∙ remove_hex_colors-write ks h.2 o

-- The plain text of a canonical text is what its codes show.
pub strip_irc_formatting-write :
    (ks : List Code) → IsCanonical ks → strip_irc_formatting (write ks) ≡ shown ks
unfolding strip_irc_formatting not_toggle not_color
strip_irc_formatting-write ks h =
    let first = filter not_toggle ks in
    let canonical = IsCanonical-filter not_toggle (λ c. refl) ks h in
    ap (λ t. remove_hex_colors (remove_colors t)) (filter-write ks h)
    ∙ ap remove_hex_colors (remove_colors-write first canonical)
    ∙ remove_hex_colors-write (filter not_color first)
        (IsCanonical-filter not_color (λ c. refl) first canonical) (filters-IsHexOnly ks)
    ∙ shown-filter not_color (λ c. refl) first
    ∙ shown-filter not_toggle (λ c. refl) ks
