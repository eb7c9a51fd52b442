-- ===== src/Splitter/Bytes.antt =====
-- messageSplitter.ts: UTF-8 byte costs of code points and of strings.
use ircfiber_site.Common.{
  ℕ, zero, suc, ◌+◌, ◌≤◌, ◌≡◌, List, [], ◌∷◌, ◌++◌, arith, ltb, if◌then◌else◌, take, drop,
}

-- A string, by its code points; a lone surrogate is a code point of its own.
abbrev pub Text : Type 0
Text = List ℕ

-- UTF-8 byte cost of one code point.
unfoldable pub char_bytes : ℕ → ℕ
char_bytes cp =
    if ltb cp 0x80 then 1 else if ltb cp 0x800 then 2 else if ltb cp 0x10000 then 3 else 4

-- `charsBytes` of a chunk; `utf8Length` of a string is the same sum.
unfoldable pub chars_bytes : Text → ℕ
chars_bytes [] = 0
chars_bytes (c ∷ cs) = char_bytes c + chars_bytes cs

pub char_bytes_bounds : (c : ℕ) → (1 ≤ char_bytes c) × (char_bytes c ≤ 4)
unfolding char_bytes
char_bytes_bounds c = ground arith

pub chars_bytes-append : (xs ys : Text) → chars_bytes (xs ++ ys) ≡ chars_bytes xs + chars_bytes ys
unfolding chars_bytes
chars_bytes-append [] ys = omega arith
chars_bytes-append (x ∷ xs) ys = omega (arith, chars_bytes-append xs ys)

pub chars_bytes-take-drop :
    (n : ℕ) (xs : Text) → chars_bytes (take n xs) + chars_bytes (drop n xs) ≡ chars_bytes xs
unfolding chars_bytes
chars_bytes-take-drop zero xs = omega arith
chars_bytes-take-drop (suc n) [] = omega arith
chars_bytes-take-drop (suc n) (x ∷ xs) = omega (arith, chars_bytes-take-drop n xs)

-- A string with a character costs at least a byte.
pub chars_bytes-cons_pos : (x : ℕ) (xs : Text) → 1 ≤ chars_bytes (x ∷ xs)
unfolding chars_bytes
chars_bytes-cons_pos x xs = omega (arith, (char_bytes_bounds x).0)
