-- ===== src/Formatting/Safe.antt =====
-- ircFormatting.ts: the units that the attributes of a span take from the text, the hex digits of a
-- colour, in every style that the codes of a text lead to.
use ircfiber_site.Common.{
  ℕ, zero, suc, ◌≡◌, ◌≢◌, inl, inr, true, Option, none, some, List, [], ◌∷◌, arith, Bool-cases,
  length, ◌==◌, All, All-append,
}
use Prim.Native.String.{String}
use ircfiber_site.Formatting.Palette.{extended_color}
use ircfiber_site.Formatting.{
  when, color_declaration, hex_declaration, transparent_declaration, is_99, declarations,
}
use ircfiber_site.Formatting.Codes.{
  Declaration, palette, transparent, digits, Style, is_digit, is_hex_digit, read_units, Arguments,
  read_second, read_arguments, six, set_color, set_hex, change_style, unstyled,
}

-- HTML reads no markup in the unit: it is none of `&`, `<`, `>` and the two quotes.
unfoldable pub IsSafe : ℕ → Type 0
IsSafe c = (c ≢ 38) × (c ≢ 60) × (c ≢ 62) × (c ≢ 34) × (c ≢ 39)

-- The colours of the palette and `transparent` are constants of the source; the digits are units of
-- the text.
unfoldable pub IsSafeDeclaration : Declaration → Type 0
IsSafeDeclaration (palette property hex) = Unit
IsSafeDeclaration (transparent property) = Unit
IsSafeDeclaration (digits property ds) = All IsSafe ds

unfoldable pub IsSafeHex : Option (List ℕ) → Type 0
IsSafeHex none = Unit
IsSafeHex (some ds) = All IsSafe ds

-- The hex digits that a style keeps hold no markup.
pub record IsSafeStyle (st : Style) : Type 0 where
  pub safe_fg : IsSafeHex st.hex_fg
  pub safe_bg : IsSafeHex st.hex_bg

is_hex_digit-IsSafe : (c : ℕ) → is_hex_digit c ≡ true → IsSafe c
unfolding is_hex_digit IsSafe
is_hex_digit-IsSafe c h = ground arith

read_units-IsSafe : (k : ℕ) (cs : List ℕ) → All IsSafe (read_units is_hex_digit k cs).0
unfolding read_units
read_units-IsSafe zero cs = tt
read_units-IsSafe (suc k) [] = tt
read_units-IsSafe (suc k) (c ∷ cs) = elim (Bool-cases (is_hex_digit c)) [
  | inl h ↦ rw h (is_hex_digit-IsSafe c h, read_units-IsSafe k cs)
  | inr h ↦ rw h tt
]

read_second-IsSafe :
    (k : ℕ) (f cs : List ℕ)
    → All IsSafe f
    → All IsSafe (read_second is_hex_digit k f cs).first
      × IsSafeHex (read_second is_hex_digit k f cs).second
unfolding read_second IsSafeHex
read_second-IsSafe k f [] h = (h, tt)
read_second-IsSafe k f (c ∷ cs) h = elim (Bool-cases (c == 44)) [
  | inl e ↦ rw e (h, read_units-IsSafe k cs)
  | inr e ↦ rw e (h, tt)
]

six-IsSafe : (o : Option (List ℕ)) → IsSafeHex o → IsSafeHex (six o)
unfolding six IsSafeHex
six-IsSafe none h = tt
six-IsSafe (some ds) h = elim (Bool-cases (length ds == 6)) [ inl e ↦ rw e h | inr e ↦ rw e tt ]

set_hex-IsSafe :
    (k : ℕ) (cs : List ℕ) (st : Style) → IsSafeStyle (set_hex (read_arguments is_hex_digit k cs) st)
unfolding set_hex read_arguments IsSafeHex
set_hex-IsSafe k cs st =
    let f = read_units is_hex_digit k cs in
    let (first, second) = read_second-IsSafe k f.0 f.1 (read_units-IsSafe k cs) in
    record {
      safe_fg = six-IsSafe (some (read_second is_hex_digit k f.0 f.1).first) first;
      safe_bg = six-IsSafe (read_second is_hex_digit k f.0 f.1).second second;
    }

set_color-IsSafe : (a : Arguments) (st : Style) → IsSafeStyle (set_color a st)
unfolding set_color IsSafeHex
set_color-IsSafe a st = record { safe_fg = tt; safe_bg = tt }

pub unstyled-IsSafe : IsSafeStyle unstyled
unfolding IsSafeHex
unstyled-IsSafe = record { safe_fg = tt; safe_bg = tt }

pub change_style-IsSafe :
    (ch : ℕ) (cs : List ℕ) (st : Style) {u : Style × List ℕ}
    → IsSafeStyle st
    → change_style ch cs st ≡ some u
    → IsSafeStyle u.0
unfolding change_style
change_style-IsSafe ch cs st h e = ground (
  arith,
  set_hex-IsSafe 6 cs st,
  set_color-IsSafe (read_arguments is_digit 2 cs) st,
  unstyled-IsSafe,
)

palette-IsSafe :
    (property : String) (o : Option String)
    → All IsSafeDeclaration (elim o [ none ↦ [] | some hex ↦ palette property hex ∷ [] ])
unfolding IsSafeDeclaration
palette-IsSafe property none = tt
palette-IsSafe property (some hex) = (tt, tt)

color_declaration-IsSafe :
    (property : String) (n : Option ℕ) → All IsSafeDeclaration (color_declaration property n)
unfolding color_declaration IsSafeDeclaration
color_declaration-IsSafe property none = tt
color_declaration-IsSafe property (some n) = palette-IsSafe property (extended_color n)

transparent_declaration-IsSafe :
    (property : String) (n : Option ℕ) → All IsSafeDeclaration (transparent_declaration property n)
unfolding transparent_declaration when IsSafeDeclaration
transparent_declaration-IsSafe property n = elim (Bool-cases (is_99 n)) [
  | inl e ↦ rw e (tt, tt)
  | inr e ↦ rw e tt
]

hex_declaration-IsSafe :
    (property : String) (o : Option (List ℕ))
    → IsSafeHex o
    → All IsSafeDeclaration (hex_declaration property o)
unfolding hex_declaration IsSafeHex IsSafeDeclaration
hex_declaration-IsSafe property none h = tt
hex_declaration-IsSafe property (some ds) h = (h, tt)

pub declarations-IsSafe : (st : Style) → IsSafeStyle st → All IsSafeDeclaration (declarations st)
unfolding declarations
declarations-IsSafe st h =
    search
      (
        All-append, color_declaration-IsSafe, transparent_declaration-IsSafe,
        hex_declaration-IsSafe, h.safe_fg, h.safe_bg,
      )
      depth 9
