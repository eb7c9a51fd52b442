-- ===== src/Formatting/Codes.antt =====
-- frontend/src/lib/ircFormatting.ts: the pieces of the markup, the style of a character, and what the
-- formatting codes and their arguments make of it.
use Prim.Native.String.{String}
use ircfiber_site.Common.{
  ℕ, zero, suc, ◌+◌, ◌-◌, ◌*◌, Bool, false, not, ◌&&◌, ◌||◌, Option, none, some, List, [], ◌∷◌, leb,
  ◌==◌, if◌then◌else◌, length,
}
use ircfiber_site.Formatting.Palette.{}

-- A CSS class: a word, a word behind a prefix, or a number behind one.
pub data Class : Type 0 where
  word : String → Class
  prefixed : String → String → Class
  numbered : String → ℕ → Class

-- A style declaration: a property with a colour of the palette, `transparent`, or hex digits.
pub data Declaration : Type 0 where
  palette : String → String → Declaration
  transparent : String → Declaration
  digits : String → List ℕ → Declaration

-- What is appended to `out`: `</span>`, `<span class="..." style="...">`, `<wbr>`, a character
-- reference for a unit, `&nbsp;`, or a unit as it is.
pub data Piece : Type 0 where
  close : Piece
  open_tag : List Class → List Declaration → Piece
  wbr : Piece
  entity : ℕ → Piece
  nbsp : Piece
  plain : ℕ → Piece

-- The variables of the parser that say how a character is shown.
pub record Style : Type 0 where
  pub bold : Bool
  pub italic : Bool
  pub underline : Bool
  pub reverse : Bool
  pub monospace : Bool
  pub strikethrough : Bool
  pub fg : Option ℕ
  pub bg : Option ℕ
  pub hex_fg : Option (List ℕ)
  pub hex_bg : Option (List ℕ)

abbrev pub unstyled : Style
unstyled = record {
  bold = false;
  italic = false;
  underline = false;
  reverse = false;
  monospace = false;
  strikethrough = false;
  fg = none;
  bg = none;
  hex_fg = none;
  hex_bg = none;
}

unfoldable pub is_digit : ℕ → Bool
is_digit c = leb 48 c && leb c 57

unfoldable pub is_hex_digit : ℕ → Bool
is_hex_digit c = (leb 48 c && leb c 57) || (leb 65 c && leb c 70) || (leb 97 c && leb c 102)

-- The loop `for (k = 0; k < limit && i < text.length; k++)`: the units it collects, and the rest.
unfoldable pub read_units : (ℕ → Bool) → ℕ → List ℕ → List ℕ × List ℕ
read_units p zero cs = ([], cs)
read_units p (suc k) [] = ([], [])
read_units p (suc k) (c ∷ cs) =
    let r = read_units p k cs in if p c then (c ∷ r.0, r.1) else ([], c ∷ cs)

-- The arguments of a colour code: the first number, the second behind a comma, and the rest.
pub record Arguments : Type 0 where
  pub first : List ℕ
  pub second : Option (List ℕ)
  pub rest : List ℕ

-- From the comma on.
unfoldable pub read_second : (ℕ → Bool) → ℕ → List ℕ → List ℕ → Arguments
read_second p k f [] = record { first = f; second = none; rest = [] }
read_second p k f (c ∷ cs) =
    let b = read_units p k cs in
    if c == 44
    then record { first = f; second = some b.0; rest = b.1 }
    else record { first = f; second = none; rest = c ∷ cs }

unfoldable pub read_arguments : (ℕ → Bool) → ℕ → List ℕ → Arguments
read_arguments p k cs = let f = read_units p k cs in read_second p k f.0 f.1

-- `parseInt(digits, 10)`, on the digits read so far.
unfoldable pub parse_int : ℕ → List ℕ → ℕ
parse_int n [] = n
parse_int n (c ∷ cs) = parse_int (n * 10 + (c - 48)) cs

unfoldable pub color_fg : List ℕ → Option (List ℕ) → Option ℕ → Option ℕ
color_fg (c ∷ cs) second fg = some (parse_int 0 (c ∷ cs))
color_fg [] (some _) fg = fg
color_fg [] none fg = none

unfoldable pub color_bg : List ℕ → Option (List ℕ) → Option ℕ → Option ℕ
color_bg first (some []) bg = none
color_bg first (some (c ∷ cs)) bg = some (parse_int 0 (c ∷ cs))
color_bg [] none bg = none
color_bg (_ ∷ _) none bg = bg

-- Code 0x03.
unfoldable pub set_color : Arguments → Style → Style
set_color a st = record st {
  fg = color_fg a.first a.second st.fg;
  bg = color_bg a.first a.second st.bg;
  hex_fg = none;
  hex_bg = none;
}

-- `digits.length === 6 ? digits : null`
unfoldable pub six : Option (List ℕ) → Option (List ℕ)
six none = none
six (some cs) = if length cs == 6 then some cs else none

-- Code 0x04.
unfoldable pub set_hex : Arguments → Style → Style
set_hex a st = record st {
  fg = none;
  bg = none;
  hex_fg = six (some a.first);
  hex_bg = six a.second;
}

-- One iteration at the unit `ch` with `cs` behind it, when `ch` is a code: the new style and what
-- is left to read.
unfoldable pub change_style : ℕ → List ℕ → Style → Option (Style × List ℕ)
change_style ch cs st =
    if ch == 2
    then some (record st { bold = not st.bold }, cs)
    else if ch == 29
    then some (record st { italic = not st.italic }, cs)
    else if ch == 31
    then some (record st { underline = not st.underline }, cs)
    else if ch == 22
    then some (record st { reverse = not st.reverse }, cs)
    else if ch == 17
    then some (record st { monospace = not st.monospace }, cs)
    else if ch == 30
    then some (record st { strikethrough = not st.strikethrough }, cs)
    else if ch == 15
    then some (unstyled, cs)
    else if ch == 3
    then (let a = read_arguments is_digit 2 cs in some (set_color a st, a.rest))
    else if ch == 4
    then (let a = read_arguments is_hex_digit 6 cs in some (set_hex a st, a.rest))
    else none
