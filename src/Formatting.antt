-- ===== src/Formatting.antt =====
-- frontend/src/lib/ircFormatting.ts: IRC formatting codes to markup, and to plain text. A text is
-- the list of its UTF-16 code units, and the markup the list of the pieces appended to `out`.
pub mod Codes
pub mod Palette
mod Safe
pub mod Loop
pub mod Strip
pub mod Grammar
mod Reading
pub mod Display
pub mod Plain
mod Tests
use Prim.Native.String.{String}
use ircfiber_site.Common.{
  ℕ, zero, suc, ◌+◌, ◌-◌, ◌*◌, Bool, true, false, not, ◌&&◌, ◌||◌, Option, none, some, List, [],
  ◌∷◌, ◌++◌, leb, ◌==◌, if◌then◌else◌, length, get_elem?, replicate, filter, is_empty,
}
use ircfiber_site.Formatting.Palette.{color_names, extended_color}
use ircfiber_site.Formatting.Codes.{
  Class, Declaration, Piece, Style, unstyled, change_style, word, prefixed, numbered, palette,
  transparent, digits, close, open_tag, wbr, entity, nbsp, plain,
}

-- `if (flag) list.push(...)`
unfoldable pub when {ℓ} : {A : Type ℓ} → Bool → List A → List A
when b xs = if b then xs else []

-- The classes of a palette colour of at most 15: `around` and `color_names[n]`, and `prefix` with n.
unfoldable pub color_classes : String → (String → Class) → String → Option ℕ → List Class
color_classes around named prefix none = []
color_classes around named prefix (some n) = elim (get_elem? color_names n) [
  | none ↦ []
  | some name ↦ word around ∷ named name ∷ numbered prefix n ∷ []
]

unfoldable pub color_declaration : String → Option ℕ → List Declaration
color_declaration property none = []
color_declaration property (some n) = elim (extended_color n) [
  | none ↦ []
  | some hex ↦ palette property hex ∷ []
]

unfoldable pub is_99 : Option ℕ → Bool
is_99 none = false
is_99 (some n) = n == 99

unfoldable pub hex_declaration : String → Option (List ℕ) → List Declaration
hex_declaration property none = []
hex_declaration property (some ds) = digits property ds ∷ []

unfoldable pub transparent_declaration : String → Option ℕ → List Declaration
transparent_declaration property n = when (is_99 n) (transparent property ∷ [])

unfoldable pub classes : Style → List Class
classes st =
    when st.bold (word "bold" ∷ [])
    ++ when st.italic (word "italic" ∷ [])
    ++ when st.underline (word "underline" ∷ [])
    ++ when st.reverse (word "reverse" ∷ [])
    ++ when st.monospace (word "monospace" ∷ [])
    ++ when st.strikethrough (word "strikethrough" ∷ [])
    ++ color_classes "irccolor" word "color-" st.fg
    ++ color_classes "irccolor-bg" (prefixed "bg-") "bg-" st.bg

unfoldable pub declarations : Style → List Declaration
declarations st =
    color_declaration "color" st.fg
    ++ color_declaration "background-color" st.bg
    ++ transparent_declaration "color" st.fg
    ++ transparent_declaration "background-color" st.bg
    ++ hex_declaration "color" st.hex_fg
    ++ hex_declaration "background-color" st.hex_bg

-- `none` is the empty string.
unfoldable pub make_open : Style → Option Piece
make_open st =
    if is_empty (classes st) && is_empty (declarations st)
    then none
    else some (open_tag (classes st) (declarations st))

unfoldable pub is_some {ℓ} : {A : Type ℓ} → Option A → Bool
is_some none = false
is_some (some _) = true

unfoldable pub is_colored : Style → Bool
is_colored st = is_some st.fg || is_some st.bg || is_some st.hex_fg || is_some st.hex_bg

-- `i + 1 < text.length && text.charCodeAt(i + 1) === 0x20`
unfoldable pub starts_with_space : List ℕ → Bool
starts_with_space [] = false
starts_with_space (c ∷ _) = c == 32

unfoldable pub emit_space : Bool → Style → Bool → List ℕ → Piece
emit_space art st after_space cs =
    if (starts_with_space cs || after_space) || (is_some st.bg || is_some st.hex_bg) || art
    then nbsp
    else plain 32

-- `emitChar`, where `after_space` says that the unit before is a space, and `cs` are those behind.
unfoldable pub emit_char : Bool → Style → Bool → ℕ → List ℕ → Piece
emit_char art st after_space c cs =
    if c == 38 || c == 60 || c == 62 || c == 34 || c == 39
    then entity c
    else if c == 32
    then emit_space art st after_space cs
    else plain c

-- `closeAll`, with `openStack` spans open.
unfoldable pub close_all : ℕ → List Piece
close_all open_stack = replicate open_stack close

-- What follows a change of style: its tag, and the new `openStack`.
unfoldable pub open_style : Style → Option Piece → List Piece × ℕ
open_style st none = ([], 0)
open_style st (some tag) = (when (is_colored st) (wbr ∷ []) ++ tag ∷ [], 1)

unfoldable pub reopen : ℕ → Style → List Piece × ℕ
reopen open_stack st = let o = open_style st (make_open st) in (close_all open_stack ++ o.0, o.1)

-- The state between two iterations of the loop.
pub record State : Type 0 where
  pub style : Style
  pub open_stack : ℕ
  pub after_space : Bool
  pub rest : List ℕ

-- One iteration at the unit `ch`, with `cs` behind it: what it appends, and the new state. No code
-- and no argument of one is a space.
unfoldable pub iterate : Bool → Style → ℕ → Bool → ℕ → List ℕ → List Piece × State
iterate art st open_stack after_space ch cs = elim (change_style ch cs st) [
  | none ↦ (
    emit_char art st after_space ch cs ∷ [],
    record { style = st; open_stack = open_stack; after_space = ch == 32; rest = cs },
  )
  | some changed ↦
      let o = reopen open_stack changed.0 in
      (o.0, record { style = changed.0; open_stack = o.1; after_space = false; rest = changed.1 })
]

-- What comes before it, in front of what a later iteration appends.
unfoldable pub prepend : List Piece → Option (List Piece) → Option (List Piece)
prepend ps none = none
prepend ps (some qs) = some (ps ++ qs)

-- The loop, on fuel, with the last `closeAll`: `none` when the fuel runs out.
unfoldable pub parse_loop : Bool → ℕ → Style → ℕ → Bool → List ℕ → Option (List Piece)
parse_loop art fuel st open_stack after_space [] = some (close_all open_stack)
parse_loop art zero st open_stack after_space (ch ∷ cs) = none
parse_loop art (suc fuel) st open_stack after_space (ch ∷ cs) =
    let n = iterate art st open_stack after_space ch cs in
    prepend n.0 (parse_loop art fuel n.1.style n.1.open_stack n.1.after_space n.1.rest)

unfoldable pub is_color_code : ℕ → Bool
is_color_code c = c == 3 || c == 4

unfoldable pub is_art_like : List ℕ → Bool
is_art_like text = leb 6 (length (filter is_color_code text)) && leb 30 (length text)

-- The fuel is the text's length.
unfoldable pub parse_irc_formatting : List ℕ → Option (List Piece)
parse_irc_formatting text = parse_loop (is_art_like text) (length text) unstyled 0 false text
