-- ===== src/Formatting/Display.antt =====
-- ircFormatting.ts: the spans in which the markup of `parseIrcFormatting` shows the units of a
-- text.
use ircfiber_site.Common.{
  ℕ, zero, suc, ◌≤◌, ◌<◌, ◌≡◌, refl, sym, ap, ◌∙◌, Bool, true, false, not, Option, none, some, List,
  [], ◌∷◌, ◌++◌, map, arith, ◌==◌, if◌then◌else◌, length, length-append,
}
use ircfiber_site.Formatting.{
  when, color_classes, color_declaration, is_99, hex_declaration, transparent_declaration, classes,
  declarations, make_open, emit_space, emit_char, close_all, open_style, reopen, iterate, prepend,
  parse_loop, is_art_like, parse_irc_formatting,
}
use ircfiber_site.Formatting.Codes.{
  Piece, close, open_tag, wbr, entity, nbsp, plain, Style, unstyled, is_digit, is_hex_digit,
  set_color, set_hex, change_style,
}
use ircfiber_site.Formatting.Strip.{is_toggle, is_kept, strip_irc_formatting}
use ircfiber_site.Formatting.Grammar.{
  Code, char, toggle, color, hex, write_second, write, shown, is_char, IsCanonical,
}
use ircfiber_site.Formatting.Plain.{strip_irc_formatting-write}
use ircfiber_site.Formatting.Reading.{
  is_digit-IsClass, is_hex_digit-IsClass, write-NoStart, read_arguments-write,
}

-- The units that markup displays, each with the tag of the span that it stands in, when `tag` is
-- that of the span which is open.
unfoldable pub displayed : Option Piece → List Piece → List (ℕ × Option Piece)
displayed tag [] = []
displayed tag (close ∷ ps) = displayed none ps
displayed tag (open_tag cs ds ∷ ps) = displayed (some (open_tag cs ds)) ps
displayed tag (wbr ∷ ps) = displayed tag ps
displayed tag (entity c ∷ ps) = (c, tag) ∷ displayed tag ps
displayed tag (nbsp ∷ ps) = (32, tag) ∷ displayed tag ps
displayed tag (plain c ∷ ps) = (c, tag) ∷ displayed tag ps

-- What a toggle or the reset makes of a style.
unfoldable pub toggled : ℕ → Style → Style
toggled c st = if c == 15 then unstyled else record st {
  bold = if c == 2 then not st.bold else st.bold;
  italic = if c == 29 then not st.italic else st.italic;
  underline = if c == 31 then not st.underline else st.underline;
  reverse = if c == 22 then not st.reverse else st.reverse;
  monospace = if c == 17 then not st.monospace else st.monospace;
  strikethrough = if c == 30 then not st.strikethrough else st.strikethrough;
}

-- What the codes show, each unit with the tag of the style that the codes before it set.
unfoldable pub styled : Style → List Code → List (ℕ × Option Piece)
styled st [] = []
styled st (char c ∷ ks) = (c, make_open st) ∷ styled st ks
styled st (toggle c ∷ ks) = styled (toggled c st) ks
styled st (color f b ∷ ks) = styled (set_color (record { first = f; second = b; rest = [] }) st) ks
styled st (hex f b ∷ ks) = styled (set_hex (record { first = f; second = b; rest = [] }) st) ks

change_style-char :
    (c : ℕ) (cs : List ℕ) (st : Style) → is_char c ≡ true → change_style c cs st ≡ none
unfolding change_style is_char is_kept is_toggle
change_style-char c cs st h = ground arith

change_style-toggle :
    (c : ℕ) (cs : List ℕ) (st : Style)
    → is_toggle c ≡ true
    → change_style c cs st ≡ some (toggled c st, cs)
unfolding change_style toggled is_toggle
change_style-toggle c cs st h = ground arith

change_style-color :
    (f : List ℕ) (b : Option (List ℕ)) (ks : List Code) (st : Style)
    → IsCanonical (color f b ∷ ks)
    → change_style 3 (f ++ (write_second b ++ write ks)) st
      ≡ some (set_color (record { first = f; second = b; rest = [] }) st, write ks)
unfolding change_style IsCanonical set_color
change_style-color f b ks st h = rw (
    read_arguments-write is_digit 1 2 f b (write ks) is_digit-IsClass h.0
      (write-NoStart is_digit ks is_digit-IsClass h.2 h.1))

change_style-hex :
    (f : List ℕ) (b : Option (List ℕ)) (ks : List Code) (st : Style)
    → IsCanonical (hex f b ∷ ks)
    → change_style 4 (f ++ (write_second b ++ write ks)) st
      ≡ some (set_hex (record { first = f; second = b; rest = [] }) st, write ks)
unfolding change_style IsCanonical set_hex
change_style-hex f b ks st h = rw (
    read_arguments-write is_hex_digit 6 6 f b (write ks) is_hex_digit-IsClass h.0
      (write-NoStart is_hex_digit ks is_hex_digit-IsClass h.2 h.1))

-- One unit is displayed as it is, in the span that is open.
displayed-emit_char :
    (tag : Option Piece) (art : Bool) (st : Style) (a : Bool) (c : ℕ) (cs : List ℕ)
    (ps : List Piece)
    → displayed tag (emit_char art st a c cs ∷ ps) ≡ (c, tag) ∷ displayed tag ps
unfolding displayed emit_char emit_space
displayed-emit_char tag art st a c cs ps = ground arith

-- How many spans a style has open.
spans : Style → ℕ
spans st = (open_style st (make_open st)).1

-- A change of style displays nothing, and opens the span of the new style.
displayed-reopen :
    (old st : Style) (ps : List Piece)
    → displayed (make_open old) ((reopen (spans old) st).0 ++ ps) ≡ displayed (make_open st) ps
unfolding displayed reopen spans open_style make_open close_all when
displayed-reopen old st ps = ground arith

parse_loop-change :
    (art : Bool) (fuel : ℕ) (old st : Style) (a : Bool) (ch : ℕ) (cs rest : List ℕ)
    → change_style ch cs old ≡ some (st, rest)
    → parse_loop art (suc fuel) old (spans old) a (ch ∷ cs)
      ≡ prepend (reopen (spans old) st).0 (parse_loop art fuel st (spans st) false rest)
unfolding parse_loop iterate spans reopen
parse_loop-change art fuel old st a ch cs rest e = rw (parse_loop, iterate, e) refl

parse_loop-char :
    (art : Bool) (fuel : ℕ) (st : Style) (a : Bool) (ch : ℕ) (cs : List ℕ)
    → change_style ch cs st ≡ none
    → parse_loop art (suc fuel) st (spans st) a (ch ∷ cs)
      ≡ prepend (emit_char art st a ch cs ∷ []) (parse_loop art fuel st (spans st) (ch == 32) cs)
unfolding parse_loop iterate
parse_loop-char art fuel st a ch cs e = rw (parse_loop, iterate, e) refl

-- The run returns, and what it appends displays `us`, where `tag` is that of the open span.
Displays : Option Piece → List (ℕ × Option Piece) → Option (List Piece) → Type 0
Displays tag us o = (ps : List Piece) × (o ≡ some ps) × (displayed tag ps ≡ us)

Displays-reopen :
    (old st : Style) (us : List (ℕ × Option Piece)) (o : Option (List Piece))
    → Displays (make_open st) us o
    → Displays (make_open old) us (prepend (reopen (spans old) st).0 o)
unfolding Displays prepend
Displays-reopen old st us o (ps, e, d) =
    (_, ap (prepend (reopen (spans old) st).0) e, displayed-reopen old st ps ∙ d)

Displays-char :
    (tag : Option Piece) (art : Bool) (st : Style) (a : Bool) (c : ℕ) (cs : List ℕ)
    (us : List (ℕ × Option Piece)) (o : Option (List Piece))
    → Displays tag us o
    → Displays tag ((c, tag) ∷ us) (prepend (emit_char art st a c cs ∷ []) o)
unfolding Displays prepend
Displays-char tag art st a c cs us o (ps, e, d) = (
  _,
  ap (prepend (emit_char art st a c cs ∷ [])) e,
  displayed-emit_char tag art st a c cs ps ∙ ap (λ t. (c, tag) ∷ t) d,
)

displayed-close_all : (tag : Option Piece) (n : ℕ) → displayed tag (close_all n) ≡ []
unfolding displayed close_all
displayed-close_all tag zero = refl
displayed-close_all tag (suc n) = displayed-close_all none n

Displays-nil :
    (tag : Option Piece) (art : Bool) (fuel : ℕ) (st : Style) (n : ℕ) (a : Bool)
    → Displays tag [] (parse_loop art fuel st n a [])
unfolding Displays parse_loop
Displays-nil tag art fuel st n a = (close_all n, refl, displayed-close_all tag n)

length-write : (k : Code) (ks : List Code) → 0 < length (write (k ∷ ks))
unfolding write
length-write (char c) ks = omega arith
length-write (toggle c) ks = omega arith
length-write (color f b) ks = omega arith
length-write (hex f b) ks = omega arith

length-behind : (f w cs : List ℕ) → length cs ≤ length (f ++ (w ++ cs))
length-behind f w cs = omega (arith, length-append f (w ++ cs), length-append w cs)

parse_loop-Displays :
    (art : Bool) (fuel : ℕ) (st : Style) (a : Bool) (ks : List Code)
    → IsCanonical ks
    → length (write ks) ≤ fuel
    → Displays (make_open st) (styled st ks) (parse_loop art fuel st (spans st) a (write ks))
unfolding write styled IsCanonical
parse_loop-Displays art fuel st a [] h l = Displays-nil (make_open st) art fuel st (spans st) a
parse_loop-Displays art zero st a (k ∷ ks) h l = absurd (omega (arith, length-write k ks))
parse_loop-Displays art (suc fuel) st a (char c ∷ ks) h l =
    rw (parse_loop-char art fuel st a c (write ks) (change_style-char c (write ks) st h.0)) (
      Displays-char (make_open st) art st a c (write ks) (styled st ks) _
        (parse_loop-Displays art fuel st (c == 32) ks h.1 (omega arith)))
parse_loop-Displays art (suc fuel) st a (toggle c ∷ ks) h l =
    rw
      (parse_loop-change art fuel st (toggled c st) a c (write ks) (write ks)
        (change_style-toggle c (write ks) st h.0))
      (Displays-reopen st (toggled c st) (styled (toggled c st) ks) _
        (parse_loop-Displays art fuel (toggled c st) false ks h.1 (omega arith)))
parse_loop-Displays art (suc fuel) st a (color f b ∷ ks) h l =
    let new = set_color (record { first = f; second = b; rest = [] }) st in
    let enough : length (write ks) ≤ fuel =
      omega (arith, length-behind f (write_second b) (write ks)) in
    rw
      (parse_loop-change art fuel st new a 3 (f ++ (write_second b ++ write ks)) (write ks)
        (change_style-color f b ks st h))
      (Displays-reopen st new (styled new ks) _
        (parse_loop-Displays art fuel new false ks h.2 enough))
parse_loop-Displays art (suc fuel) st a (hex f b ∷ ks) h l =
    let new = set_hex (record { first = f; second = b; rest = [] }) st in
    let enough : length (write ks) ≤ fuel =
      omega (arith, length-behind f (write_second b) (write ks)) in
    rw
      (parse_loop-change art fuel st new a 4 (f ++ (write_second b ++ write ks)) (write ks)
        (change_style-hex f b ks st h))
      (Displays-reopen st new (styled new ks) _
        (parse_loop-Displays art fuel new false ks h.2 enough))

-- A canonical text is parsed to markup that displays its units in order, each in the one span that
-- its style asks for, or in none when its style is plain.
pub parse_irc_formatting-displayed :
    (ks : List Code)
    → IsCanonical ks
    → (ps : List Piece) × (parse_irc_formatting (write ks) ≡ some ps)
      × (displayed none ps ≡ styled unstyled ks)
unfolding parse_irc_formatting Displays spans make_open open_style classes declarations when
    color_classes color_declaration transparent_declaration is_99 hex_declaration
parse_irc_formatting-displayed ks h =
    parse_loop-Displays (is_art_like (write ks)) (length (write ks)) unstyled false ks h
      (omega arith)

-- The units that markup displays.
unfoldable pub text_content : List Piece → List ℕ
text_content ps = map (λ u. u.0) (displayed none ps)

styled-units : (st : Style) (ks : List Code) → map (λ u. u.0) (styled st ks) ≡ shown ks
unfolding styled shown
styled-units st [] = refl
styled-units st (char c ∷ ks) = ap (λ t. c ∷ t) (styled-units st ks)
styled-units st (toggle c ∷ ks) = styled-units (toggled c st) ks
styled-units st (color f b ∷ ks) =
    styled-units (set_color (record { first = f; second = b; rest = [] }) st) ks
styled-units st (hex f b ∷ ks) =
    styled-units (set_hex (record { first = f; second = b; rest = [] }) st) ks

-- On a canonical text the parser and the stripper agree: the text that the markup displays is the
-- stripped text.
pub parse_irc_formatting-strip_irc_formatting :
    (ks : List Code)
    → IsCanonical ks
    → (ps : List Piece) × (parse_irc_formatting (write ks) ≡ some ps)
      × (text_content ps ≡ strip_irc_formatting (write ks))
unfolding text_content
parse_irc_formatting-strip_irc_formatting ks h =
    let (ps, e, d) = parse_irc_formatting-displayed ks h in
    (
      ps,
      e,
      ap (map (λ u. u.0)) d ∙ styled-units unstyled ks ∙ sym (strip_irc_formatting-write ks h),
    )
