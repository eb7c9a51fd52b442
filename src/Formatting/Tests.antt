-- ===== src/Formatting/Tests.antt =====
-- Runs of `parseIrcFormatting` and `stripIrcFormatting`, and where they differ.
use ircfiber_site.Common.{◌≡◌, refl, none, some, List, [], ◌∷◌, arith}
use ircfiber_site.Formatting.{
  when, color_classes, color_declaration, is_99, hex_declaration, transparent_declaration, classes,
  declarations, make_open, is_some, is_colored, emit_char, close_all, open_style, reopen, iterate,
  prepend, parse_loop, is_color_code, is_art_like, parse_irc_formatting,
}
use ircfiber_site.Formatting.Codes.{
  word, prefixed, numbered, Piece, close, open_tag, wbr, plain, unstyled, is_digit, is_hex_digit,
  read_units, read_second, read_arguments, parse_int, color_fg, color_bg, set_color, change_style,
}
use ircfiber_site.Formatting.Palette.{extended_color}
use ircfiber_site.Formatting.Strip.{
  is_toggle, is_kept, match_second, match_arguments, remove_codes, strip_irc_formatting,
}
use ircfiber_site.Formatting.Grammar.{
  Code, char, toggle, color, hex, write, Ends, AreArguments, is_char, IsCanonical,
}
use ircfiber_site.Formatting.Loop.{IsMarkup, parse_irc_formatting-IsMarkup}
use ircfiber_site.Formatting.Display.{
  displayed, styled, parse_irc_formatting-displayed, text_content,
  parse_irc_formatting-strip_irc_formatting,
}

-- bold `a<`, then 4 on 1 ` b`, and a hex colour behind the reset
abbrev sample : List Code
sample =
    toggle 2
    ∷ char 97
    ∷ char 60
    ∷ color (52 ∷ []) (some (48 ∷ 49 ∷ []))
    ∷ char 32
    ∷ char 98
    ∷ toggle 15
    ∷ hex (102 ∷ 102 ∷ 48 ∷ 48 ∷ 102 ∷ 102 ∷ []) none
    ∷ char 33
    ∷ []

sample-IsCanonical : IsCanonical sample
unfolding IsCanonical AreArguments Ends is_char is_kept is_toggle is_digit is_hex_digit
sample-IsCanonical = ground arith

parse_irc_formatting-IsMarkup_example :
    (ps : List Piece) × (parse_irc_formatting (write sample) ≡ some ps) × IsMarkup 0 0 ps
parse_irc_formatting-IsMarkup_example = parse_irc_formatting-IsMarkup (write sample)

parse_irc_formatting-displayed_example :
    (ps : List Piece) × (parse_irc_formatting (write sample) ≡ some ps)
    × (displayed none ps ≡ styled unstyled sample)
parse_irc_formatting-displayed_example = parse_irc_formatting-displayed sample sample-IsCanonical

parse_irc_formatting-strip_irc_formatting_example :
    (ps : List Piece) × (parse_irc_formatting (write sample) ≡ some ps)
    × (text_content ps ≡ strip_irc_formatting (write sample))
parse_irc_formatting-strip_irc_formatting_example =
    parse_irc_formatting-strip_irc_formatting sample sample-IsCanonical

-- `\x03,5x`: the parser reads a background and shows `x`, the stripper leaves `,5x`
background_only_shown :
    parse_irc_formatting (3 ∷ 44 ∷ 53 ∷ 120 ∷ [])
    ≡ some (
        wbr
        ∷ open_tag (word "irccolor-bg" ∷ prefixed "bg-" "maroon" ∷ numbered "bg-" 5 ∷ []) []
        ∷ plain 120
        ∷ close
        ∷ [])
unfolding parse_irc_formatting parse_loop iterate change_style read_arguments read_units read_second
    is_digit set_color color_fg color_bg parse_int reopen open_style make_open classes declarations
    when color_classes color_declaration transparent_declaration is_99 hex_declaration
    extended_color is_colored is_some close_all emit_char prepend is_art_like is_color_code
background_only_shown = refl

background_only_stripped : strip_irc_formatting (3 ∷ 44 ∷ 53 ∷ 120 ∷ []) ≡ 44 ∷ 53 ∷ 120 ∷ []
unfolding strip_irc_formatting is_kept is_toggle remove_codes match_arguments match_second
    read_units is_digit
background_only_stripped = refl
