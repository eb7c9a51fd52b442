-- ===== src/Formatting/Palette.antt =====
-- The colour tables of frontend/src/lib/ircFormatting.ts and `colorHex`.
use Prim.Native.String.{String}
use ircfiber_site.Common.{
  ℕ, ◌-◌, ◌≤◌, ◌≡◌, ◌↔◌, inl, inr, Option, none, some, List, [], ◌∷◌, arith, leb, if◌then◌else◌,
  leb→le, le→leb, leb→lt, Bool-cases, get_elem?, get_elem?-some, get_elem?-lt,
}

-- The hex colours of the codes 16 to 98.
abbrev pub extended_colors : List String
extended_colors =
    "#470000" ∷ "#472100" ∷ "#474700" ∷ "#324700" ∷ "#004700" ∷ "#00472c" ∷ "#004747" ∷ "#002747"
    ∷ "#000047" ∷ "#2e0047" ∷ "#470047" ∷ "#47002a" ∷ "#740000" ∷ "#743a00" ∷ "#747400" ∷ "#517400"
    ∷ "#007400" ∷ "#007449" ∷ "#007474" ∷ "#004074" ∷ "#000074" ∷ "#4b0074" ∷ "#740074" ∷ "#740045"
    ∷ "#b50000" ∷ "#b56300" ∷ "#b5b500" ∷ "#7db500" ∷ "#00b500" ∷ "#00b571" ∷ "#00b5b5" ∷ "#0063b5"
    ∷ "#0000b5" ∷ "#7500b5" ∷ "#b500b5" ∷ "#b5006b" ∷ "#ff0000" ∷ "#ff8c00" ∷ "#ffff00" ∷ "#b2ff00"
    ∷ "#00ff00" ∷ "#00ffa0" ∷ "#00ffff" ∷ "#008cff" ∷ "#0000ff" ∷ "#a500ff" ∷ "#ff00ff" ∷ "#ff0098"
    ∷ "#ff5959" ∷ "#ffb459" ∷ "#ffff71" ∷ "#cfff60" ∷ "#6fff6f" ∷ "#65ffc9" ∷ "#6dffff" ∷ "#59b4ff"
    ∷ "#5959ff" ∷ "#c459ff" ∷ "#ff66ff" ∷ "#ff59bc" ∷ "#ff9c9c" ∷ "#ffd39c" ∷ "#ffff9c" ∷ "#e2ff9c"
    ∷ "#9cff9c" ∷ "#9cffdb" ∷ "#9cffff" ∷ "#9cd3ff" ∷ "#9c9cff" ∷ "#dc9cff" ∷ "#ff9cff" ∷ "#ff94d3"
    ∷ "#000000" ∷ "#131313" ∷ "#282828" ∷ "#363636" ∷ "#4d4d4d" ∷ "#656565" ∷ "#818181" ∷ "#9f9f9f"
    ∷ "#bcbcbc" ∷ "#e2e2e2" ∷ "#ffffff" ∷ []

-- The colour names of the codes 0 to 15.
abbrev pub color_names : List String
color_names =
    "white" ∷ "black" ∷ "navy" ∷ "green" ∷ "red" ∷ "maroon" ∷ "purple" ∷ "orange" ∷ "yellow"
    ∷ "lime" ∷ "teal" ∷ "cyan" ∷ "blue" ∷ "magenta" ∷ "grey" ∷ "silver" ∷ []

-- `IRC_COLORS`, whose entry at `code` has that code: its hex colours.
abbrev pub irc_colors : List String
irc_colors =
    "#ffffff" ∷ "#000000" ∷ "#00007f" ∷ "#009300" ∷ "#ff0000" ∷ "#7f0000" ∷ "#9c009c" ∷ "#fc7f00"
    ∷ "#ffff00" ∷ "#00fc00" ∷ "#009393" ∷ "#00ffff" ∷ "#0000fc" ∷ "#ff00ff" ∷ "#7f7f7f" ∷ "#d2d2d2"
    ∷ []

-- `EXTENDED_COLORS[code] ?? null`
unfoldable pub extended_color : ℕ → Option String
extended_color code = if leb 16 code then get_elem? extended_colors (code - 16) else none

-- On a code that is not negative.
unfoldable pub color_hex : ℕ → Option String
color_hex code = if leb code 15 then get_elem? irc_colors code else extended_color code

extended_color-some :
    (code : ℕ) → 16 ≤ code → code ≤ 98 → (hex : String) × (extended_color code ≡ some hex)
unfolding extended_color
extended_color-some code low high =
    let (hex, e) = get_elem?-some extended_colors (code - 16) (omega arith) in
    (hex, rw (le→leb 16 code low) e)

color_hex-some : (code : ℕ) → code ≤ 98 → (hex : String) × (color_hex code ≡ some hex)
unfolding color_hex
color_hex-some code h = elim (Bool-cases (leb code 15)) [
  | inl e ↦
      let (hex, g) = get_elem?-some irc_colors code (ground (arith, leb→le code 15 e)) in
      (hex, rw e g)
  | inr e ↦
      let low : 16 ≤ code = omega (arith, leb→lt code 15 e) in
      let (hex, g) = extended_color-some code low h in (hex, rw e g)
]

color_hex-lt : (code : ℕ) {hex : String} → color_hex code ≡ some hex → code ≤ 98
unfolding color_hex extended_color
color_hex-lt code h =
    ground (arith, get_elem?-lt irc_colors code, get_elem?-lt extended_colors (code - 16))

-- A colour code has a hex colour exactly when it is at most 98.
pub color_hex-some_iff : (code : ℕ) → ((hex : String) × (color_hex code ≡ some hex)) ↔ (code ≤ 98)
color_hex-some_iff code = (λ u. color_hex-lt code u.1, color_hex-some code)
