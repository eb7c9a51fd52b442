-- ===== src/Formatting/Strip.antt =====
-- `stripIrcFormatting` of frontend/src/lib/ircFormatting.ts: its three replacements.
use ircfiber_site.Common.{
  ℕ, zero, suc, ◌+◌, Bool, true, false, not, ◌&&◌, ◌||◌, List, [], ◌∷◌, leb, ◌==◌, if◌then◌else◌,
  length, filter,
}
use ircfiber_site.Formatting.Codes.{is_digit, is_hex_digit, read_units}

-- `[\x02\x1D\x1F\x16\x11\x1E\x0F]`
unfoldable pub is_toggle : ℕ → Bool
is_toggle c = c == 2 || c == 29 || c == 31 || c == 22 || c == 17 || c == 30 || c == 15

unfoldable pub is_kept : ℕ → Bool
is_kept c = not (is_toggle c)

-- How many units `(,D{lo,hi})?` matches, where `D` is the class `p`.
unfoldable pub match_second : (ℕ → Bool) → ℕ → ℕ → List ℕ → ℕ
match_second p lo hi [] = 0
match_second p lo hi (c ∷ cs) =
    let n = length (read_units p hi cs).0 in if c == 44 && leb lo n then suc n else 0

-- How many units `(D{lo,hi}(,D{lo,hi})?)?` matches.
unfoldable pub match_arguments : (ℕ → Bool) → ℕ → ℕ → List ℕ → ℕ
match_arguments p lo hi cs =
    let r = read_units p hi cs in
    if leb lo (length r.0) then length r.0 + match_second p lo hi r.1 else 0

-- The text without the matches of a code and its arguments; `skip` units of one are left to skip.
unfoldable pub remove_codes : ℕ → (ℕ → Bool) → ℕ → ℕ → ℕ → List ℕ → List ℕ
remove_codes code p lo hi skip [] = []
remove_codes code p lo hi (suc skip) (c ∷ cs) = remove_codes code p lo hi skip cs
remove_codes code p lo hi zero (c ∷ cs) = elim (c == code) [
  | true ↦ remove_codes code p lo hi (match_arguments p lo hi cs) cs
  | false ↦ c ∷ remove_codes code p lo hi 0 cs
]

-- `.replace(/\x03(\d{1,2}(,\d{1,2})?)?/g, '')`
abbrev pub remove_colors : List ℕ → List ℕ
remove_colors = remove_codes 3 is_digit 1 2 0

-- `.replace(/\x04([0-9a-fA-F]{6}(,[0-9a-fA-F]{6})?)?/g, '')`
abbrev pub remove_hex_colors : List ℕ → List ℕ
remove_hex_colors = remove_codes 4 is_hex_digit 6 6 0

unfoldable pub strip_irc_formatting : List ℕ → List ℕ
strip_irc_formatting text = remove_hex_colors (remove_colors (filter is_kept text))
