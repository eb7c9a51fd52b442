-- ===== src/Ignore/Tests.antt =====
-- An ignore list parsed and asked, and the theorems at it.
use ircfiber_site.Common.{
  ℕ, ◌≡◌, refl, ◌↔◌, Bool, true, false, not, ◌&&◌, List, [], ◌∷◌, map, ◌==◌, is_empty,
}
use ircfiber_site.Ignore.{
  Text, same_text, includes_unit, prepend_unit, split_at, strip_tilde, before_at, without_at,
  split_pattern, add_nick, add_user, add_entry, is_line_break, match_star, any, entry_of, parse,
  token_of, tokens, match_unit, matches, check_wildcard, collect_exact, collect_any,
  collect_wildcard, collect_maps, check_nicks, check_users, check, upgrade_legacy_pattern,
  parse_ignore_list,
}
use ircfiber_site.Ignore.Refinement.{entry_matches, check-parse_ignore_list}
use ircfiber_site.Ignore.Wildcard.{Stands, matches-Stands_iff}

abbrev lower : Text → Text
lower t = t

abbrev same_letter : ℕ → ℕ → Bool
same_letter c d = c == d

-- `bob`, and `*!*@*.net`
abbrev patterns : List Text
patterns =
    (b'b' ∷ b'o' ∷ b'b' ∷ [])
    ∷ (b'*' ∷ b'!' ∷ b'*' ∷ b'@' ∷ b'*' ∷ b'.' ∷ b'n' ∷ b'e' ∷ b't' ∷ [])
    ∷ []

-- `~u@a.net`
abbrev mask : Text
mask = b'~' ∷ b'u' ∷ b'@' ∷ b'a' ∷ b'.' ∷ b'n' ∷ b'e' ∷ b't' ∷ []

abbrev amy : Text
amy = b'a' ∷ b'm' ∷ b'y' ∷ []

host_ignored : check lower same_letter (parse_ignore_list lower patterns) amy mask ≡ true
unfolding check parse_ignore_list parse entry_of split_pattern before_at without_at split_at
    prepend_unit strip_tilde upgrade_legacy_pattern includes_unit add_entry add_user add_nick
    same_text tokens token_of any check_users check_nicks collect_maps collect_exact
    collect_wildcard collect_any check_wildcard matches match_star match_unit is_line_break
host_ignored = refl

other_host : check lower same_letter (parse_ignore_list lower patterns) amy [] ≡ false
unfolding check parse_ignore_list parse entry_of split_pattern before_at without_at split_at
    prepend_unit strip_tilde upgrade_legacy_pattern includes_unit add_entry add_user add_nick
    same_text tokens token_of any check_users check_nicks collect_maps collect_exact
    collect_wildcard collect_any check_wildcard matches match_star match_unit is_line_break
other_host = refl

check-parse_ignore_list_example :
    check lower same_letter (parse_ignore_list lower patterns) amy mask ≡ (
      not (is_empty amy)
      && any
          (entry_matches same_letter (tokens lower mask).1 (tokens lower mask).0 amy)
          (map (entry_of lower) (map upgrade_legacy_pattern patterns)))
check-parse_ignore_list_example = check-parse_ignore_list same_letter lower patterns amy mask

matches-Stands_iff_example :
    (matches same_letter (b'*' ∷ b'y' ∷ []) amy ≡ true) ↔ Stands same_letter (b'*' ∷ b'y' ∷ []) amy
matches-Stands_iff_example = matches-Stands_iff same_letter (b'*' ∷ b'y' ∷ []) amy
