-- ===== src/FuzzyMatch/Tests.antt =====
-- The scores of a few targets, and the theorem at one of them.
use ircfiber_site.Common.{◌≤◌, ◌<◌, ◌≡◌, refl, ◌↔◌, [], ◌∷◌, map}
use ircfiber_site.Ignore.{Text, same_text}
use ircfiber_site.FuzzyMatch.{
  starts_with, has_substring, scan, scattered_score, score_of, fuzzy_match,
}
use ircfiber_site.FuzzyMatch.Order.{Begins, Occurs, InOrder}
use ircfiber_site.FuzzyMatch.Tiers.{fuzzy_match-tiers}

-- The letters of the tests are small.
abbrev lower : Text → Text
lower t = t

-- `abc`
abbrev query : Text
query = b'a' ∷ b'b' ∷ b'c' ∷ []

-- `axbcy`
abbrev scattered : Text
scattered = b'a' ∷ b'x' ∷ b'b' ∷ b'c' ∷ b'y' ∷ []

scores :
    map
      (fuzzy_match lower query)
      (query ∷ (b'a' ∷ b'b' ∷ b'c' ∷ b'd' ∷ []) ∷ (b'z' ∷ query) ∷ scattered ∷ [] ∷ [])
    ≡ 100 ∷ 60 ∷ 30 ∷ 18 ∷ 0 ∷ []
unfolding fuzzy_match score_of same_text starts_with has_substring scattered_score scan
scores = refl

fuzzy_match-tiers_example :
    ((100 ≤ fuzzy_match lower query scattered) ↔ (lower scattered ≡ lower query))
    × ((60 ≤ fuzzy_match lower query scattered) ↔ Begins (lower query) (lower scattered))
    × ((30 ≤ fuzzy_match lower query scattered) ↔ Occurs (lower query) (lower scattered))
    × ((0 < fuzzy_match lower query scattered) ↔ InOrder (lower query) (lower scattered))
fuzzy_match-tiers_example = fuzzy_match-tiers lower query scattered refl
