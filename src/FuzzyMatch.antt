-- ===== src/FuzzyMatch.antt =====
-- frontend/src/lib/fuzzyMatch.ts: the score of a target of the quick switcher for a query. A text
-- is the list of its code units, and `lower` is `toLowerCase`.
pub mod Order
pub mod Tiers
mod Tests
use ircfiber_site.Common.{
  ℕ, suc, ◌+◌, ◌*◌, min, Bool, true, false, ◌&&◌, ◌||◌, [], ◌∷◌, ◌==◌, if◌then◌else◌, is_empty,
}
use ircfiber_site.Ignore.{Text, same_text}

-- `lowerTarget.startsWith(lowerQuery)`
unfoldable pub starts_with : Text → Text → Bool
starts_with [] t = true
starts_with (c ∷ q) [] = false
starts_with (c ∷ q) (d ∷ t) = d == c && starts_with q t

-- `lowerTarget.includes(lowerQuery)`
unfoldable pub has_substring : Text → Text → Bool
has_substring q [] = starts_with q []
has_substring q (d ∷ t) = starts_with q (d ∷ t) || has_substring q t

-- The loop over the target: the rest of the query, the score and the run of matches so far.
unfoldable pub scan : Text → Text → ℕ → ℕ → Text × ℕ
scan t [] score run = ([], score)
scan [] (c ∷ q) score run = (c ∷ q, score)
scan (d ∷ t) (c ∷ q) score run = elim (d == c) [
  | true ↦ scan t q (score + (2 + suc run * 3)) (suc run)
  | false ↦ scan t (c ∷ q) score 0
]

-- What a scan comes to, nothing when a part of the query is left.
unfoldable pub scattered_score : Text × ℕ → ℕ
scattered_score (q, score) = if is_empty q then min score 29 else 0

-- The score of two texts in lower case.
unfoldable pub score_of : Text → Text → ℕ
score_of q t =
    if same_text t q
    then 100
    else if starts_with q t
    then 60
    else if has_substring q t
    then 30
    else scattered_score (scan t q 0 0)

unfoldable pub fuzzy_match : (Text → Text) → Text → Text → ℕ
fuzzy_match lower query target = if is_empty query then 0 else score_of (lower query) (lower target)
