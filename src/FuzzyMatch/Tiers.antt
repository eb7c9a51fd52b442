-- ===== src/FuzzyMatch/Tiers.antt =====
-- fuzzyMatch.ts: the scores by how the query occurs in the target.
use mathlib.Core.Logic.Iff.{trans}
use ircfiber_site.Common.{
  ℕ, ◌≤◌, ◌<◌, ◌≡◌, refl, sym, ap, ◌∙◌, ◌↔◌, inl, inr, true, false, [], ◌∷◌, arith, Bool-cases,
  is_empty,
}
use ircfiber_site.Ignore.{Text, same_text}
use ircfiber_site.Ignore.Refinement.{same_text-eq}
use ircfiber_site.FuzzyMatch.{
  starts_with, has_substring, scan, scattered_score, score_of, fuzzy_match,
}
use ircfiber_site.FuzzyMatch.Order.{
  Begins, Occurs, InOrder, starts_with→Begins, Begins→starts_with, has_substring→Occurs,
  Occurs→has_substring, Occurs-InOrder, scan→InOrder, InOrder→scan, scan-lt,
}

same_text_refl : (t : Text) → same_text t t ≡ true
unfolding same_text
same_text_refl [] = refl
same_text_refl (c ∷ t) = ground (arith, same_text_refl t)

pub same_text_iff : (s t : Text) → (same_text s t ≡ true) ↔ (s ≡ t)
same_text_iff s t = (same_text-eq s t, (λ e. ap (λ (x : Text). same_text x t) e ∙ same_text_refl t))

fuzzy_match-filled :
    (lower : Text → Text) (query target : Text)
    → is_empty query ≡ false
    → fuzzy_match lower query target ≡ score_of (lower query) (lower target)
unfolding fuzzy_match
fuzzy_match-filled lower query target n = ground arith

starts_with_refl : (t : Text) → starts_with t t ≡ true
unfolding starts_with
starts_with_refl [] = refl
starts_with_refl (c ∷ t) = ground (arith, starts_with_refl t)

starts_with-same : (q t : Text) → same_text t q ≡ true → starts_with q t ≡ true
starts_with-same q t h =
    ap (λ (x : Text). starts_with x t) (sym (same_text-eq t q h)) ∙ starts_with_refl t

has_substring-start : (q t : Text) → starts_with q t ≡ true → has_substring q t ≡ true
unfolding has_substring
has_substring-start q [] h = h
has_substring-start q (d ∷ t) h = ground arith

scattered_score-le : (x : Text × ℕ) → scattered_score x ≤ 29
unfolding scattered_score
scattered_score-le (q, n) = ground arith

-- A tier is reached exactly when the test of the source holds.
score_of-exact : (q t : Text) → (100 ≤ score_of q t) ↔ (same_text t q ≡ true)
unfolding score_of
score_of-exact q t = ground (arith, scattered_score-le (scan t q 0 0))

score_of-prefix : (q t : Text) → (60 ≤ score_of q t) ↔ (starts_with q t ≡ true)
unfolding score_of
score_of-prefix q t = ground (arith, scattered_score-le (scan t q 0 0), starts_with-same q t)

score_of-substring : (q t : Text) → (30 ≤ score_of q t) ↔ (has_substring q t ≡ true)
unfolding score_of
score_of-substring q t =
    ground (arith, scattered_score-le (scan t q 0 0), starts_with-same q t, has_substring-start q t)

scattered_score-scan :
    (q t : Text) → is_empty q ≡ false → (0 < scattered_score (scan t q 0 0)) ↔ InOrder q t
unfolding scattered_score
scattered_score-scan q t n = (
  (λ h. scan→InOrder t q 0 0 (ground arith)),
  (λ o. let e = InOrder→scan t q 0 0 o in ground (arith, scan-lt t q 0 0 n e)),
)

-- Where no earlier test holds, the score is that of the loop.
score_of-scan :
    (q t : Text) → has_substring q t ≡ false → score_of q t ≡ scattered_score (scan t q 0 0)
unfolding score_of
score_of-scan q t h = ground (arith, starts_with-same q t, has_substring-start q t)

excludes-filled : (q t : Text) → has_substring q t ≡ false → is_empty q ≡ false
unfolding has_substring starts_with
excludes-filled [] [] h = cc
excludes-filled [] (d ∷ t) h = cc
excludes-filled (c ∷ q) t h = refl

score_of-scattered : (q t : Text) → (0 < score_of q t) ↔ InOrder q t
score_of-scattered q t = elim (Bool-cases (has_substring q t)) [
  | inl i ↦ (
    (λ h. Occurs-InOrder q t (has_substring→Occurs q t i)),
    (λ o. let e = (score_of-substring q t).1 i in omega (arith, e)),
  )
  | inr i ↦ rw (score_of-scan q t i) (scattered_score-scan q t (excludes-filled q t i))
]

-- For a query that is not empty: the score is at least 100 exactly when both texts are the same in
-- lower case, at least 60 exactly when the target begins with the query, at least 30 exactly when
-- the query occurs in the target, and above 0 exactly when the units of the query are in the target
-- in their order.
pub fuzzy_match-tiers :
    (lower : Text → Text) (query target : Text)
    → is_empty query ≡ false
    → ((100 ≤ fuzzy_match lower query target) ↔ (lower target ≡ lower query))
      × ((60 ≤ fuzzy_match lower query target) ↔ Begins (lower query) (lower target))
      × ((30 ≤ fuzzy_match lower query target) ↔ Occurs (lower query) (lower target))
      × ((0 < fuzzy_match lower query target) ↔ InOrder (lower query) (lower target))
fuzzy_match-tiers lower query target n =
    let q = lower query in
    let t = lower target in
    rw (fuzzy_match-filled lower query target n) (
      trans (score_of-exact q t) (same_text_iff t q),
      trans (score_of-prefix q t) (starts_with→Begins q t, Begins→starts_with q t),
      trans (score_of-substring q t) (has_substring→Occurs q t, Occurs→has_substring q t),
      score_of-scattered q t,
    )
