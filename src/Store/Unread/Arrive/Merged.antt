-- ===== src/Store/Unread/Arrive/Merged.antt =====
-- ircStore.svelte.ts: the times that `setUnseen` merges into the highlights.
use mathlib.Core.Path.{subst}
use ircfiber_site.Common.{
  ℕ, ◌≤◌, ◌≡◌, refl, sym, ap, ◌∙◌, inl, inr, true, ◌||◌, List, [], ◌∷◌, ◌++◌, arith, ◌==◌, ==_iff,
  Bool-cases, length, length-append, is_empty,
}
use ircfiber_site.Store.Unread.{Unread}
use ircfiber_site.Store.Unread.Arrive.Sorted.{has_time-snoc, has_time-sort_times}
use ircfiber_site.Store.Unread.Arrive.{has_time, add_time, merge_times, set_unseen_highlights}

has_time-eq :
    (t k : ℕ) (hs : List ℕ) → (k == t) ≡ true → has_time k hs ≡ true → has_time t hs ≡ true
has_time-eq t k hs e h = subst (λ x. has_time x hs ≡ true) ((==_iff k t).0 e) h

has_time-add_time : (t k : ℕ) (hs : List ℕ) → has_time t (add_time k hs) ≡ (has_time t hs || k == t)
unfolding add_time
has_time-add_time t k hs = ground (arith, has_time-snoc t k hs, has_time-eq t k hs)

has_time-merge_times :
    (t : ℕ) (ts hs : List ℕ) → has_time t (merge_times ts hs) ≡ (has_time t hs || has_time t ts)
unfolding merge_times has_time
has_time-merge_times t [] hs = ground arith
has_time-merge_times t (k ∷ ts) hs =
    ground (arith, has_time-merge_times t ts (add_time k hs), has_time-add_time t k hs)

length-merge_times : (ts hs : List ℕ) → length hs ≤ length (merge_times ts hs)
unfolding merge_times add_time
length-merge_times [] hs = omega arith
length-merge_times (t ∷ ts) hs = ground (
  arith,
  length-merge_times ts hs,
  length-merge_times ts (hs ++ t ∷ []),
  length-append hs (t ∷ []),
)

-- When nothing is added, the merged times are the old ones.
merge_times-same :
    (ts hs : List ℕ) → length (merge_times ts hs) ≡ length hs → merge_times ts hs ≡ hs
unfolding merge_times add_time
merge_times-same [] hs e = refl
merge_times-same (t ∷ ts) hs e =
    ground (
      arith,
      merge_times-same ts hs,
      length-merge_times ts (hs ++ t ∷ []),
      length-append hs (t ∷ []),
    )

-- Without a new time the old list is kept, which is the merged one then.
kept-merge_times :
    (ts hs : List ℕ)
    → (is_empty ts || length (merge_times ts hs) == length hs) ≡ true
    → merge_times ts hs ≡ hs
unfolding merge_times
kept-merge_times [] hs h = refl
kept-merge_times (t ∷ ts) hs h =
    merge_times-same (t ∷ ts) hs
      ((==_iff (length (merge_times ts (add_time t hs))) (length hs)).0 h)

pub set_unseen_highlights-has_time :
    (t count : ℕ) (ts : List ℕ) (u : Unread)
    → has_time t (set_unseen_highlights count ts u).unseen_highlights
      ≡ (has_time t u.unseen_highlights || has_time t ts)
unfolding set_unseen_highlights
set_unseen_highlights-has_time t count ts u =
    let hs = u.unseen_highlights in
    let merged = has_time-merge_times t ts hs in
    elim (Bool-cases (is_empty ts || length (merge_times ts hs) == length hs)) [
      | inl e ↦
          rw (set_unseen_highlights, e) (ap (has_time t) (sym (kept-merge_times ts hs e)) ∙ merged)
      | inr e ↦ rw (set_unseen_highlights, e) (has_time-sort_times t (merge_times ts hs) ∙ merged)
    ]
