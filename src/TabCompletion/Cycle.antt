-- ===== src/TabCompletion/Cycle.antt =====
-- tabCompletion.ts: the walk through the candidates.
use ircfiber_site.Common.{
  ℕ, zero, suc, ◌<◌, ◌≡◌, refl, sym, ap, ◌∙◌, false, Option, none, some, List, [], ◌∷◌, arith,
  length, get_elem?, is_empty,
}
use ircfiber_site.TabCompletion.{Candidate, Engine, Direction, next, previous, step_index, cycle}

step_index-lt : (d : Direction) (n : ℕ) (i : Option ℕ) → 0 < n → step_index d n i < n
unfolding step_index
step_index-lt next n none h = omega arith
step_index-lt next n (some i) h = ground arith
step_index-lt previous n none h = omega arith
step_index-lt previous n (some zero) h = omega arith
step_index-lt previous n (some (suc i)) h = ground arith

-- A step back after a step on, within the list.
step_index-back : (n i : ℕ) → i < n → step_index previous n (some (step_index next n (some i))) ≡ i
unfolding step_index
step_index-back n i h = ground arith

step_index-on : (n i : ℕ) → i < n → step_index next n (some (step_index previous n (some i))) ≡ i
unfolding step_index
step_index-on n zero h = ground arith
step_index-on n (suc i) h = ground arith

filled : (cs : List Candidate) → 0 < length cs → is_empty cs ≡ false
filled [] h = elim h [ ]
filled (c ∷ cs) h = refl

cycle-filled :
    (d : Direction) (e : Engine)
    → 0 < length e.candidates
    → cycle d e ≡ (
      get_elem? e.candidates (step_index d (length e.candidates) e.current_index),
      record e { current_index = some (step_index d (length e.candidates) e.current_index) },
    )
unfolding cycle
cycle-filled d e h = rw (filled e.candidates h) refl

-- Two steps, by their indices.
cycle-twice :
    (d b : Direction) (e : Engine) (i : ℕ)
    → 0 < length e.candidates
    → step_index b (length e.candidates) (some (step_index d (length e.candidates) e.current_index))
      ≡ i
    → cycle b (cycle d e).1 ≡ (get_elem? e.candidates i, record e { current_index = some i })
cycle-twice d b e i h s =
    ap (λ (p : Option Candidate × Engine). cycle b p.1) (cycle-filled d e h)
    ∙ cycle-filled b
        (record e { current_index = some (step_index d (length e.candidates) e.current_index) }) h
    ∙ ap (λ (j : ℕ). (get_elem? e.candidates j, record e { current_index = some j })) s

-- From a candidate that is chosen, a step on and a step back, in either order, come back to it and
-- to the state before them, at the ends of the list too.
pub cycle-cycle :
    (e : Engine) (i : ℕ)
    → e.current_index ≡ some i
    → i < length e.candidates
    → (cycle previous (cycle next e).1 ≡ (get_elem? e.candidates i, e))
      × (cycle next (cycle previous e).1 ≡ (get_elem? e.candidates i, e))
cycle-cycle e i c h =
    let filled_list : 0 < length e.candidates = omega (arith, h) in
    let n = length e.candidates in
    let same : (get_elem? e.candidates i, record e { current_index = some i })
        ≡ (get_elem? e.candidates i, e) =
      ap (λ (j : Option ℕ). (get_elem? e.candidates i, record e { current_index = j })) (sym c) in
    (
      cycle-twice next previous e i filled_list (rw c (step_index-back n i h)) ∙ same,
      cycle-twice previous next e i filled_list (rw c (step_index-on n i h)) ∙ same,
    )
