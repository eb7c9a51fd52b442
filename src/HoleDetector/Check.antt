-- ===== src/HoleDetector/Check.antt =====
-- wsHoleDetector.ts: what `checkForHole` finds.
use ircfiber_site.Common.{
  ℕ, suc, ◌+◌, ◌≤◌, ◌<◌, ◌≡◌, refl, ◌≢◌, ◌↔◌, ◌⊎◌, inl, inr, none, some, List, [], ◌∷◌, ◌++◌, arith,
  ltb, lt→ltb, Bool-cases, length, length-append,
}
use ircfiber_site.HoleDetector.{
  Detector, Hole, last_eid, trim_window, window_step, on_eid, find_gap, in_cooldown, check_for_hole,
}

-- `a` and `b` stand next to one another.
abbrev pub Adjacent : ℕ → ℕ → List ℕ → Type 0
Adjacent a b [] = ⊥
Adjacent a b (x ∷ []) = ⊥
Adjacent a b (x ∷ y ∷ es) = ((x ≡ a) × (y ≡ b)) ⊎ Adjacent a b (y ∷ es)

-- No two neighbours have more than `threshold` eids missing between them.
abbrev pub IsGapFree : ℕ → List ℕ → Type 0
IsGapFree threshold [] = Unit {0}
IsGapFree threshold (x ∷ []) = Unit {0}
IsGapFree threshold (x ∷ y ∷ es) = (y ≤ x + 1 + threshold) × IsGapFree threshold (y ∷ es)

find_gap-Adjacent :
    (threshold : ℕ) (es : List ℕ) (h : Hole)
    → find_gap threshold es ≡ some h
    → Adjacent h.since h.to es × (h.since + 1 + threshold < h.to)
unfolding find_gap
find_gap-Adjacent threshold [] h e = cc
find_gap-Adjacent threshold (x ∷ []) h e = cc
find_gap-Adjacent threshold (x ∷ y ∷ es) h e =
    ground (arith, find_gap-Adjacent threshold (y ∷ es) h)

find_gap-none_iff :
    (threshold : ℕ) (es : List ℕ) → (find_gap threshold es ≡ none) ↔ IsGapFree threshold es
unfolding find_gap
find_gap-none_iff threshold [] = ground arith
find_gap-none_iff threshold (x ∷ []) = ground arith
find_gap-none_iff threshold (x ∷ y ∷ es) = ground (arith, find_gap-none_iff threshold (y ∷ es))

-- A reported hole lies between two neighbours of the window with more than `threshold` eids
-- missing between them, and is reported only after the cooldown.
pub check_for_hole-Adjacent :
    (now : ℕ) (d : Detector) (h : Hole)
    → check_for_hole now d ≡ some h
    → Adjacent h.since h.to d.last_seen_eids
      × (h.since + 1 + d.config.threshold < h.to)
      × (d.last_fetch_at + d.config.cooldown_ms ≤ now)
unfolding check_for_hole in_cooldown
check_for_hole-Adjacent now d h e =
    ground (arith, find_gap-Adjacent d.config.threshold d.last_seen_eids h)

IsGapFree-short : (threshold : ℕ) (es : List ℕ) → length es < 2 → IsGapFree threshold es
IsGapFree-short threshold [] h = tt
IsGapFree-short threshold (x ∷ []) h = tt
IsGapFree-short threshold (x ∷ y ∷ es) h = absurd (omega arith)

-- Nothing is reported exactly when the detector is in its cooldown or the window has no gap above
-- the threshold.
pub check_for_hole-none_iff :
    (now : ℕ) (d : Detector)
    → (check_for_hole now d ≡ none) ↔ (
        (now < d.last_fetch_at + d.config.cooldown_ms)
        ⊎ IsGapFree d.config.threshold d.last_seen_eids)
unfolding check_for_hole in_cooldown
check_for_hole-none_iff now d = ground (
  arith,
  find_gap-none_iff d.config.threshold d.last_seen_eids,
  IsGapFree-short d.config.threshold d.last_seen_eids,
)

find_gap-jump :
    (threshold eid e : ℕ) (es : List ℕ)
    → last_eid (e ∷ es) + 1 + threshold < eid
    → (h : Hole) × (find_gap threshold (e ∷ (es ++ eid ∷ [])) ≡ some h)
unfolding find_gap last_eid
find_gap-jump threshold eid e [] j = (record { since = e; to = eid }, ground arith)
find_gap-jump threshold eid e (f ∷ es) j = elim (Bool-cases (ltb (e + 1 + threshold) f)) [
  | inl wide ↦ (record { since = e; to = f }, rw wide)
  | inr near ↦ rw near (find_gap-jump threshold eid f es j)
]

-- The jump stays in the window also when its oldest eid is shifted out.
trim_window-jump :
    (threshold eid e : ℕ) (es : List ℕ)
    → last_eid (e ∷ es) + 1 + threshold < eid
    → (h : Hole) × (2 ≤ length (trim_window (e ∷ (es ++ eid ∷ []))))
      × (find_gap threshold (trim_window (e ∷ (es ++ eid ∷ []))) ≡ some h)
unfolding trim_window
trim_window-jump threshold eid e [] j =
    let (h, found) = find_gap-jump threshold eid e [] j in (h, omega arith, found)
trim_window-jump threshold eid e (f ∷ es) j =
    let size = length-append es (eid ∷ []) in
    elim (Bool-cases (ltb 20 (suc (suc (length (es ++ eid ∷ [])))))) [
      | inl long ↦
          let (h, found) = find_gap-jump threshold eid f es (unfold last_eid in j) in
          rw long (h, omega arith, found)
      | inr short ↦
          let (h, found) = find_gap-jump threshold eid e (f ∷ es) j in
          rw short (h, omega arith, found)
    ]

window_step-jump :
    (threshold eid : ℕ) (es : List ℕ)
    → es ≢ []
    → last_eid es + 1 + threshold < eid
    → (h : Hole) × (2 ≤ length (window_step eid es))
      × (find_gap threshold (window_step eid es) ≡ some h)
unfolding window_step
window_step-jump threshold eid [] ne j = absurd (ne refl)
window_step-jump threshold eid (e ∷ es) ne j =
    rw (lt→ltb (last_eid (e ∷ es)) eid (omega arith)) (trim_window-jump threshold eid e es j)

-- A new eid that leaves more than `threshold` eids missing behind the newest one is a hole that
-- the next check outside the cooldown reports.
pub check_for_hole-on_eid :
    (now eid : ℕ) (d : Detector)
    → d.last_seen_eids ≢ []
    → last_eid d.last_seen_eids + 1 + d.config.threshold < eid
    → d.last_fetch_at + d.config.cooldown_ms ≤ now
    → (h : Hole) × (check_for_hole now (on_eid eid d) ≡ some h)
unfolding check_for_hole on_eid in_cooldown
check_for_hole-on_eid now eid d ne j late =
    let (h, wide, found) = window_step-jump d.config.threshold eid d.last_seen_eids ne j in
    (h, ground arith)
