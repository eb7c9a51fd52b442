-- ===== src/HoleDetector/Cooldown.antt =====
-- wsHoleDetector.ts: the times of the fetches over a run of eids and timers.
use ircfiber_site.Common.{
  ℕ, ◌+◌, ◌≤◌, ◌≡◌, refl, ap, ◌∙◌, ◌⊎◌, inl, inr, Option, none, some, List, [], ◌∷◌, arith,
}
use ircfiber_site.HoleDetector.Check.{check_for_hole-Adjacent}
use ircfiber_site.HoleDetector.{
  Config, Detector, Hole, on_eid, check_for_hole, record_fetch, on_check, on_timer, on_interval,
}

-- What happens to a running detector between two resets.
pub data Event : Type 0 where
  eid_seen : ℕ → Event
  timer_fired : ℕ → Event

-- The detector after an event, with the time of the fetch that the event triggered.
pub note : ℕ → Detector × Option (ℕ × Hole) → Detector × Option ℕ
note now (d, none) = (d, none)
note now (d, some _) = (d, some now)

pub react : Event → Detector → Detector × Option ℕ
react (eid_seen eid) d = (on_eid eid d, none)
react (timer_fired now) d = note now (on_interval now d)

abbrev prepend : Option ℕ → List ℕ → List ℕ
prepend none ts = ts
prepend (some t) ts = t ∷ ts

-- The times of the fetches that a sequence of events triggers.
pub fetch_times : List Event → Detector → List ℕ
fetch_times [] d = []
fetch_times (e ∷ es) d = prepend (react e d).1 (fetch_times es (react e d).0)

-- Each time is at least `gap` after the one before it.
abbrev pub Spaced : ℕ → ℕ → List ℕ → Type 0
Spaced gap last [] = Unit {0}
Spaced gap last (t ∷ ts) = (last + gap ≤ t) × Spaced gap t ts

on_eid_unfetched :
    (eid : ℕ) (d : Detector)
    → ((on_eid eid d).config ≡ d.config) × ((on_eid eid d).last_fetch_at ≡ d.last_fetch_at)
unfolding on_eid
on_eid_unfetched eid d = ground arith

-- A round of the timer changes nothing, or fetches after the cooldown and remembers when.
abbrev Rounds : ℕ → Detector → Detector × Option (ℕ × Hole) → Type 0
Rounds now d r =
    (r ≡ (d, none))
    ⊎ ((call : ℕ × Hole) × (r ≡ (record_fetch now d, some call))
        × (d.last_fetch_at + d.config.cooldown_ms ≤ now))

on_check-Rounds :
    (network_id now : ℕ) (d : Detector) (c : Option Hole)
    → check_for_hole now d ≡ c
    → Rounds now d (on_check network_id now d c)
unfolding on_check
on_check-Rounds network_id now d none e = inl refl
on_check-Rounds network_id now d (some hole) e =
    inr ((network_id, hole), refl, (check_for_hole-Adjacent now d hole e).2)

on_timer-Rounds : (i : Option ℕ) (now : ℕ) (d : Detector) → Rounds now d (on_timer i now d)
unfolding on_timer
on_timer-Rounds none now d = inl refl
on_timer-Rounds (some network_id) now d =
    on_check-Rounds network_id now d (check_for_hole now d) refl

on_interval-Rounds : (now : ℕ) (d : Detector) → Rounds now d (on_interval now d)
unfolding on_interval
on_interval-Rounds now d = on_timer-Rounds d.interval now d

react-eid_seen : (eid : ℕ) (d : Detector) → react (eid_seen eid) d ≡ (on_eid eid d, none)
unfolding react
react-eid_seen eid d = refl

react-timer_fired :
    (now : ℕ) (d d' : Detector) (call : Option (ℕ × Hole))
    → on_interval now d ≡ (d', call)
    → react (timer_fired now) d ≡ note now (d', call)
unfolding react
react-timer_fired now d d' call e = ap (note now) e

module _ (gap : ℕ) where
  fetch_times-Spaced_from :
      (es : List Event) (d : Detector) (last : ℕ)
      → d.config.cooldown_ms ≡ gap
      → d.last_fetch_at ≡ last
      → Spaced gap last (fetch_times es d)
  unfolding fetch_times note record_fetch
  fetch_times-Spaced_from [] d last e l = tt
  fetch_times-Spaced_from (eid_seen eid ∷ es) d last e l =
      let (same, kept) = on_eid_unfetched eid d in
      rw (react-eid_seen eid d) (
        fetch_times-Spaced_from es (on_eid eid d) last (ap (λ (c : Config). c.cooldown_ms) same ∙ e)
          (kept ∙ l))
  fetch_times-Spaced_from (timer_fired now ∷ es) d last e l = elim (on_interval-Rounds now d) [
    | inl idle ↦ rw (react-timer_fired now d d none idle) (fetch_times-Spaced_from es d last e l)
    | inr (call, fetched, late) ↦
        rw (react-timer_fired now d _ (some call) fetched)
          (omega arith, fetch_times-Spaced_from es (record_fetch now d) now e refl)
  ]

-- Between two resets, whatever eids arrive and whenever the timer fires, by any clock, each fetch
-- comes at least the configured cooldown after the one before it.
pub fetch_times-Spaced :
    (es : List Event) (d : Detector)
    → Spaced d.config.cooldown_ms d.last_fetch_at (fetch_times es d)
fetch_times-Spaced es d =
    fetch_times-Spaced_from d.config.cooldown_ms es d d.last_fetch_at refl refl
