-- ===== src/HoleDetector.antt =====
-- frontend/src/lib/wsHoleDetector.ts, the class `HoleDetector`. `Date.now()` is an argument of the
-- operations that read it; event ids and times are natural numbers.
pub mod Window
pub mod Check
pub mod Cooldown
mod Tests
use ircfiber_site.Common.{
  ℕ, ◌+◌, Bool, ◌||◌, Option, none, some, List, [], ◌∷◌, ◌++◌, ltb, ◌==◌, if◌then◌else◌, length,
  drop, is_empty,
}

pub record Config : Type 0 where
  pub threshold : ℕ
  pub interval_ms : ℕ
  pub cooldown_ms : ℕ

abbrev pub default_hole_config : Config
default_hole_config = record { threshold = 25; interval_ms = 5000; cooldown_ms = 10000 }

-- A field of the constructor's partial configuration, or the default.
abbrev pub or_default : Option ℕ → ℕ → ℕ
or_default none d = d
or_default (some n) d = n

-- The eids are oldest first. `interval` holds the network of the running timer.
pub record Detector : Type 0 where
  pub config : Config
  pub interval : Option ℕ
  pub last_seen_eids : List ℕ
  pub last_fetch_at : ℕ

pub record Hole : Type 0 where
  pub since : ℕ
  pub to : ℕ

-- The constructor, with the partial configuration field by field.
unfoldable pub new_detector : Option ℕ → Option ℕ → Option ℕ → Detector
new_detector threshold interval_ms cooldown_ms = record {
  config = record {
    threshold = or_default threshold default_hole_config.threshold;
    interval_ms = or_default interval_ms default_hole_config.interval_ms;
    cooldown_ms = or_default cooldown_ms default_hole_config.cooldown_ms;
  };
  interval = none;
  last_seen_eids = [];
  last_fetch_at = 0;
}

-- `lastSeenEids[lastSeenEids.length - 1]`, 0 on the empty window, where it is not read.
unfoldable pub last_eid : List ℕ → ℕ
last_eid [] = 0
last_eid (e ∷ []) = e
last_eid (e ∷ f ∷ es) = last_eid (f ∷ es)

-- `if (this.lastSeenEids.length > 20) this.lastSeenEids.shift();`
unfoldable pub trim_window : List ℕ → List ℕ
trim_window es = if ltb 20 (length es) then drop 1 es else es

unfoldable pub window_step : ℕ → List ℕ → List ℕ
window_step eid es =
    if is_empty es || ltb (last_eid es) eid then trim_window (es ++ eid ∷ []) else eid ∷ []

unfoldable pub on_eid : ℕ → Detector → Detector
on_eid eid d =
    if eid == 0 then d else record d { last_seen_eids = window_step eid d.last_seen_eids }

-- The loop over adjacent pairs: the first gap above the threshold.
unfoldable pub find_gap : ℕ → List ℕ → Option Hole
find_gap threshold [] = none
find_gap threshold (prev ∷ []) = none
find_gap threshold (prev ∷ curr ∷ es) =
    if ltb (prev + 1 + threshold) curr
    then some (record { since = prev; to = curr })
    else find_gap threshold (curr ∷ es)

-- `Date.now() - this.lastFetchAt < this.config.cooldownMs`
unfoldable pub in_cooldown : ℕ → Detector → Bool
in_cooldown now d = ltb now (d.last_fetch_at + d.config.cooldown_ms)

unfoldable pub check_for_hole : ℕ → Detector → Option Hole
check_for_hole now d =
    if ltb (length d.last_seen_eids) 2
    then none
    else if in_cooldown now d
    then none
    else find_gap d.config.threshold d.last_seen_eids

unfoldable pub record_fetch : ℕ → Detector → Detector
record_fetch now d = record d { last_fetch_at = now }

unfoldable pub reset : Detector → Detector
reset d = record d { last_seen_eids = []; last_fetch_at = 0 }

unfoldable pub stop : Detector → Detector
stop d = record d { interval = none }

unfoldable pub start : ℕ → Detector → Detector
start network_id d = record (stop d) { interval = some network_id }

-- A round of the timer: the callback `onHole(networkId, since, to)` is the second component.
unfoldable pub on_check : ℕ → ℕ → Detector → Option Hole → Detector × Option (ℕ × Hole)
on_check network_id now d none = (d, none)
on_check network_id now d (some hole) = (record_fetch now d, some (network_id, hole))

unfoldable pub on_timer : Option ℕ → ℕ → Detector → Detector × Option (ℕ × Hole)
on_timer none now d = (d, none)
on_timer (some network_id) now d = on_check network_id now d (check_for_hole now d)

unfoldable pub on_interval : ℕ → Detector → Detector × Option (ℕ × Hole)
on_interval now d = on_timer d.interval now d
