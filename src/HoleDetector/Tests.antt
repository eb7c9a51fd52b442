-- ===== src/HoleDetector/Tests.antt =====
-- The hole detector on concrete eids, and its theorems at concrete inputs.
use ircfiber_site.Common.{◌≡◌, refl, none, some, [], ◌∷◌}
use ircfiber_site.HoleDetector.{
  default_hole_config, Detector, last_eid, window_step, on_eid, find_gap, in_cooldown,
  check_for_hole,
}
use ircfiber_site.HoleDetector.Cooldown.{
  eid_seen, timer_fired, fetch_times, Spaced, fetch_times-Spaced,
}

abbrev watched : Detector
watched = record {
  config = default_hole_config;
  interval = some 1;
  last_seen_eids = 3 ∷ 4 ∷ 90 ∷ [];
  last_fetch_at = 1000;
}

abbrev quiet : Detector
quiet = record watched { last_seen_eids = 3 ∷ 4 ∷ [] }

late_eid : (on_eid 7 watched).last_seen_eids ≡ 7 ∷ []
unfolding on_eid window_step last_eid
late_eid = refl

cooling_down : check_for_hole 2000 watched ≡ none
unfolding check_for_hole in_cooldown
cooling_down = refl

found_hole : check_for_hole 11_000 watched ≡ some (record { since = 4; to = 90 })
unfolding check_for_hole in_cooldown find_gap
found_hole = refl

fetch_times-Spaced_example : Spaced 10_000 1000 (
    fetch_times
      (timer_fired 11_000 ∷ eid_seen 200 ∷ timer_fired 16_000 ∷ timer_fired 21_000 ∷ [])
      watched)
fetch_times-Spaced_example =
    fetch_times-Spaced
      (timer_fired 11_000 ∷ eid_seen 200 ∷ timer_fired 16_000 ∷ timer_fired 21_000 ∷ []) watched
