-- ===== src/ServerLog/Groups/Single.antt =====
-- serverLogGroups.ts: the attempts that are shown as connected, over the steps of the grouping.
use Prim.Native.String.{String}
use ircfiber_site.Common.{
  ℕ, ◌≤◌, ◌≡◌, refl, inl, inr, Bool, false, not, Option, List, [], ◌∷◌, arith, if◌then◌else◌,
  Bool-cases, Option-cases,
}
use ircfiber_site.ServerLog.{ServerMessage, ServerLogKind, classify_server_log}
use ircfiber_site.ServerLog.Dedup.{dedup_phase_events}
use ircfiber_site.ServerLog.Groups.{
  ServerLogAttempt, new_attempt, Current, nothing, fresh, reopened, Grouping, current_of, modify_at,
  modify_current, push_current, push_phase, set_disconnected, set_end, ended_last,
  lifecycle_outside,
}
use ircfiber_site.ServerLog.Groups.Step.{
  is_pending, is_success, is_discarded, adopt, supersede_ended, open_attempt, start_phase,
  reopen_last, ensure_current, distribute, succeeds, set_success, index_of, succeed, finish,
  fold_in, group_step, group_from, no_attempts, group_server_log,
}
use ircfiber_site.ServerLog.Groups.Successes.{
  successes, current_successes, all_successes, NoSuccess, push_phase-NoSuccess, set_end-NoSuccess,
  extend-NoSuccess, distribute-NoSuccess, successes-modify_at, successes-map,
  successes-supersede_none, successes-supersede_some, modify_current-all_successes,
  push_current-all_successes,
}

-- After a success there is one.
succeed-all_successes :
    (xs : List ServerLogAttempt) (c : Current) (last : Option ℕ)
    → all_successes (succeed (record { attempts = xs; current = c; last_attempt = last })) ≤ 1
unfolding succeed modify_current all_successes current_successes index_of
succeed-all_successes xs nothing last = omega (arith, successes-supersede_none xs)
succeed-all_successes xs (fresh a) last = ground (arith, successes-supersede_none xs)
succeed-all_successes xs (reopened i) last =
    omega (arith, successes-supersede_some i (modify_at i set_success xs))

modify-all_successes :
    (f : ServerLogAttempt → ServerLogAttempt) (g : Grouping)
    → NoSuccess f
    → all_successes (modify_current f g) ≤ all_successes g
unfolding all_successes
modify-all_successes f g n = modify_current-all_successes f g.attempts g.current g.last_attempt n

push-all_successes : (g : Grouping) → all_successes (push_current g) ≤ all_successes g
unfolding all_successes
push-all_successes g = push_current-all_successes g.attempts g.current g.last_attempt

lifecycle_outside-all_successes :
    (msg : ServerMessage) (g : Grouping) → all_successes (lifecycle_outside msg g) ≤ all_successes g
unfolding lifecycle_outside all_successes current_successes set_end set_disconnected push_phase
    new_attempt is_success
lifecycle_outside-all_successes msg g = elim (Option-cases (ended_last g)) [
  | inl e ↦ rw (lifecycle_outside, e) (ground arith)
  | inr (i, e) ↦
      rw (lifecycle_outside, e)
        (omega (arith, successes-modify_at i _ g.attempts (extend-NoSuccess msg)))
]

-- Replacing the current attempt by one that has not succeeded.
replace-all_successes :
    (g : Grouping) (a : ServerLogAttempt)
    → is_success a.status ≡ false
    → all_successes (record g { current = fresh a }) ≤ all_successes g
unfolding all_successes current_successes
replace-all_successes g a h = ground arith

new_attempt-is_success : (msg : ServerMessage) → is_success (new_attempt msg).status ≡ false
unfolding new_attempt is_success
new_attempt-is_success msg = refl

adopt-is_success :
    (msg : ServerMessage) (a : ServerLogAttempt) → is_success (adopt msg a).status ≡ false
unfolding adopt new_attempt is_success
adopt-is_success msg a = refl

open_attempt-all_successes :
    (msg : ServerMessage) (g : Grouping) → all_successes (open_attempt msg g) ≤ all_successes g
unfolding open_attempt
open_attempt-all_successes msg g =
    let pushed = push_current g in
    let new = replace-all_successes pushed (new_attempt msg) (new_attempt-is_success msg) in
    let left = push-all_successes g in
    elim (Option-cases (current_of g)) [
      | inl e ↦ rw (open_attempt, e) (omega (arith, new, left))
      | inr (a, e) ↦ elim (Bool-cases (is_discarded msg a)) [
        | inl h ↦
            rw (open_attempt, e, h) (replace-all_successes g (adopt msg a) (adopt-is_success msg a))
        | inr h ↦ rw (open_attempt, e, h) (omega (arith, new, left))
      ]
    ]

supersede_ended-all_successes :
    (msg : ServerMessage) (g : Grouping) → all_successes (supersede_ended msg g) ≤ all_successes g
unfolding supersede_ended all_successes
supersede_ended-all_successes msg g =
    ground (arith, successes-map (λ s. not (is_pending s)) g.attempts)

start_phase-all_successes :
    (msg : ServerMessage) (g : Grouping) → all_successes (start_phase msg g) ≤ all_successes g
unfolding start_phase
start_phase-all_successes msg g =
    let o = open_attempt msg g in
    ground (
      arith,
      modify-all_successes (push_phase msg) g (push_phase-NoSuccess msg),
      modify-all_successes (push_phase msg) (supersede_ended msg o) (push_phase-NoSuccess msg),
      supersede_ended-all_successes msg o,
      open_attempt-all_successes msg g,
    )

ensure_current-all_successes :
    (kind : ServerLogKind) (msg : ServerMessage) (g : Grouping)
    → all_successes (ensure_current kind msg g) ≤ all_successes g
unfolding ensure_current reopen_last all_successes current_successes new_attempt is_success
ensure_current-all_successes kind msg g = ground arith

succeed-at_most_one : (g : Grouping) → all_successes (succeed g) ≤ 1
succeed-at_most_one g = succeed-all_successes g.attempts g.current g.last_attempt

finish-all_successes :
    (msg : ServerMessage) (g : Grouping) → all_successes g ≤ 1 → all_successes (finish msg g) ≤ 1
unfolding finish
finish-all_successes msg g h =
    let s = if succeeds msg (current_of g) then succeed g else g in
    let one : all_successes s ≤ 1 = ground (arith, succeed-at_most_one g) in
    omega (
      arith,
      one,
      push-all_successes (modify_current (set_end msg) s),
      modify-all_successes (set_end msg) s (set_end-NoSuccess msg),
    )

module _ (three_digits : String → Bool) (trim : String → String) where
  fold_in-all_successes :
      (kind : ServerLogKind) (msg : ServerMessage) (g : Grouping)
      → all_successes g ≤ 1
      → all_successes (fold_in three_digits trim kind msg g) ≤ 1
  unfolding fold_in
  fold_in-all_successes kind msg g h =
      let o = ensure_current kind msg g in
      let d = modify_current (distribute trim kind msg) o in
      let one : all_successes d ≤ 1 = omega (
        arith,
        ensure_current-all_successes kind msg g,
        modify-all_successes (distribute trim kind msg) o (distribute-NoSuccess trim kind msg),
      ) in
      ground (arith, one, finish-all_successes msg d one)

  group_step-all_successes :
      (msg : ServerMessage) (g : Grouping)
      → all_successes g ≤ 1
      → all_successes (group_step three_digits trim msg g) ≤ 1
  unfolding group_step
  group_step-all_successes msg g h = ground (
    arith,
    lifecycle_outside-all_successes msg g,
    start_phase-all_successes msg g,
    fold_in-all_successes (classify_server_log three_digits msg) msg g h,
  )

  group_from-successes :
      (ms : List ServerMessage) (g : Grouping)
      → all_successes g ≤ 1
      → successes (group_from three_digits trim ms g) ≤ 1
  unfolding group_from all_successes
  group_from-successes [] g h = omega (arith, push-all_successes g)
  group_from-successes (msg ∷ ms) g h =
      group_from-successes ms (group_step three_digits trim msg g)
        (group_step-all_successes msg g h)

-- Whatever a server log holds, at most one of its attempts is shown as connected: a new success
-- supersedes the one before it.
pub group_server_log-successes :
    (three_digits : String → Bool) (remove : String → String → String) (trim : String → String)
    (slice : ℕ → String → String) (messages : List ServerMessage)
    → successes (group_server_log three_digits remove trim slice messages) ≤ 1
unfolding group_server_log successes all_successes current_successes
group_server_log-successes three_digits remove trim slice messages =
    group_from-successes three_digits trim (dedup_phase_events remove trim slice messages)
      no_attempts (omega arith)
