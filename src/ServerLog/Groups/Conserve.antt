-- ===== src/ServerLog/Groups/Conserve.antt =====
-- serverLogGroups.ts: the messages of a log beside those in the buckets of its attempts,
-- counted.
use mathlib.Core.Path.{subst}
use Prim.Native.String.{String}
use ircfiber_site.Common.{
  ℕ, ◌+◌, ◌≡◌, ◌∙◌, inl, inr, Bool, true, false, ◌&&◌, Option, none, List, [], ◌∷◌, arith,
  if◌then◌else◌, Bool-cases, Option-cases, filter,
}
use ircfiber_site.ServerLog.{ServerMessage, ServerLogKind, classify_server_log}
use ircfiber_site.ServerLog.Dedup.{dedup_phase_events}
use ircfiber_site.ServerLog.Groups.{
  ServerLogAttempt, Current, nothing, fresh, reopened, Grouping, current_of, is_start_phase,
  is_end_of_attempt, modify_current, push_current, set_end, ended_last, lifecycle_outside,
}
use ircfiber_site.ServerLog.Groups.Step.{
  start_phase, is_chatter, reopen_last, ensure_current, distribute, succeeds, set_success,
  supersede_others, index_of, succeed, finish, has_no_current, is_skip, is_lifecycle, fold_in,
  group_step, group_from, no_attempts, group_server_log,
}
use ircfiber_site.ServerLog.Groups.Count.{
  count, total, is_bucketed, Keeps, set_end-Keeps, set_success-Keeps, distribute-Keeps,
  total-supersede_others,
}
use ircfiber_site.ServerLog.Groups.Ended.{
  IsReopened, IsValid, IsCurrent, KeepsEnd, distribute-KeepsEnd, set_end-KeepsEnd,
  set_success-KeepsEnd, is_ended-supersede_others, ended_last-is_ended,
}
use ircfiber_site.ServerLog.Groups.Weigh.{
  tally_current, weight, Adds, Adds-after, Adds-then, modify_current-Adds, push_current-Adds,
  counted, new_attempt-tally, lifecycle_outside-Adds, start_phase-Adds,
}

modify_current-IsCurrent :
    (f : ServerLogAttempt → ServerLogAttempt) (g : Grouping)
    → IsCurrent g.current
    → IsCurrent (modify_current f g).current
unfolding modify_current IsCurrent
modify_current-IsCurrent f g h = ground arith

and-cases : (a b : Bool) → (a && b) ≡ true → (a ≡ true) × (b ≡ true)
and-cases a b h = ground arith

module _ (p : ServerMessage → Bool) where
  modify-Adds :
      (d : ℕ) (f : ServerLogAttempt → ServerLogAttempt) (g : Grouping)
      → Keeps f p d
      → KeepsEnd f
      → IsCurrent g.current
      → IsValid g
      → Adds p d g (modify_current f g)
  unfolding IsValid
  modify-Adds d f g = modify_current-Adds p d f g.attempts g.current g.last_attempt

  reopen_last-Adds :
      (kind : ServerLogKind) (msg : ServerMessage) (xs : List ServerLogAttempt) (last : Option ℕ)
      → Adds p 0
          (record { attempts = xs; current = nothing; last_attempt = last })
          (reopen_last kind msg (record { attempts = xs; current = nothing; last_attempt = last }))
        × IsCurrent
            (reopen_last kind msg
              (record { attempts = xs; current = nothing; last_attempt = last })).current
  unfolding reopen_last weight tally_current IsValid IsReopened IsCurrent
  reopen_last-Adds kind msg xs last =
      let g : Grouping = record { attempts = xs; current = nothing; last_attempt = last } in
      elim (Option-cases (if is_chatter kind then ended_last g else none)) [
        | inl e ↦
            rw (reopen_last, e)
              (record { weight_eq = omega (arith, new_attempt-tally p msg); valid = tt }, tt)
        | inr (i, e) ↦
            rw (reopen_last, e)
              (
                record {
                  weight_eq = omega arith;
                  valid = ended_last-is_ended g i (ground (arith, e));
                },
                tt,
              )
      ]

  ensure_current-Adds :
      (kind : ServerLogKind) (msg : ServerMessage) (xs : List ServerLogAttempt) (c : Current)
      (last : Option ℕ)
      → IsReopened c xs
      → Adds p 0
          (record { attempts = xs; current = c; last_attempt = last })
          (ensure_current kind msg (record { attempts = xs; current = c; last_attempt = last }))
        × IsCurrent
            (ensure_current kind msg
              (record { attempts = xs; current = c; last_attempt = last })).current
  unfolding ensure_current IsCurrent weight tally_current IsValid
  ensure_current-Adds kind msg xs nothing last v = reopen_last-Adds kind msg xs last
  ensure_current-Adds kind msg xs (fresh a) last v =
      (record { weight_eq = omega arith; valid = v }, tt)
  ensure_current-Adds kind msg xs (reopened i) last v =
      (record { weight_eq = omega arith; valid = v }, tt)

  supersede_others-Adds :
      (kept : Option ℕ) (xs : List ServerLogAttempt) (c : Current) (last : Option ℕ)
      → IsReopened c xs
      → Adds p 0
          (record { attempts = xs; current = c; last_attempt = last })
          (record { attempts = supersede_others kept xs; current = c; last_attempt = last })
  unfolding weight tally_current IsValid IsReopened
  supersede_others-Adds kept xs nothing last v = record {
    weight_eq = omega (arith, total-supersede_others p kept xs);
    valid = tt;
  }
  supersede_others-Adds kept xs (fresh a) last v = record {
    weight_eq = omega (arith, total-supersede_others p kept xs);
    valid = tt;
  }
  supersede_others-Adds kept xs (reopened i) last v = record {
    weight_eq = omega (arith, total-supersede_others p kept xs);
    valid = is_ended-supersede_others kept xs i ∙ v;
  }

  succeed-Adds :
      (g : Grouping)
      → IsCurrent g.current
      → IsValid g
      → Adds p 0 g (succeed g) × IsCurrent (succeed g).current
  unfolding succeed IsValid
  succeed-Adds g c v =
      let h = modify_current set_success g in
      let a = modify-Adds 0 set_success g (set_success-Keeps p) set_success-KeepsEnd c v in
      (
        Adds-after p 0 g h _ a (
            supersede_others-Adds (index_of h.current) h.attempts h.current h.last_attempt a.valid),
        modify_current-IsCurrent set_success g c,
      )

  maybe_succeed-Adds :
      (b : Bool) (g : Grouping)
      → IsCurrent g.current
      → IsValid g
      → Adds p 0 g (if b then succeed g else g) × IsCurrent (if b then succeed g else g).current
  unfolding weight tally_current
  maybe_succeed-Adds true g c v = succeed-Adds g c v
  maybe_succeed-Adds false g c v = (record { weight_eq = omega arith; valid = v }, c)

  finish-Adds :
      (msg : ServerMessage) (g : Grouping)
      → IsCurrent g.current
      → IsValid g
      → Adds p 0 g (finish msg g)
  unfolding finish
  finish-Adds msg g c v =
      let h = if succeeds msg (current_of g) then succeed g else g in
      let (a, d) = maybe_succeed-Adds (succeeds msg (current_of g)) g c v in
      let e =
        modify-Adds 0 (set_end msg) h (set_end-Keeps p msg) (set_end-KeepsEnd msg) d a.valid in
      Adds-after p 0 g h _ a (Adds-after p 0 h _ _ e (push_current-Adds p _))

  module _ (three_digits : String → Bool) (trim : String → String) where
    -- What one message adds.
    abbrev worth : ServerMessage → ℕ
    worth msg =
        if is_bucketed trim (classify_server_log three_digits msg) msg && p msg then 1 else 0

    fold_in-Adds :
        (kind : ServerLogKind) (msg : ServerMessage) (g : Grouping)
        → IsValid g
        → Adds p
            (if is_bucketed trim kind msg && p msg then 1 else 0)
            g
            (fold_in three_digits trim kind msg g)
    unfolding fold_in IsValid
    fold_in-Adds kind msg g v =
        let n = if is_bucketed trim kind msg && p msg then 1 else 0 in
        let o = ensure_current kind msg g in
        let (a, c) = ensure_current-Adds kind msg g.attempts g.current g.last_attempt v in
        let h = modify_current (distribute trim kind msg) o in
        let b =
          modify-Adds n (distribute trim kind msg) o (distribute-Keeps p trim kind msg)
            (distribute-KeepsEnd trim kind msg) c a.valid in
        let s = Adds-after p n g o h a b in
        let d = modify_current-IsCurrent (distribute trim kind msg) o c in
        elim (Bool-cases (is_end_of_attempt msg)) [
          | inl e ↦ rw (fold_in, e) (Adds-then p n g h _ s (finish-Adds msg h d s.valid))
          | inr e ↦ rw (fold_in, e) s
        ]

    skip-worth :
        (msg : ServerMessage)
        → is_skip (classify_server_log three_digits msg) ≡ true
        → worth msg ≡ 0
    unfolding is_bucketed is_skip
    skip-worth msg h = ground arith

    bucketed-worth :
        (msg : ServerMessage)
        → is_bucketed trim (classify_server_log three_digits msg) msg ≡ true
        → counted p msg ≡ worth msg
    bucketed-worth msg h = ground arith

    lifecycle-is_bucketed :
        (kind : ServerLogKind) (msg : ServerMessage)
        → is_lifecycle kind ≡ true
        → is_bucketed trim kind msg ≡ true
    unfolding is_lifecycle is_bucketed
    lifecycle-is_bucketed kind msg h = ground arith

    start-is_bucketed :
        (msg : ServerMessage) (c : Option ServerLogAttempt)
        → is_start_phase msg c ≡ true
        → is_bucketed trim (classify_server_log three_digits msg) msg ≡ true
    unfolding is_start_phase is_bucketed classify_server_log
    start-is_bucketed msg c h = ground arith

    lifecycle-Adds :
        (msg : ServerMessage) (xs : List ServerLogAttempt) (c : Current) (last : Option ℕ)
        → has_no_current (record { attempts = xs; current = c; last_attempt = last }) ≡ true
        → Adds p
            (counted p msg)
            (record { attempts = xs; current = c; last_attempt = last })
            (lifecycle_outside msg (record { attempts = xs; current = c; last_attempt = last }))
    unfolding has_no_current
    lifecycle-Adds msg xs nothing last h = lifecycle_outside-Adds p msg xs last
    lifecycle-Adds msg xs (fresh a) last h = absurd (cc h)
    lifecycle-Adds msg xs (reopened i) last h = absurd (cc h)

    group_step-Adds :
        (msg : ServerMessage) (g : Grouping)
        → IsValid g
        → Adds p (worth msg) g (group_step three_digits trim msg g)
    unfolding group_step weight
    group_step-Adds msg g v =
        let kind = classify_server_log three_digits msg in
        elim (Bool-cases (is_skip kind)) [
          | inl e ↦
              rw (group_step, e) (record { weight_eq = omega (arith, skip-worth msg e); valid = v })
          | inr e ↦ elim (Bool-cases (is_lifecycle kind && has_no_current g)) [
            | inl h ↦
                let both = and-cases (is_lifecycle kind) (has_no_current g) h in
                rw (group_step, e, h)
                  (subst (λ d. Adds p d g (lifecycle_outside msg g))
                    (bucketed-worth msg (lifecycle-is_bucketed kind msg both.0))
                    (lifecycle-Adds msg g.attempts g.current g.last_attempt both.1))
            | inr h ↦ elim (Bool-cases (is_start_phase msg (current_of g))) [
              | inl k ↦
                  rw (group_step, e, h, k)
                    (subst (λ d. Adds p d g (start_phase msg g))
                      (bucketed-worth msg (start-is_bucketed msg (current_of g) k))
                      (start_phase-Adds p msg g v))
              | inr k ↦ rw (group_step, e, h, k) (fold_in-Adds kind msg g v)
            ]
          ]
        ]

    push_current-tally : (g : Grouping) → tally_current p (push_current g).current ≡ 0
    unfolding push_current tally_current
    push_current-tally g = ground arith

    group_from-total :
        (ms : List ServerMessage) (g : Grouping)
        → IsValid g
        → total p (group_from three_digits trim ms g)
          ≡ weight p g
            + count p (filter (λ m. is_bucketed trim (classify_server_log three_digits m) m) ms)
    unfolding group_from weight count
    group_from-total [] g v = omega (arith, (push_current-Adds p g).weight_eq, push_current-tally g)
    group_from-total (msg ∷ ms) g v =
        let s = group_step-Adds msg g v in
        let rest = group_from-total ms (group_step three_digits trim msg g) s.valid in
        ground (arith, rest, s.weight_eq)

-- Of the messages that are left without duplicates, whatever their order, those of any sort stand
-- in the buckets of the attempts exactly as often as they come, but for those that are skipped, a
-- notice without words, and the echoes of the user's own mode and nick changes.
pub group_server_log-total :
    (three_digits : String → Bool) (remove : String → String → String) (trim : String → String)
    (slice : ℕ → String → String) (p : ServerMessage → Bool) (messages : List ServerMessage)
    → total p (group_server_log three_digits remove trim slice messages)
      ≡ count p (
          filter
            (λ m. is_bucketed trim (classify_server_log three_digits m) m)
            (dedup_phase_events remove trim slice messages))
unfolding group_server_log weight tally_current total IsValid IsReopened
group_server_log-total three_digits remove trim slice p messages =
    let kept = dedup_phase_events remove trim slice messages in
    omega (arith, group_from-total p three_digits trim kept no_attempts tt)
