-- ===== src/ServerLog/Groups/Weigh.antt =====
-- serverLogGroups.ts: what the steps of the grouping add to the messages that it holds.
use ircfiber_site.Common.{
  ℕ, ◌+◌, ◌≡◌, refl, sym, ap, ◌∙◌, inl, inr, Bool, true, false, not, Option, some, List, [], ◌∷◌,
  arith, if◌then◌else◌, Bool-cases, Option-cases, get_elem?,
}
use ircfiber_site.ServerLog.{ServerMessage, among}
use ircfiber_site.ServerLog.Dedup.{is_disconnect}
use ircfiber_site.ServerLog.Groups.Step.{
  is_pending, joins, is_discarded, adopt, supersede_ended, open_attempt, start_phase,
}
use ircfiber_site.ServerLog.Groups.{
  ServerLogAttempt, new_attempt, Current, nothing, fresh, reopened, Grouping, start_phases,
  current_of, modify_current, push_current, push_phase, set_disconnected, set_end, is_ended,
  ended_last, lifecycle_outside,
}
use ircfiber_site.ServerLog.Groups.Ended.{
  IsReopened, IsValid, IsCurrent, is_ended-lt, KeepsEnd, push_phase-KeepsEnd, is_ended-modify_at,
  ended_last-is_ended, IsUnlisted,
}
use ircfiber_site.ServerLog.Groups.Count.{
  count, tally, total, Keeps, push_phase-Keeps, set_disconnected-Keeps, set_end-Keeps, total-append,
  total-modify_at, total-map-supersede,
}

-- The messages of the current attempt, when it is not in the list.
unfoldable pub tally_current : (ServerMessage → Bool) → Current → ℕ
tally_current p (fresh a) = tally p a
tally_current p _ = 0

unfoldable pub weight : (ServerMessage → Bool) → Grouping → ℕ
weight p g = total p g.attempts + tally_current p g.current

module _ (p : ServerMessage → Bool) where
  -- A step that adds `d` messages to what is counted, and leaves the grouping valid.
  pub record Adds (d : ℕ) (g h : Grouping) : Type 0 where
    pub weight_eq : weight p h ≡ weight p g + d
    pub valid : IsValid h

  pub Adds-after : (d : ℕ) (g h k : Grouping) → Adds 0 g h → Adds d h k → Adds d g k
  Adds-after d g h k s t = record {
    weight_eq = omega (arith, s.weight_eq, t.weight_eq);
    valid = t.valid;
  }

  pub Adds-then : (d : ℕ) (g h k : Grouping) → Adds d g h → Adds 0 h k → Adds d g k
  Adds-then d g h k s t = record {
    weight_eq = omega (arith, s.weight_eq, t.weight_eq);
    valid = t.valid;
  }

  pub modify_current-Adds :
      (d : ℕ) (f : ServerLogAttempt → ServerLogAttempt) (xs : List ServerLogAttempt) (c : Current)
      (last : Option ℕ)
      → Keeps f p d
      → KeepsEnd f
      → IsCurrent c
      → IsReopened c xs
      → Adds d
          (record { attempts = xs; current = c; last_attempt = last })
          (modify_current f (record { attempts = xs; current = c; last_attempt = last }))
  unfolding modify_current weight tally_current IsValid IsReopened IsCurrent Keeps
  modify_current-Adds d f xs nothing last k e c v = absurd c
  modify_current-Adds d f xs (fresh a) last k e c v = record {
    weight_eq = omega (arith, k a);
    valid = tt;
  }
  modify_current-Adds d f xs (reopened i) last k e c v = record {
    weight_eq = omega (arith, total-modify_at p i d f xs k (is_ended-lt xs i v));
    valid = is_ended-modify_at i f xs e v;
  }

  push-Adds :
      (xs : List ServerLogAttempt) (c : Current) (last : Option ℕ)
      → Adds 0
          (record { attempts = xs; current = c; last_attempt = last })
          (push_current (record { attempts = xs; current = c; last_attempt = last }))
  unfolding push_current weight tally_current IsValid IsReopened total
  push-Adds xs nothing last = record { weight_eq = omega arith; valid = tt }
  push-Adds xs (fresh a) last = record {
    weight_eq = omega (arith, total-append p xs (a ∷ []));
    valid = tt;
  }
  push-Adds xs (reopened i) last = record { weight_eq = omega arith; valid = tt }

  pub push_current-Adds : (g : Grouping) → Adds 0 g (push_current g)
  push_current-Adds g = push-Adds g.attempts g.current g.last_attempt

  abbrev pub counted : ServerMessage → ℕ
  counted msg = if p msg then 1 else 0

  extend-Keeps :
      (msg : ServerMessage)
      → Keeps (λ a. set_end msg (set_disconnected msg (push_phase msg a))) p (counted msg)
  unfolding Keeps
  extend-Keeps msg a = omega (
    arith,
    push_phase-Keeps p msg a,
    set_disconnected-Keeps p msg (push_phase msg a),
    set_end-Keeps p msg (set_disconnected msg (push_phase msg a)),
  )

  pub new_attempt-tally : (msg : ServerMessage) → tally p (new_attempt msg) ≡ 0
  unfolding tally new_attempt count
  new_attempt-tally msg = refl

  lifecycle_new-tally :
      (msg : ServerMessage) (b : Bool)
      → tally p (
          if b
          then set_end msg (set_disconnected msg (push_phase msg (new_attempt msg)))
          else set_disconnected msg (push_phase msg (new_attempt msg)))
        ≡ counted msg
  unfolding Keeps
  lifecycle_new-tally msg b = ground (
    arith,
    new_attempt-tally msg,
    push_phase-Keeps p msg (new_attempt msg),
    set_disconnected-Keeps p msg (push_phase msg (new_attempt msg)),
    set_end-Keeps p msg (set_disconnected msg (push_phase msg (new_attempt msg))),
  )

  pub lifecycle_outside-Adds :
      (msg : ServerMessage) (xs : List ServerLogAttempt) (last : Option ℕ)
      → Adds
          (counted msg)
          (record { attempts = xs; current = nothing; last_attempt = last })
          (lifecycle_outside msg (record { attempts = xs; current = nothing; last_attempt = last }))
  unfolding lifecycle_outside weight tally_current IsValid IsReopened
  lifecycle_outside-Adds msg xs last =
      let g : Grouping = record { attempts = xs; current = nothing; last_attempt = last } in
      elim (Option-cases (ended_last g)) [
        | inl e ↦
            rw (lifecycle_outside, e)
              (record {
                weight_eq = omega (arith, lifecycle_new-tally msg (is_disconnect msg.command));
                valid = tt;
              })
        | inr (i, e) ↦
            let lt = is_ended-lt xs i (ended_last-is_ended g i e) in
            rw (lifecycle_outside, e)
              (record {
                weight_eq =
                    omega (arith, total-modify_at p i (counted msg) _ xs (extend-Keeps msg) lt);
                valid = tt;
              })
      ]

  adopt-tally :
      (msg : ServerMessage) (a : ServerLogAttempt)
      → is_discarded msg a ≡ true
      → tally p (adopt msg a) ≡ tally p a
  unfolding adopt tally new_attempt is_discarded count
  adopt-tally msg a h = ground arith

  -- An attempt that has ended is not discarded.
  is_discarded-ended :
      (msg : ServerMessage) (a : ServerLogAttempt)
      → is_ended (some a) ≡ true
      → is_discarded msg a ≡ false
  unfolding is_discarded
  is_discarded-ended msg a h = ground arith

  open_attempt-Adds :
      (msg : ServerMessage) (xs : List ServerLogAttempt) (c : Current) (last : Option ℕ)
      → IsReopened c xs
      → Adds 0
          (record { attempts = xs; current = c; last_attempt = last })
          (open_attempt msg (record { attempts = xs; current = c; last_attempt = last }))
        × IsUnlisted
            (open_attempt msg (record { attempts = xs; current = c; last_attempt = last })).current
  unfolding open_attempt current_of weight tally_current IsValid IsReopened IsUnlisted push_current
      total
  open_attempt-Adds msg xs nothing last v =
      (record { weight_eq = omega (arith, new_attempt-tally msg); valid = tt }, tt)
  open_attempt-Adds msg xs (fresh a) last v = elim (Bool-cases (is_discarded msg a)) [
    | inl e ↦
        rw (open_attempt, e)
          (record { weight_eq = omega (arith, adopt-tally msg a e); valid = tt }, tt)
    | inr e ↦
        rw (open_attempt, e)
          (
            record {
              weight_eq = omega (arith, total-append p xs (a ∷ []), new_attempt-tally msg);
              valid = tt;
            },
            tt,
          )
  ]
  open_attempt-Adds msg xs (reopened i) last v = elim (Option-cases (get_elem? xs i)) [
    | inl e ↦
        rw (open_attempt, e)
          (record { weight_eq = omega (arith, new_attempt-tally msg); valid = tt }, tt)
    | inr (a, e) ↦
        let kept = is_discarded-ended msg a (ap is_ended (sym e) ∙ v) in
        rw (open_attempt, e, kept)
          (record { weight_eq = omega (arith, new_attempt-tally msg); valid = tt }, tt)
  ]

  supersede_ended-Adds :
      (msg : ServerMessage) (xs : List ServerLogAttempt) (c : Current) (last : Option ℕ)
      → IsUnlisted c
      → Adds 0
          (record { attempts = xs; current = c; last_attempt = last })
          (supersede_ended msg (record { attempts = xs; current = c; last_attempt = last }))
        × IsUnlisted
            (supersede_ended msg
              (record { attempts = xs; current = c; last_attempt = last })).current
  unfolding supersede_ended weight tally_current IsValid IsReopened IsUnlisted
  supersede_ended-Adds msg xs nothing last u = absurd u
  supersede_ended-Adds msg xs (reopened i) last u = absurd u
  supersede_ended-Adds msg xs (fresh a) last u = elim (Bool-cases (among msg.phase start_phases)) [
    | inl e ↦
        rw (supersede_ended, e)
          (
            record {
              weight_eq = omega (arith, total-map-supersede p (λ s. not (is_pending s)) xs);
              valid = tt;
            },
            tt,
          )
    | inr e ↦ rw (supersede_ended, e) (record { weight_eq = omega arith; valid = tt }, tt)
  ]

  IsUnlisted-IsCurrent : (c : Current) → IsUnlisted c → IsCurrent c
  unfolding IsUnlisted IsCurrent
  IsUnlisted-IsCurrent nothing u = u
  IsUnlisted-IsCurrent (fresh a) u = tt
  IsUnlisted-IsCurrent (reopened i) u = tt

  IsUnlisted-IsReopened :
      (c : Current) (xs : List ServerLogAttempt) → IsUnlisted c → IsReopened c xs
  unfolding IsUnlisted IsReopened
  IsUnlisted-IsReopened nothing xs u = tt
  IsUnlisted-IsReopened (fresh a) xs u = tt
  IsUnlisted-IsReopened (reopened i) xs u = absurd u

  joins-IsCurrent :
      (msg : ServerMessage) (g : Grouping) → joins msg (current_of g) ≡ true → IsCurrent g.current
  unfolding joins current_of IsCurrent
  joins-IsCurrent msg g h = ground arith

  pub start_phase-Adds :
      (msg : ServerMessage) (g : Grouping) → IsValid g → Adds (counted msg) g (start_phase msg g)
  unfolding start_phase IsValid
  start_phase-Adds msg g v = elim (Bool-cases (joins msg (current_of g))) [
    | inl e ↦
        rw (start_phase, e)
          (modify_current-Adds (counted msg) (push_phase msg) g.attempts g.current g.last_attempt
            (push_phase-Keeps p msg) (push_phase-KeepsEnd msg) (joins-IsCurrent msg g e) v)
    | inr e ↦
        let o = open_attempt msg g in
        let (a, u) = open_attempt-Adds msg g.attempts g.current g.last_attempt v in
        let s = supersede_ended msg o in
        let (b, w) = supersede_ended-Adds msg o.attempts o.current o.last_attempt u in
        rw (start_phase, e)
          (Adds-after (counted msg) g o _ a (
            Adds-after (counted msg) o s _ b (
              modify_current-Adds (counted msg) (push_phase msg) s.attempts s.current s.last_attempt
                (push_phase-Keeps p msg) (push_phase-KeepsEnd msg)
                (IsUnlisted-IsCurrent s.current w) (IsUnlisted-IsReopened s.current s.attempts w))))
  ]
