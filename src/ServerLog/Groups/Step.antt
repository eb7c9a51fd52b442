-- ===== src/ServerLog/Groups/Step.antt =====
-- `groupServerLog` of frontend/src/lib/serverLogGroups.ts: one message, and the loop.
use Prim.Native.String.{String, ◌++◌ as str_append}
use text.Mathlib.Text.{◌==◌ as str_eq}
use ircfiber_site.Common.{
  ℕ, zero, suc, ◌+◌, Bool, true, false, not, ◌&&◌, ◌||◌, Option, none, some, List, [], ◌∷◌, ◌++◌,
  map, leb, if◌then◌else◌, is_empty,
}
use ircfiber_site.ServerLog.{
  ServerMessage, ServerLogKind, phased, motd, welcome, cap_kind, numeric, notice, lifecycle,
  self_kind, skip, among, is_set, classify_server_log,
}
use ircfiber_site.ServerLog.Dedup.{dedup_phase_events}
use ircfiber_site.ServerLog.Groups.{
  Status, pending, success, error, superseded, ServerLogAttempt, new_attempt, Current, nothing,
  fresh, reopened, Grouping, start_phases, pre_attempt_chatter_ms, current_of, is_start_phase,
  last_message_t, is_end_of_attempt, modify_current, push_current, push_phase, set_disconnected,
  set_end, is_ended, ended_last, lifecycle_outside,
}

unfoldable pub is_pending : Status → Bool
is_pending pending = true
is_pending _ = false

unfoldable pub is_success : Status → Bool
is_success success = true
is_success _ = false

-- The attempt that a start phase joins: one in flight, whose phases have begun.
unfoldable pub joins : ServerMessage → Option ServerLogAttempt → Bool
joins msg none = false
joins msg (some a) =
    not (is_ended (some a))
    && is_pending a.status
    && not (is_empty a.phases)
    && not (str_eq msg.phase "connecting")

-- Whether `current` is discarded for the attempt that `msg` starts.
unfoldable pub is_discarded : ServerMessage → ServerLogAttempt → Bool
is_discarded msg a =
    is_empty a.phases
    && not (is_ended (some a))
    && leb msg.t (last_message_t a + pre_attempt_chatter_ms)

-- The new attempt with the chatter of the one that it replaces.
unfoldable pub adopt : ServerMessage → ServerLogAttempt → ServerLogAttempt
adopt msg discarded = record (new_attempt msg) {
  welcome = discarded.welcome;
  motd = discarded.motd;
  cap = discarded.cap;
  numeric = discarded.numeric;
  notices = discarded.notices;
}

unfoldable pub supersede : (Status → Bool) → ServerLogAttempt → ServerLogAttempt
supersede p a = if p a.status then record a { status = superseded } else a

-- `if (START_PHASES.has(msg.phase))`: every attempt that is not pending is superseded.
unfoldable pub supersede_ended : ServerMessage → Grouping → Grouping
supersede_ended msg g =
    if among msg.phase start_phases
    then record g { attempts = map (supersede (λ s. not (is_pending s))) g.attempts }
    else g

-- `pushCurrent` or the discarding, and the new attempt.
unfoldable pub open_attempt : ServerMessage → Grouping → Grouping
open_attempt msg g = elim (current_of g) [
  | none ↦ record (push_current g) { current = fresh (new_attempt msg) }
  | some a ↦
      if is_discarded msg a
      then record g { current = fresh (adopt msg a) }
      else record (push_current g) { current = fresh (new_attempt msg) }
]

-- A start phase.
unfoldable pub start_phase : ServerMessage → Grouping → Grouping
start_phase msg g =
    if joins msg (current_of g)
    then modify_current (push_phase msg) g
    else modify_current (push_phase msg) (supersede_ended msg (open_attempt msg g))

-- The kinds that go to the attempt before when none is current.
unfoldable pub is_chatter : ServerLogKind → Bool
is_chatter phased = false
is_chatter lifecycle = false
is_chatter skip = false
is_chatter _ = true

unfoldable pub reopen_last : ServerLogKind → ServerMessage → Grouping → Grouping
reopen_last kind msg g = elim (if is_chatter kind then ended_last g else none) [
  | none ↦ record g { current = fresh (new_attempt msg) }
  | some i ↦ record g { current = reopened i; last_attempt = none }
]

-- There is a current attempt afterwards: the last one again, or a new one.
unfoldable pub ensure_current : ServerLogKind → ServerMessage → Grouping → Grouping
ensure_current kind msg g = elim g.current [
  | nothing ↦ reopen_last kind msg g
  | fresh _ ↦ g
  | reopened _ ↦ g
]

-- `list.join(' ')`
unfoldable pub join : List String → String
join [] = ""
join (x ∷ []) = x
join (x ∷ y ∷ xs) = let rest = join (y ∷ xs) in str_append x (str_append " " rest)

module _ (trim : String → String) where
  unfoldable pub is_worded : ServerMessage → Bool
  is_worded msg = is_set msg.text && (is_set (trim msg.text) || is_set (trim (join msg.params)))

  -- The `switch`.
  unfoldable pub distribute : ServerLogKind → ServerMessage → ServerLogAttempt → ServerLogAttempt
  distribute phased msg a =
      if str_eq msg.phase "error"
      then record (push_phase msg a) { status = error }
      else push_phase msg a
  distribute motd msg a = record a { motd = a.motd ++ msg ∷ [] }
  distribute welcome msg a = record a { welcome = a.welcome ++ msg ∷ [] }
  distribute cap_kind msg a = record a { cap = a.cap ++ msg ∷ [] }
  distribute numeric msg a = record a { numeric = a.numeric ++ msg ∷ [] }
  distribute notice msg a =
      if is_worded msg then record a { notices = a.notices ++ msg ∷ [] } else a
  distribute lifecycle msg a = set_disconnected msg (push_phase msg a)
  distribute self_kind msg a = a
  distribute skip msg a = a

-- `msg.phase === 'welcome' && current.status === 'pending'`
unfoldable pub succeeds : ServerMessage → Option ServerLogAttempt → Bool
succeeds msg none = false
succeeds msg (some a) = str_eq msg.phase "welcome" && is_pending a.status

unfoldable pub set_success : ServerLogAttempt → ServerLogAttempt
set_success a = record a { status = success }

-- The loop that supersedes every other attempt that had succeeded, but for the one at an index.
unfoldable pub supersede_others : Option ℕ → List ServerLogAttempt → List ServerLogAttempt
supersede_others kept [] = []
supersede_others none (a ∷ more) = supersede is_success a ∷ supersede_others none more
supersede_others (some zero) (a ∷ more) = a ∷ supersede_others none more
supersede_others (some (suc i)) (a ∷ more) = supersede is_success a ∷ supersede_others (some i) more

unfoldable pub index_of : Current → Option ℕ
index_of (reopened i) = some i
index_of _ = none

unfoldable pub succeed : Grouping → Grouping
succeed g =
    let h = modify_current set_success g in
    record h { attempts = supersede_others (index_of h.current) h.attempts }

-- What the end of an attempt does.
unfoldable pub finish : ServerMessage → Grouping → Grouping
finish msg g =
    push_current
      (modify_current (set_end msg) (if succeeds msg (current_of g) then succeed g else g))

unfoldable pub has_no_current : Grouping → Bool
has_no_current g = elim g.current [ nothing ↦ true | fresh _ ↦ false | reopened _ ↦ false ]

unfoldable pub is_skip : ServerLogKind → Bool
is_skip skip = true
is_skip _ = false

unfoldable pub is_lifecycle : ServerLogKind → Bool
is_lifecycle lifecycle = true
is_lifecycle _ = false

module _ (three_digits : String → Bool) (trim : String → String) where
  -- A message that is neither skipped nor one of the first two cases.
  unfoldable pub fold_in : ServerLogKind → ServerMessage → Grouping → Grouping
  fold_in kind msg g =
      let h = modify_current (distribute trim kind msg) (ensure_current kind msg g) in
      if is_end_of_attempt msg then finish msg h else h

  -- One iteration.
  unfoldable pub group_step : ServerMessage → Grouping → Grouping
  group_step msg g =
      let kind = classify_server_log three_digits msg in
      if is_skip kind
      then g
      else if is_lifecycle kind && has_no_current g
      then lifecycle_outside msg g
      else if is_start_phase msg (current_of g)
      then start_phase msg g
      else fold_in kind msg g

  unfoldable pub group_from : List ServerMessage → Grouping → List ServerLogAttempt
  group_from [] g = (push_current g).attempts
  group_from (msg ∷ ms) g = group_from ms (group_step msg g)

abbrev pub no_attempts : Grouping
no_attempts = record { attempts = []; current = nothing; last_attempt = none }

module _ (three_digits : String → Bool) (remove : String → String → String) (trim : String → String)
    (slice : ℕ → String → String) where
  unfoldable pub group_server_log : List ServerMessage → List ServerLogAttempt
  group_server_log messages =
      group_from three_digits trim (dedup_phase_events remove trim slice messages) no_attempts
