-- ===== src/ServerLog/Groups.antt =====
-- `groupServerLog` of frontend/src/lib/serverLogGroups.ts: the messages of a server log grouped into
-- connection attempts.
pub mod Step
pub mod Count
mod Ended
mod Weigh
pub mod Conserve
pub mod Successes
pub mod Single
use Prim.Native.String.{String}
use text.Mathlib.Text.{◌==◌ as str_eq}
use ircfiber_site.Common.{
  ℕ, zero, suc, Bool, true, false, not, ◌&&◌, ◌||◌, Option, none, some, List, [], ◌∷◌, ◌++◌, ltb,
  if◌then◌else◌, length, get_elem?,
}
use ircfiber_site.ServerLog.{ServerMessage, among, is_set}
use ircfiber_site.ServerLog.Dedup.{is_disconnect}

pub data Status : Type 0 where
  pending success error disconnected superseded : Status

pub record ServerLogAttempt : Type 0 where
  pub start : ServerMessage
  pub end_message : Option ServerMessage
  pub phases : List ServerMessage
  pub motd : List ServerMessage
  pub welcome : List ServerMessage
  pub cap : List ServerMessage
  pub notices : List ServerMessage
  pub numeric : List ServerMessage
  pub status : Status

unfoldable pub new_attempt : ServerMessage → ServerLogAttempt
new_attempt seed = record {
  start = seed;
  end_message = none;
  phases = [];
  motd = [];
  welcome = [];
  cap = [];
  notices = [];
  numeric = [];
  status = pending;
}

-- `current`: none, an attempt that is not in the list yet, or the one at an index of the list.
pub data Current : Type 0 where
  nothing : Current
  fresh : ServerLogAttempt → Current
  reopened : ℕ → Current

-- The variables of the loop. `last_attempt` is the index of an attempt of the list.
pub record Grouping : Type 0 where
  pub attempts : List ServerLogAttempt
  pub current : Current
  pub last_attempt : Option ℕ

abbrev pub start_phases : List String
start_phases = "queued" ∷ "resolving" ∷ []

abbrev pub connect_body_phases : List String
connect_body_phases =
    "connecting" ∷ "dns" ∷ "attempt" ∷ "attempt_fail" ∷ "tcp_open" ∷ "tls" ∷ "tls_done"
    ∷ "registering" ∷ "sasl_start" ∷ "sasl_done" ∷ "sasl_fail" ∷ "welcome" ∷ []

abbrev pub pre_attempt_chatter_ms : ℕ
pre_attempt_chatter_ms = 60_000

-- `list.some(test)`
unfoldable pub any {ℓ} : {A : Type ℓ} → (A → Bool) → List A → Bool
any p [] = false
any p (x ∷ xs) = p x || any p xs

-- The attempt that `current` is.
unfoldable pub current_of : Grouping → Option ServerLogAttempt
current_of g = elim g.current [
  | nothing ↦ none
  | fresh a ↦ some a
  | reopened i ↦ get_elem? g.attempts i
]

-- `isStartPhase` of a phase that is set and not a start phase, given `current`.
unfoldable pub starts_connect : Option ServerLogAttempt → Bool
starts_connect none = true
starts_connect (some a) =
    not (any (λ p. is_set p.phase) a.phases)
    || any (λ p. is_set p.phase && among p.phase connect_body_phases) a.phases

unfoldable pub is_start_phase : ServerMessage → Option ServerLogAttempt → Bool
is_start_phase msg current =
    is_set msg.phase
    && (among msg.phase start_phases || str_eq msg.phase "connecting" && starts_connect current)

-- One of the loops of `lastMessageT`.
unfoldable pub latest : ℕ → List ServerMessage → ℕ
latest t [] = t
latest t (m ∷ ms) = latest (if ltb t m.t then m.t else t) ms

unfoldable pub last_message_t : ServerLogAttempt → ℕ
last_message_t a =
    latest
      (latest (latest (latest (latest (latest a.start.t a.phases) a.motd) a.welcome) a.cap)
        a.notices)
      a.numeric

unfoldable pub is_end_of_attempt : ServerMessage → Bool
is_end_of_attempt msg =
    str_eq msg.phase "welcome" || str_eq msg.phase "error" || is_disconnect msg.command

-- The attempt at an index, changed in place.
unfoldable pub modify_at {ℓ} : {A : Type ℓ} → ℕ → (A → A) → List A → List A
modify_at i f [] = []
modify_at zero f (x ∷ xs) = f x ∷ xs
modify_at (suc i) f (x ∷ xs) = x ∷ modify_at i f xs

unfoldable pub modify_current : (ServerLogAttempt → ServerLogAttempt) → Grouping → Grouping
modify_current f g = elim g.current [
  | nothing ↦ g
  | fresh a ↦ record g { current = fresh (f a) }
  | reopened i ↦ record g { attempts = modify_at i f g.attempts }
]

-- `pushCurrent`
unfoldable pub push_current : Grouping → Grouping
push_current g = elim g.current [
  | nothing ↦ g
  | fresh a ↦ record {
    attempts = g.attempts ++ a ∷ [];
    current = nothing;
    last_attempt = some (length g.attempts);
  }
  | reopened _ ↦ record g { current = nothing }
]

unfoldable pub push_phase : ServerMessage → ServerLogAttempt → ServerLogAttempt
push_phase msg a = record a { phases = a.phases ++ msg ∷ [] }

unfoldable pub set_disconnected : ServerMessage → ServerLogAttempt → ServerLogAttempt
set_disconnected msg a = if is_disconnect msg.command then record a { status = disconnected } else a

unfoldable pub set_end : ServerMessage → ServerLogAttempt → ServerLogAttempt
set_end msg a = record a { end_message = some msg }

-- `a !== null && a.end !== null`
unfoldable pub is_ended : Option ServerLogAttempt → Bool
is_ended none = false
is_ended (some a) = elim a.end_message [ none ↦ false | some _ ↦ true ]

-- The index of `lastAttempt`, if that has ended.
unfoldable pub ended_last : Grouping → Option ℕ
ended_last g = elim g.last_attempt [
  | none ↦ none
  | some i ↦ if is_ended (get_elem? g.attempts i) then some i else none
]

-- A lifecycle event outside an attempt.
unfoldable pub lifecycle_outside : ServerMessage → Grouping → Grouping
lifecycle_outside msg g = elim (ended_last g) [
  | some i ↦ record g {
    attempts = modify_at i (λ a. set_end msg (set_disconnected msg (push_phase msg a))) g.attempts;
  }
  | none ↦
      let a = set_disconnected msg (push_phase msg (new_attempt msg)) in
      record g { current = fresh (if is_disconnect msg.command then set_end msg a else a) }
]
