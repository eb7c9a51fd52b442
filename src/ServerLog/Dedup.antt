-- ===== src/ServerLog/Dedup.antt =====
-- `dedupPhaseEvents` of frontend/src/lib/serverLogGroups.ts. Of JavaScript's strings it takes
-- `remove r s` for `s.replace(/r/i, '')`, `trim`, and `slice n s` for `s.slice(0, n)`.
use Prim.Native.String.{String}
use text.Mathlib.Text.{◌==◌ as str_eq}
use ircfiber_site.Common.{
  ℕ, ◌+◌, ◌≡◌, refl, sym, ap, ◌∙◌, inl, inr, Bool, true, false, not, ◌&&◌, ◌||◌, Option, none, some,
  List, [], ◌∷◌, arith, ltb, if◌then◌else◌, Bool-cases, filter,
}
use ircfiber_site.ServerLog.{ServerMessage, among, is_set}

abbrev pub dup_window_ms : ℕ
dup_window_ms = 60_000

pub record Seen : Type 0 where
  pub last_seen : List ((String × String) × ℕ)
  pub lifecycle_last_seen : List (String × ℕ)
  pub attempt_ended : Bool

abbrev pub nothing_seen : Seen
nothing_seen = record { last_seen = []; lifecycle_last_seen = []; attempt_ended = false }

unfoldable pub is_disconnect : String → Bool
is_disconnect cmd = str_eq cmd "DISCONNECT" || str_eq cmd "DISCONNECTED"

unfoldable pub is_connect : String → Bool
is_connect cmd = str_eq cmd "CONNECT" || str_eq cmd "CONNECTED"

-- `now - last < DUP_WINDOW_MS` for the time that the map has for a key, if it has one.
unfoldable pub is_recent : ℕ → Option ℕ → Bool
is_recent now none = false
is_recent now (some last) = ltb now (last + dup_window_ms)

module _ {ℓ} {K : Type ℓ} (same : K → K → Bool) where
  unfoldable pub time_of : K → List (K × ℕ) → Option ℕ
  time_of k [] = none
  time_of k (e ∷ es) = let rest = time_of k es in if same e.0 k then some e.1 else rest

  unfoldable pub set_time : K → ℕ → List (K × ℕ) → List (K × ℕ)
  set_time k now [] = (k, now) ∷ []
  set_time k now (e ∷ es) =
      let rest = set_time k now es in if same e.0 k then (e.0, now) ∷ es else e ∷ rest

  unfoldable pub delete_time : K → List (K × ℕ) → List (K × ℕ)
  delete_time k es = filter (λ e. not (same e.0 k)) es

abbrev pub same_pair : String × String → String × String → Bool
same_pair (a, b) (c, d) = str_eq a c && str_eq b d

-- A lifecycle event: whether it is kept, and what is seen after it.
unfoldable pub see_lifecycle : ServerMessage → Seen → Bool × Seen
see_lifecycle msg s =
    if is_recent msg.t (time_of str_eq msg.command s.lifecycle_last_seen)
    then (false, s)
    else if is_disconnect msg.command
    then (
      true,
      record s {
        lifecycle_last_seen = delete_time str_eq "CONNECTED" (
            delete_time str_eq "CONNECT" (set_time str_eq msg.command msg.t s.lifecycle_last_seen));
        attempt_ended = true;
      },
    )
    else (
      true,
      record s {
        lifecycle_last_seen = delete_time str_eq "DISCONNECTED" (
            delete_time str_eq "DISCONNECT"
              (set_time str_eq msg.command msg.t s.lifecycle_last_seen));
      },
    )

-- The window of an attempt is left at the next start phase.
unfoldable pub open_window : String → Seen → Seen
open_window phase s =
    if s.attempt_ended && among phase ("queued" ∷ "resolving" ∷ "connecting" ∷ [])
    then record s { last_seen = []; attempt_ended = false }
    else s

unfoldable pub end_attempt : String → Seen → Seen
end_attempt phase s =
    if among phase ("welcome" ∷ "error" ∷ "attempt_fail" ∷ [])
    then record s {
      attempt_ended = true;
      lifecycle_last_seen =
          delete_time str_eq "DISCONNECTED" (delete_time str_eq "DISCONNECT" s.lifecycle_last_seen);
    }
    else s

module _ (remove : String → String → String) (trim : String → String)
    (slice : ℕ → String → String) where
  -- The second part of `key`.
  unfoldable pub canon_text : String → String
  canon_text text = slice 60 (
      trim (
        remove "for \\S+"
          (remove "to \\S+:\\d+" (remove "established" (remove "via holder daemon" text)))))

  unfoldable pub key_of : ServerMessage → String × String
  key_of msg = (msg.phase, canon_text msg.text)

  -- A phase event, in the window that is open.
  unfoldable pub see_in_window : ServerMessage → Seen → Bool × Seen
  see_in_window msg s =
      if is_recent msg.t (time_of same_pair (key_of msg) s.last_seen) then (false, s) else (
        true,
        end_attempt msg.phase
            (record s { last_seen = set_time same_pair (key_of msg) msg.t s.last_seen }),
      )

  unfoldable pub is_chat : ServerMessage → Bool
  is_chat msg =
      not (is_set msg.phase) && not (is_disconnect msg.command) && not (is_connect msg.command)

  -- One message: whether it is kept, and what is seen after it.
  unfoldable pub see : ServerMessage → Seen → Bool × Seen
  see msg s =
      if is_chat msg
      then (true, s)
      else if is_disconnect msg.command || is_connect msg.command
      then see_lifecycle msg s
      else see_in_window msg (open_window msg.phase s)

  -- The loop.
  unfoldable pub dedup_from : Seen → List ServerMessage → List ServerMessage
  dedup_from s [] = []
  dedup_from s (msg ∷ ms) =
      let r = see msg s in let rest = dedup_from r.1 ms in if r.0 then msg ∷ rest else rest

  unfoldable pub dedup_phase_events : List ServerMessage → List ServerMessage
  dedup_phase_events ms = dedup_from nothing_seen ms

  see_lifecycle-dropped :
      (msg : ServerMessage) (s : Seen)
      → (see_lifecycle msg s).0 ≡ false
      → (see_lifecycle msg s).1 ≡ s
  unfolding see_lifecycle
  see_lifecycle-dropped msg s h = ground arith

  see_in_window-dropped :
      (msg : ServerMessage) (s : Seen)
      → (see_in_window msg s).0 ≡ false
      → (see_in_window msg s).1 ≡ s
  unfolding see_in_window
  see_in_window-dropped msg s h = ground arith

  see_in_window-fresh :
      (msg : ServerMessage) (s : Seen)
      → (see_in_window msg (record s { last_seen = []; attempt_ended = false })).0 ≡ true
  unfolding see_in_window time_of is_recent
  see_in_window-fresh msg s = refl

  -- A message that opens a window is kept.
  open_window-dropped :
      (msg : ServerMessage) (s : Seen)
      → (see_in_window msg (open_window msg.phase s)).0 ≡ false
      → open_window msg.phase s ≡ s
  unfolding open_window
  open_window-dropped msg s h = ground (arith, see_in_window-fresh msg s)

  -- What is dropped changes nothing that is seen.
  see-dropped : (msg : ServerMessage) (s : Seen) → (see msg s).0 ≡ false → (see msg s).1 ≡ s
  unfolding see
  see-dropped msg s h = ground (
    arith,
    see_lifecycle-dropped msg s,
    see_in_window-dropped msg (open_window msg.phase s),
    open_window-dropped msg s,
  )

  dedup_from-kept :
      (s : Seen) (msg : ServerMessage) (ms : List ServerMessage)
      → (see msg s).0 ≡ true
      → dedup_from s (msg ∷ ms) ≡ msg ∷ dedup_from (see msg s).1 ms
  unfolding dedup_from
  dedup_from-kept s msg ms h = rw h

  dedup_from-dropped :
      (s : Seen) (msg : ServerMessage) (ms : List ServerMessage)
      → (see msg s).0 ≡ false
      → dedup_from s (msg ∷ ms) ≡ dedup_from s ms
  unfolding dedup_from
  dedup_from-dropped s msg ms h = rw (h, see-dropped msg s h)

  dedup_from-dedup_from :
      (s : Seen) (ms : List ServerMessage) → dedup_from s (dedup_from s ms) ≡ dedup_from s ms
  unfolding dedup_from
  dedup_from-dedup_from s [] = refl
  dedup_from-dedup_from s (msg ∷ ms) = elim (Bool-cases (see msg s).0) [
    | inl kept ↦
        let e = dedup_from-kept s msg ms kept in
        ap (dedup_from s) e
        ∙ dedup_from-kept s msg (dedup_from (see msg s).1 ms) kept
        ∙ ap (λ t. msg ∷ t) (dedup_from-dedup_from (see msg s).1 ms)
        ∙ sym e
    | inr dropped ↦
        let e = dedup_from-dropped s msg ms dropped in
        ap (dedup_from s) e ∙ dedup_from-dedup_from s ms ∙ sym e
  ]

  dedup_from-chat :
      (s : Seen) (ms : List ServerMessage) → filter is_chat (dedup_from s ms) ≡ filter is_chat ms
  unfolding dedup_from see
  dedup_from-chat s [] = refl
  dedup_from-chat s (msg ∷ ms) = ground (arith, dedup_from-chat (see msg s).1 ms)

  -- Dropping duplicates a second time drops nothing, and the messages that are neither phase nor
  -- lifecycle events all pass, in their order.
  pub dedup_phase_events-twice :
      (ms : List ServerMessage)
      → (dedup_phase_events (dedup_phase_events ms) ≡ dedup_phase_events ms)
        × (filter is_chat (dedup_phase_events ms) ≡ filter is_chat ms)
  unfolding dedup_phase_events
  dedup_phase_events-twice ms =
      (dedup_from-dedup_from nothing_seen ms, dedup_from-chat nothing_seen ms)
