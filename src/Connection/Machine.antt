-- ===== src/Connection/Machine.antt =====
-- wsConnection.svelte.ts: every way in which the module is entered, and the runs over them.
use Prim.Native.String.{String}
use ircfiber_site.Common.{ℕ, Bool, Option, none, some, List, [], ◌∷◌}
use ircfiber_site.Connection.State.{Ready, Frame, Response, Connection, set_max_eid}
use ircfiber_site.Connection.Send.{do_send, send_raw, request_sync, on_ack_interval, on_ack_sent}
use ircfiber_site.Connection.Requests.{send_request, on_request_timeout, on_message}
use ircfiber_site.Connection.Stream.{
  start_xhr_fallback, stop_xhr_fallback, on_poll_timer, Poll, on_poll, connect, on_open, on_close,
  on_reconnect_timeout, disconnect,
}

-- The calls of the program, the browser's events and the timers, in any order. `ready` is the
-- browser's own change of the socket's state.
pub data Event : Type 0 where
  set_eid : ℕ → Event
  send_frame : Frame → Event
  send_line : String → List ℕ → Event
  ask_sync : Event
  ask : String → Event
  ask_timeout : ℕ → Event
  receive : List Response → Event
  ready : Ready → Event
  open_stream : ℕ → Event
  opened_stream : ℕ → List Frame → Event
  closed_stream : ℕ → Bool → Event
  retry_stream : ℕ → Event
  close_stream : ℕ → Event
  ack_round ack_done : Event
  start_poll : Bool → Event
  stop_poll poll_round : Event
  poll_reply : Poll → Event

unfoldable pub set_ready : Ready → Option Ready → Option Ready
set_ready r none = none
set_ready r (some _) = some r

unfoldable pub step : Event → Connection → Connection
step (set_eid eid) c = set_max_eid eid c
step (send_frame f) c = do_send f c
step (send_line network_id line) c = send_raw network_id line c
step ask_sync c = request_sync c
step (ask cmd) c = send_request cmd c
step (ask_timeout id) c = on_request_timeout id c
step (receive rs) c = on_message rs c
step (ready r) c = record c { socket = set_ready r c.socket }
step (open_stream now) c = connect now c
step (opened_stream now greeting) c = on_open now greeting c
step (closed_stream now enabled) c = on_close now enabled c
step (retry_stream now) c = on_reconnect_timeout now c
step (close_stream now) c = disconnect now c
step ack_round c = on_ack_interval c
step ack_done c = on_ack_sent c
step (start_poll enabled) c = start_xhr_fallback enabled c
step stop_poll c = stop_xhr_fallback c
step poll_round c = on_poll_timer c
step (poll_reply p) c = on_poll p c

unfoldable pub run : List Event → Connection → Connection
run [] c = c
run (e ∷ es) c = run es (step e c)

-- A predicate that every step keeps holds after every run.
pub run_inv {ℓ} :
    (P : Connection → Type ℓ)
    → ((e : Event) (c : Connection) → P c → P (step e c))
    → (es : List Event) (c : Connection) → P c
    → P (run es c)
unfolding run
run_inv P keep [] c p = p
run_inv P keep (e ∷ es) c p = run_inv P keep es (step e c) (keep e c p)
