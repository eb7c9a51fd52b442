-- ===== src/Connection/Stream.antt =====
-- wsConnection.svelte.ts: the WebSocket's life and the long-poll fallback. The feature flag
-- `xhrFallback` and the clock are arguments.
use ircfiber_site.Common.{
  ℕ, ◌+◌, ◌-◌, ◌*◌, min, Bool, true, false, not, ◌&&◌, ◌||◌, Option, none, some, List, [], ◌∷◌, ltb,
  if◌then◌else◌,
}
use ircfiber_site.Connection.State.{
  disconnected, connecting, connected, reconnecting, Ready, opening, opened, closing, closed, Frame,
  Response, Connection, set_stream_state,
}
use ircfiber_site.Connection.Send.{
  do_send, flush_queue, start_ack_timer, stop_ack_timer, send_final_ack,
}
use ircfiber_site.Connection.Requests.{on_message, reject_all}

-- `startXHRFallback`: the first poll goes out at once.
unfoldable pub start_xhr_fallback : Bool → Connection → Connection
start_xhr_fallback enabled c =
    if not enabled || c.xhr_fallback
    then c
    else record c { xhr_fallback = true; polls_in_flight = c.polls_in_flight + 1 }

-- `stopXHRFallback`: the controller is aborted, which ends the poll in flight, and forgotten. A
-- poll that waits for its timer is not cancelled.
unfoldable pub stop_xhr_fallback : Connection → Connection
stop_xhr_fallback c =
    if c.xhr_fallback then record c { xhr_fallback = false; polls_in_flight = 0 } else c

-- The timer of a scheduled poll. The test `xhrFallbackController?.signal.aborted` is falsy also
-- when there is no controller; reading its signal then throws, and the handler schedules the poll
-- again.
unfoldable pub on_poll_timer : Connection → Connection
on_poll_timer c =
    if ltb 0 c.polls_scheduled && c.xhr_fallback
    then record c {
      polls_scheduled = c.polls_scheduled - 1;
      polls_in_flight = c.polls_in_flight + 1;
    }
    else c

-- What a poll of `/api/events?since=<maxEid>` brings.
pub data Poll : Type 0 where
  unauthorized broken : Poll
  events : List Response → Poll
  event : Response → Poll
  malformed : Poll

-- The poll in flight has its reply and waits for its next round.
abbrev rescheduled : Connection → Connection
rescheduled c = record c {
  polls_in_flight = c.polls_in_flight - 1;
  polls_scheduled = c.polls_scheduled + 1;
}

-- A reply to a poll in flight. After events the next poll goes out at once, in the same count.
unfoldable pub on_poll : Poll → Connection → Connection
on_poll unauthorized c = stop_xhr_fallback c
on_poll broken c = rescheduled c
on_poll (events []) c = rescheduled c
on_poll (events (r ∷ rs)) c = on_message (r ∷ rs) c
on_poll (event r) c = rescheduled (on_message (r ∷ []) c)
on_poll malformed c = rescheduled c

-- The delay of the next poll, in milliseconds.
unfoldable pub poll_delay : Poll → Option ℕ
poll_delay unauthorized = none
poll_delay broken = some 3000
poll_delay (events []) = some 1000
poll_delay (events (r ∷ rs)) = some 0
poll_delay (event r) = some 1000
poll_delay malformed = some 1000

-- `socket && socket.readyState !== WebSocket.CLOSED`
abbrev pub is_live : Option Ready → Bool
is_live none = false
is_live (some closed) = false
is_live (some opening) = true
is_live (some opened) = true
is_live (some closing) = true

-- `connectWebSocket`: a live socket is kept.
unfoldable pub connect : ℕ → Connection → Connection
connect now c =
    if is_live c.socket
    then c
    else record (set_stream_state now connecting c) { socket = some opening }

-- The `since` of the stream's URL, if it has one.
unfoldable pub resume_since : Connection → Option ℕ
resume_since c = if ltb 0 c.max_eid then some c.max_eid else none

unfoldable pub send_all : List Frame → Connection → Connection
send_all [] c = c
send_all (f ∷ fs) c = send_all fs (do_send f c)

-- The `open` listener. `greeting` is what the open callback sends.
unfoldable pub on_open : ℕ → List Frame → Connection → Connection
on_open now greeting c = start_ack_timer (
    flush_queue (
      send_all greeting
        (set_stream_state now connected (record (stop_xhr_fallback c) { reconnect_delay = 3000 }))))

-- The `close` listener.
unfoldable pub schedule_reconnect : ℕ → Bool → Connection → Connection
schedule_reconnect now enabled c =
    if c.reconnect_timeout
    then c
    else record (start_xhr_fallback enabled (set_stream_state now reconnecting c)) {
      reconnect_timeout = true;
    }

unfoldable pub on_close : ℕ → Bool → Connection → Connection
on_close now enabled c = schedule_reconnect now enabled (stop_ack_timer (send_final_ack c))

-- The reconnect timer.
unfoldable pub on_reconnect_timeout : ℕ → Connection → Connection
on_reconnect_timeout now c =
    connect now
      (record c { reconnect_timeout = false; reconnect_delay = min (c.reconnect_delay * 2) 30_000 })

unfoldable pub disconnect : ℕ → Connection → Connection
disconnect now c =
    set_stream_state now disconnected
      (record (stop_ack_timer (reject_all c)) { reconnect_timeout = false; socket = none })
