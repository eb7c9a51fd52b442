-- ===== src/Connection/Tests.antt =====
-- The connection on concrete events, and its theorems at concrete inputs.
use ircfiber_site.Common.{ℕ, ◌≡◌, refl, true, false, none, some, List, [], ◌∷◌, arith}
use ircfiber_site.Connection.State.{
  reconnecting, opening, opened, Frame, Connection, raw, msg, json, request, sync, resolved,
  initial, is_connected, set_stream_state,
}
use ircfiber_site.Connection.Send.{do_send, flush_queue, send_join, send_raw, start_ack_timer}
use ircfiber_site.Connection.Requests.{
  remove, contains, settle, send_request, on_request_timeout, set_session, correlate,
  handle_response, on_message,
}
use ircfiber_site.Connection.Stream.{
  stop_xhr_fallback, connect, send_all, on_open, on_close, on_reconnect_timeout, disconnect,
}
use ircfiber_site.Connection.Machine.{
  Event, send_frame, send_line, ask, ask_timeout, receive, ready, open_stream, opened_stream,
  set_ready, step, run,
}
use ircfiber_site.Connection.Bounds.{IsBounded, run-IsBounded}
use ircfiber_site.Connection.Settled.{IsCorrelated}
use ircfiber_site.Connection.Settled.Run.{run-IsCorrelated}
use ircfiber_site.Connection.Offline.{
  Outgoing, by_send_raw, by_do_send, send_each, front, back, ahead, behind,
}
use ircfiber_site.Connection.Order.{on_open-send_each}
use ircfiber_site.Connection.Lifecycle.{close-after-disconnect}

abbrev hello : Frame
hello = msg "net" "#d" (b'h' ∷ b'i' ∷ [])

abbrev join_line : List ℕ
join_line = b'j' ∷ b'o' ∷ b'I' ∷ b'n' ∷ b' ' ∷ b'#' ∷ b'd' ∷ []

-- A message and a JOIN before the socket opens, a request, its reply and a late timeout.
abbrev session : List Event
session =
    send_frame hello
    ∷ send_line "net" join_line
    ∷ open_stream 1
    ∷ ready opened
    ∷ opened_stream 2 (sync ∷ [])
    ∷ ask "whois"
    ∷ receive (record { session = none; reqid = some 1; is_error = false } ∷ [])
    ∷ ask_timeout 1
    ∷ []

join_jumps_queue :
    (run session (initial (0 ∷ []))).sent
    ≡ sync ∷ raw "net" join_line ∷ hello ∷ request 1 "whois" ∷ []
unfolding run step initial do_send send_raw send_join connect on_open send_all flush_queue
    start_ack_timer set_stream_state stop_xhr_fallback set_ready is_connected send_request
    on_message handle_response correlate settle set_session remove contains on_request_timeout
join_jumps_queue = refl

settled_once : (run session (initial (0 ∷ []))).settled ≡ (1, resolved) ∷ []
unfolding run step initial do_send send_raw send_join connect on_open send_all flush_queue
    start_ack_timer set_stream_state stop_xhr_fallback set_ready is_connected send_request
    on_message handle_response correlate settle set_session remove contains on_request_timeout
settled_once = refl

run-IsBounded_example : IsBounded 0 (run session (initial (0 ∷ [])))
run-IsBounded_example = run-IsBounded session (0 ∷ [])

run-IsCorrelated_example : IsCorrelated (run session (initial (0 ∷ [])))
run-IsCorrelated_example = run-IsCorrelated session (0 ∷ [])

-- A message, a JOIN and a last frame.
abbrev unsent : List Outgoing
unsent = by_do_send hello ∷ by_send_raw "net" join_line ∷ by_do_send (json "{}") ∷ []

abbrev at_opening : Connection
at_opening = on_open 2 (sync ∷ []) (record (send_each unsent (initial [])) { socket = some opened })

on_open-send_each_example :
    (at_opening.sent ≡ sync ∷ raw "net" join_line ∷ hello ∷ json "{}" ∷ [])
    × (at_opening.message_queue ≡ [])
unfolding initial is_connected ahead behind front back
on_open-send_each_example =
    on_open-send_each 2 500 (sync ∷ []) unsent (initial []) refl (omega arith)

close-after-disconnect_example :
    ((on_close 9 true (disconnect 8 (initial []))).reconnect_timeout ≡ true)
    × ((on_close 9 true (disconnect 8 (initial []))).ws_state ≡ reconnecting)
    × ((on_reconnect_timeout 3009 (on_close 9 true (disconnect 8 (initial [])))).socket
        ≡ some opening)
close-after-disconnect_example = close-after-disconnect 8 9 3009 true (initial [])
