-- ===== src/Connection/Lifecycle.antt =====
-- wsConnection.svelte.ts: reconnection, its delays, and what outlives an explicit disconnect.
use native.Mathlib.Nat.{pow-suc}
use ircfiber_site.Common.{ℕ, zero, suc, ◌*◌, ◌^◌, min, ◌≡◌, Bool, true, false, some, arith}
use ircfiber_site.Connection.State.{
  reconnecting, opening, closed, Connection, is_connected, set_stream_state,
}
use ircfiber_site.Connection.Send.{do_send, stop_ack_timer, send_final_ack}
use ircfiber_site.Connection.Requests.{reject_all}
use ircfiber_site.Connection.Stream.{
  start_xhr_fallback, stop_xhr_fallback, on_poll_timer, connect, schedule_reconnect, on_close,
  on_reconnect_timeout, disconnect,
}

-- The connection after n reconnect timers in a row, while no socket opens: each timer fires after
-- a `close` event that the failed attempt brought.
unfoldable pub failed_attempts : ℕ → ℕ → Connection → Connection
failed_attempts now zero c = c
failed_attempts now (suc n) c =
    on_reconnect_timeout now
      (on_close now false (record (failed_attempts now n c) { socket = some closed }))

round_delay :
    (now : ℕ) (c : Connection)
    → (on_reconnect_timeout now
        (on_close now false (record c { socket = some closed }))).reconnect_delay
      ≡ min (c.reconnect_delay * 2) 30_000
unfolding on_reconnect_timeout on_close schedule_reconnect set_stream_state start_xhr_fallback
    stop_ack_timer send_final_ack connect do_send is_connected
round_delay now c = ground arith

-- The delays back off: after n failed attempts in a row the next one waits 3 seconds doubled n
-- times, and never more than 30 seconds.
pub failed_attempts-delay :
    (now n : ℕ) (c : Connection)
    → c.reconnect_delay ≡ 3000
    → (failed_attempts now n c).reconnect_delay ≡ min (3000 * 2 ^ n) 30_000
unfolding failed_attempts
failed_attempts-delay now zero c e = omega arith
failed_attempts-delay now (suc n) c e =
    omega (
      arith,
      round_delay now (failed_attempts now n c),
      failed_attempts-delay now n c e,
      pow-suc 2 n,
    )

-- After `disconnectWebSocket`, the `close` event of the socket that it closed brings the
-- connection back: a reconnect is scheduled, and its timer opens a socket again.
pub close-after-disconnect :
    (now later retry_at : ℕ) (enabled : Bool) (c : Connection)
    → ((on_close later enabled (disconnect now c)).reconnect_timeout ≡ true)
      × ((on_close later enabled (disconnect now c)).ws_state ≡ reconnecting)
      × ((on_reconnect_timeout retry_at (on_close later enabled (disconnect now c))).socket
          ≡ some opening)
unfolding on_reconnect_timeout on_close schedule_reconnect set_stream_state start_xhr_fallback
    stop_ack_timer send_final_ack connect disconnect reject_all is_connected
close-after-disconnect now later retry_at enabled c = ground arith

-- A poll that waits for its timer when the fallback stops is never cancelled: without a fallback
-- its timer only schedules it again, and when the fallback starts the next time, it polls beside
-- the new poll.
pub stop_xhr_fallback-leaves_poll :
    (waiting : ℕ) (c : Connection)
    → c.xhr_fallback ≡ true
    → c.polls_scheduled ≡ suc waiting
    → (on_poll_timer (stop_xhr_fallback c) ≡ stop_xhr_fallback c)
      × ((on_poll_timer (start_xhr_fallback true (stop_xhr_fallback c))).polls_in_flight ≡ 2)
unfolding on_poll_timer stop_xhr_fallback start_xhr_fallback
stop_xhr_fallback-leaves_poll waiting c on e = ground arith
