-- ===== src/Connection/Bounds.antt =====
-- wsConnection.svelte.ts: the outbound queue, the reconnect delay and the highest eid over the
-- operations.
use Prim.Native.String.{String}
use ircfiber_site.Common.{
  ℕ, ◌≤◌, inl, inr, Bool, true, List, [], ◌∷◌, arith, Bool-cases, length, length-append,
}
use ircfiber_site.Connection.State.{
  StreamState, connected, Frame, raw, ack, Response, Connection, initial, is_connected, set_max_eid,
  set_stream_state,
}
use ircfiber_site.Connection.Send.{
  queue_limit, do_send, flush_queue, is_join, send_join, send_raw, request_sync, start_ack_timer,
  stop_ack_timer, on_ack_interval, on_ack_sent, send_final_ack,
}
use ircfiber_site.Connection.Requests.{
  settle, send_request, on_request_timeout, set_session, correlate, handle_response, on_message,
  reject_all,
}
use ircfiber_site.Connection.Machine.{
  Event, send_frame, send_line, receive, open_stream, opened_stream, closed_stream, retry_stream,
  ack_round, poll_reply, step, run, run_inv,
}
use ircfiber_site.Connection.Stream.{
  start_xhr_fallback, stop_xhr_fallback, on_poll_timer, Poll, unauthorized, events, event, on_poll,
  connect, send_all, on_open, schedule_reconnect, on_close, on_reconnect_timeout, disconnect,
}

pub record IsBounded (low : ℕ) (c : Connection) : Type 0 where
  pub queue : length c.message_queue ≤ queue_limit
  pub delay : (3000 ≤ c.reconnect_delay) × (c.reconnect_delay ≤ 30_000)
  pub eid : low ≤ c.max_eid

module _ (low : ℕ) where
  do_send-IsBounded : (f : Frame) (c : Connection) → IsBounded low c → IsBounded low (do_send f c)
  unfolding do_send is_connected
  do_send-IsBounded f c v = ground (arith, length-append c.message_queue (f ∷ []))

  send_all-IsBounded :
      (fs : List Frame) (c : Connection) → IsBounded low c → IsBounded low (send_all fs c)
  unfolding send_all
  send_all-IsBounded [] c v = v
  send_all-IsBounded (f ∷ fs) c v = send_all-IsBounded fs (do_send f c) (do_send-IsBounded f c v)

  send_raw-IsBounded :
      (network_id : String) (line : List ℕ) (c : Connection)
      → IsBounded low c
      → IsBounded low (send_raw network_id line c)
  unfolding send_raw send_join is_connected
  send_raw-IsBounded network_id line c v = elim (Bool-cases (is_join line)) [
    | inl join ↦ rw join (ground arith)
    | inr chat ↦ rw chat (do_send-IsBounded (raw network_id line) c v)
  ]

  handle_response-IsBounded :
      (r : Response) (c : Connection) → IsBounded low c → IsBounded low (handle_response r c)
  unfolding handle_response correlate settle set_session
  handle_response-IsBounded r c v = ground arith

  on_message-IsBounded :
      (rs : List Response) (c : Connection) → IsBounded low c → IsBounded low (on_message rs c)
  unfolding on_message
  on_message-IsBounded [] c v = v
  on_message-IsBounded (r ∷ rs) c v =
      on_message-IsBounded rs (handle_response r c) (handle_response-IsBounded r c v)

  set_stream_state-IsBounded :
      (now : ℕ) (s : StreamState) (c : Connection)
      → IsBounded low c
      → IsBounded low (set_stream_state now s c)
  unfolding set_stream_state
  set_stream_state-IsBounded now s c v = record { queue = v.queue; delay = v.delay; eid = v.eid }

  connect-IsBounded : (now : ℕ) (c : Connection) → IsBounded low c → IsBounded low (connect now c)
  unfolding connect set_stream_state
  connect-IsBounded now c v = ground arith

  flush_queue-IsBounded : (c : Connection) → IsBounded low c → IsBounded low (flush_queue c)
  unfolding flush_queue
  flush_queue-IsBounded c v = ground arith

  restarted-IsBounded :
      (c : Connection)
      → IsBounded low c
      → IsBounded low (record (stop_xhr_fallback c) { reconnect_delay = 3000 })
  unfolding stop_xhr_fallback
  restarted-IsBounded c v = ground arith

  on_open-IsBounded :
      (now : ℕ) (greeting : List Frame) (c : Connection)
      → IsBounded low c
      → IsBounded low (on_open now greeting c)
  unfolding on_open start_ack_timer
  on_open-IsBounded now greeting c v =
      let flushed = flush_queue-IsBounded _ (
        send_all-IsBounded greeting _
          (set_stream_state-IsBounded now connected _ (restarted-IsBounded c v))) in
      record { queue = flushed.queue; delay = flushed.delay; eid = flushed.eid }

  on_close-IsBounded :
      (now : ℕ) (enabled : Bool) (c : Connection)
      → IsBounded low c
      → IsBounded low (on_close now enabled c)
  unfolding on_close schedule_reconnect stop_ack_timer set_stream_state start_xhr_fallback
      send_final_ack
  on_close-IsBounded now enabled c v = ground (arith, do_send-IsBounded (ack c.max_eid) c v)

  on_ack_interval-IsBounded : (c : Connection) → IsBounded low c → IsBounded low (on_ack_interval c)
  unfolding on_ack_interval
  on_ack_interval-IsBounded c v = ground (
    arith,
    do_send-IsBounded (ack c.max_eid) (record c { ack_in_flight = true })
        (record { queue = v.queue; delay = v.delay; eid = v.eid }),
  )

  on_poll-IsBounded : (p : Poll) (c : Connection) → IsBounded low c → IsBounded low (on_poll p c)
  unfolding on_poll stop_xhr_fallback
  on_poll-IsBounded unauthorized c v = ground arith
  on_poll-IsBounded (events (r ∷ rs)) c v = on_message-IsBounded (r ∷ rs) c v
  on_poll-IsBounded (event r) c v =
      let heard = on_message-IsBounded (r ∷ []) c v in
      record { queue = heard.queue; delay = heard.delay; eid = heard.eid }
  on_poll-IsBounded p c v = record { queue = v.queue; delay = v.delay; eid = v.eid }

  retry-IsBounded :
      (now : ℕ) (c : Connection) → IsBounded low c → IsBounded low (on_reconnect_timeout now c)
  unfolding on_reconnect_timeout
  retry-IsBounded now c v =
      connect-IsBounded now _
        (record { queue = v.queue; delay = (omega arith, omega arith); eid = v.eid })

  step-IsBounded : (e : Event) (c : Connection) → IsBounded low c → IsBounded low (step e c)
  unfolding step set_max_eid on_request_timeout settle disconnect stop_ack_timer reject_all
      set_stream_state on_ack_sent start_xhr_fallback stop_xhr_fallback on_poll_timer request_sync
      send_request
  step-IsBounded (send_frame f) c v = do_send-IsBounded f c v
  step-IsBounded (send_line network_id line) c v = send_raw-IsBounded network_id line c v
  step-IsBounded (receive rs) c v = on_message-IsBounded rs c v
  step-IsBounded (open_stream now) c v = connect-IsBounded now c v
  step-IsBounded (opened_stream now greeting) c v = on_open-IsBounded now greeting c v
  step-IsBounded (closed_stream now enabled) c v = on_close-IsBounded now enabled c v
  step-IsBounded (retry_stream now) c v = retry-IsBounded now c v
  step-IsBounded ack_round c v = on_ack_interval-IsBounded c v
  step-IsBounded (poll_reply p) c v = on_poll-IsBounded p c v
  step-IsBounded e c v = ground arith

initial-IsBounded : (last_seen_at : List ℕ) → IsBounded 0 (initial last_seen_at)
unfolding initial
initial-IsBounded last_seen_at = record {
  queue = omega arith;
  delay = (omega arith, omega arith);
  eid = omega arith;
}

-- Whatever happens to the module from its start, in any order: at most 500 frames are queued, and
-- the reconnect delay lies between 3 and 30 seconds.
pub run-IsBounded :
    (es : List Event) (last_seen_at : List ℕ) → IsBounded 0 (run es (initial last_seen_at))
run-IsBounded es last_seen_at =
    run_inv (IsBounded 0) (step-IsBounded 0) es _ (initial-IsBounded last_seen_at)

-- In every run the highest eid, which the stream resumes from and the acknowledgements carry, only
-- grows.
pub run-max_eid :
    (es : List Event) (c : Connection) → IsBounded 0 c → c.max_eid ≤ (run es c).max_eid
run-max_eid es c v =
    (run_inv (IsBounded c.max_eid) (step-IsBounded c.max_eid) es c
      (record { queue = v.queue; delay = v.delay; eid = omega arith })).eid
