-- ===== src/Connection/Settled/Run.antt =====
-- wsConnection.svelte.ts: the request numbers over the operations and the runs.
use Prim.Native.String.{String}
use ircfiber_site.Common.{
  ℕ, ◌*◌, min, ◌≡◌, refl, ap, ◌∙◌, inl, inr, Bool, true, false, List, [], ◌∷◌, ◌++◌, map, arith,
  Bool-cases,
}
use ircfiber_site.Connection.State.{
  connected, Frame, raw, ack, Outcome, cut_off, Connection, initial, set_max_eid, set_stream_state,
}
use ircfiber_site.Connection.Send.{
  do_send, flush_queue, is_join, send_join, send_raw, request_sync, start_ack_timer, stop_ack_timer,
  on_ack_interval, on_ack_sent, send_final_ack,
}
use ircfiber_site.Connection.Requests.{reject_all}
use ircfiber_site.Connection.Stream.{
  start_xhr_fallback, stop_xhr_fallback, on_poll_timer, Poll, unauthorized, events, event, on_poll,
  connect, send_all, on_open, schedule_reconnect, on_close, on_reconnect_timeout, disconnect,
}
use ircfiber_site.Connection.Machine.{
  Event, send_frame, send_line, ask, ask_timeout, receive, open_stream, opened_stream,
  closed_stream, retry_stream, close_stream, ack_round, stop_poll, poll_reply, step, run, run_inv,
}
use ircfiber_site.Connection.Settled.{
  count, IsCorrelated, send_request-IsCorrelated, reject_all-IsCorrelated,
  on_request_timeout-IsCorrelated, on_message-IsCorrelated,
}

-- The requests of `c'` are those of `c`.
record SameBooks (c c' : Connection) : Type 0 where
  pending : c'.pending ≡ c.pending
  settled : c'.settled ≡ c.settled
  counter : c'.reqid_counter ≡ c.reqid_counter

SameBooks-IsCorrelated : (c c' : Connection) → SameBooks c c' → IsCorrelated c → IsCorrelated c'
SameBooks-IsCorrelated c c' s v j =
    rw (s.pending, s.counter) (rw (ap (map (λ (o : ℕ × Outcome). o.0)) s.settled) (v j))

SameBooks-trans : {c d e : Connection} → SameBooks c d → SameBooks d e → SameBooks c e
SameBooks-trans s t = record {
  pending = t.pending ∙ s.pending;
  settled = t.settled ∙ s.settled;
  counter = t.counter ∙ s.counter;
}

do_send-SameBooks : (f : Frame) (c : Connection) → SameBooks c (do_send f c)
unfolding do_send
do_send-SameBooks f c = ground arith

send_all-SameBooks : (fs : List Frame) (c : Connection) → SameBooks c (send_all fs c)
unfolding send_all
send_all-SameBooks [] c = record { pending = refl; settled = refl; counter = refl }
send_all-SameBooks (f ∷ fs) c =
    SameBooks-trans (do_send-SameBooks f c) (send_all-SameBooks fs (do_send f c))

send_raw-SameBooks :
    (network_id : String) (line : List ℕ) (c : Connection)
    → SameBooks c (send_raw network_id line c)
unfolding send_raw send_join
send_raw-SameBooks network_id line c = elim (Bool-cases (is_join line)) [
  | inl join ↦ rw join (ground arith)
  | inr chat ↦ rw chat (do_send-SameBooks (raw network_id line) c)
]

stop_xhr_fallback-SameBooks : (c : Connection) → SameBooks c (stop_xhr_fallback c)
unfolding stop_xhr_fallback
stop_xhr_fallback-SameBooks c = ground arith

connect-SameBooks : (now : ℕ) (c : Connection) → SameBooks c (connect now c)
unfolding connect set_stream_state
connect-SameBooks now c = ground arith

flush_queue-SameBooks : (c : Connection) → SameBooks c (flush_queue c)
unfolding flush_queue
flush_queue-SameBooks c = ground arith

on_open-SameBooks :
    (now : ℕ) (greeting : List Frame) (c : Connection) → SameBooks c (on_open now greeting c)
unfolding on_open start_ack_timer set_stream_state
on_open-SameBooks now greeting c =
    let stopped = stop_xhr_fallback-SameBooks c in
    let greeted =
      send_all-SameBooks greeting (
        set_stream_state now connected (record (stop_xhr_fallback c) { reconnect_delay = 3000 })) in
    let flushed = flush_queue-SameBooks (
      send_all greeting (
        set_stream_state now connected
          (record (stop_xhr_fallback c) { reconnect_delay = 3000 }))) in
    record {
      pending = flushed.pending ∙ greeted.pending ∙ stopped.pending;
      settled = flushed.settled ∙ greeted.settled ∙ stopped.settled;
      counter = flushed.counter ∙ greeted.counter ∙ stopped.counter;
    }

on_close-SameBooks :
    (now : ℕ) (enabled : Bool) (c : Connection) → SameBooks c (on_close now enabled c)
unfolding on_close schedule_reconnect stop_ack_timer set_stream_state start_xhr_fallback
    send_final_ack
on_close-SameBooks now enabled c = ground (arith, do_send-SameBooks (ack c.max_eid) c)

on_ack_interval-SameBooks : (c : Connection) → SameBooks c (on_ack_interval c)
unfolding on_ack_interval
on_ack_interval-SameBooks c =
    let sending = do_send-SameBooks (ack c.max_eid) (record c { ack_in_flight = true }) in
    ground (arith, sending)

retry-SameBooks : (now : ℕ) (c : Connection) → SameBooks c (on_reconnect_timeout now c)
unfolding on_reconnect_timeout
retry-SameBooks now c =
    let again = connect-SameBooks now (record c {
      reconnect_timeout = false;
      reconnect_delay = min (c.reconnect_delay * 2) 30_000;
    }) in
    record { pending = again.pending; settled = again.settled; counter = again.counter }

on_poll-IsCorrelated : (p : Poll) (c : Connection) → IsCorrelated c → IsCorrelated (on_poll p c)
unfolding on_poll
on_poll-IsCorrelated unauthorized c v = SameBooks-IsCorrelated c _ (stop_xhr_fallback-SameBooks c) v
on_poll-IsCorrelated (events (r ∷ rs)) c v = on_message-IsCorrelated (r ∷ rs) c v
on_poll-IsCorrelated (event r) c v = on_message-IsCorrelated (r ∷ []) c v
on_poll-IsCorrelated p c v = v

step-IsCorrelated : (e : Event) (c : Connection) → IsCorrelated c → IsCorrelated (step e c)
unfolding step set_max_eid request_sync on_ack_sent start_xhr_fallback on_poll_timer
step-IsCorrelated (ask cmd) c v = send_request-IsCorrelated cmd c v
step-IsCorrelated (ask_timeout id) c v = on_request_timeout-IsCorrelated id c v
step-IsCorrelated (receive rs) c v = on_message-IsCorrelated rs c v
step-IsCorrelated (poll_reply p) c v = on_poll-IsCorrelated p c v
step-IsCorrelated (close_stream now) c v =
    unfold disconnect set_stream_state stop_ack_timer in reject_all-IsCorrelated c v
step-IsCorrelated (send_frame f) c v = SameBooks-IsCorrelated c _ (do_send-SameBooks f c) v
step-IsCorrelated (send_line network_id line) c v =
    SameBooks-IsCorrelated c _ (send_raw-SameBooks network_id line c) v
step-IsCorrelated (open_stream now) c v = SameBooks-IsCorrelated c _ (connect-SameBooks now c) v
step-IsCorrelated (opened_stream now greeting) c v =
    SameBooks-IsCorrelated c _ (on_open-SameBooks now greeting c) v
step-IsCorrelated (closed_stream now enabled) c v =
    SameBooks-IsCorrelated c _ (on_close-SameBooks now enabled c) v
step-IsCorrelated (retry_stream now) c v = SameBooks-IsCorrelated c _ (retry-SameBooks now c) v
step-IsCorrelated ack_round c v = SameBooks-IsCorrelated c _ (on_ack_interval-SameBooks c) v
step-IsCorrelated stop_poll c v = SameBooks-IsCorrelated c _ (stop_xhr_fallback-SameBooks c) v
step-IsCorrelated e c v = SameBooks-IsCorrelated c (step e c) (ground arith) v

initial-IsCorrelated : (last_seen_at : List ℕ) → IsCorrelated (initial last_seen_at)
unfolding initial count
initial-IsCorrelated last_seen_at j = ground arith

-- Whatever happens to the module from its start, every request number that was given out is, at
-- every moment, either pending or settled, and exactly once; no other number is either.
pub run-IsCorrelated :
    (es : List Event) (last_seen_at : List ℕ) → IsCorrelated (run es (initial last_seen_at))
run-IsCorrelated es last_seen_at =
    run_inv IsCorrelated step-IsCorrelated es _ (initial-IsCorrelated last_seen_at)

-- `disconnectWebSocket` leaves no request pending: what was pending is rejected, in its order.
pub disconnect-settles :
    (now : ℕ) (c : Connection)
    → ((disconnect now c).pending ≡ [])
      × ((disconnect now c).settled ≡ c.settled ++ map (λ id. (id, cut_off)) c.pending)
unfolding disconnect set_stream_state stop_ack_timer reject_all
disconnect-settles now c = (refl, refl)
