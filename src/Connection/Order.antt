-- ===== src/Connection/Order.antt =====
-- wsConnection.svelte.ts: the order of frames on the wire.
use ircfiber_site.Common.{
  ℕ, ◌+◌, ◌≡◌, refl, sym, ap, ◌∙◌, true, false, some, List, [], ◌∷◌, ◌++◌, append-nil, append_assoc,
  arith, length, take,
}
use ircfiber_site.Connection.State.{
  connected, opened, Frame, Connection, is_connected, set_stream_state,
}
use ircfiber_site.Connection.Send.{queue_limit, do_send, flush_queue, start_ack_timer}
use ircfiber_site.Connection.Stream.{stop_xhr_fallback, send_all, on_open}
use ircfiber_site.Connection.Offline.{Outgoing, send_each, ahead, behind, send_each_offline}

do_send_open :
    (f : Frame) (c : Connection)
    → is_connected c ≡ true
    → do_send f c ≡ record c { sent = c.sent ++ f ∷ [] }
unfolding do_send is_connected
do_send_open f c on = rw on

send_all-cons :
    (f : Frame) (fs : List Frame) (c d : Connection)
    → do_send f c ≡ d
    → send_all (f ∷ fs) c ≡ send_all fs d
unfolding send_all
send_all-cons f fs c d e = ap (send_all fs) e

send_all-nil : (c : Connection) → send_all [] c ≡ c
unfolding send_all
send_all-nil c = refl

-- With an open socket, sends go out at once.
-- The state in which the open callback runs.
abbrev restart : ℕ → Connection → Connection
restart now c =
    set_stream_state now connected (record (stop_xhr_fallback c) { reconnect_delay = 3000 })

restarted :
    (now : ℕ) (c : Connection)
    → is_connected c ≡ true
    → ((restart now c).sent ≡ c.sent)
      × ((restart now c).message_queue ≡ c.message_queue)
      × (is_connected (restart now c) ≡ true)
unfolding set_stream_state stop_xhr_fallback is_connected
restarted now c on = ground arith

send_all_online :
    (fs : List Frame) (c : Connection)
    → is_connected c ≡ true
    → ((send_all fs c).sent ≡ c.sent ++ fs)
      × ((send_all fs c).message_queue ≡ c.message_queue)
      × (is_connected (send_all fs c) ≡ true)
send_all_online [] c on = rw (send_all-nil c) (sym (append-nil _), refl, on)
send_all_online (f ∷ fs) c on =
    let gone : Connection = record c { sent = c.sent ++ f ∷ [] } in
    let more = send_all_online fs gone (unfold is_connected in on) in
    rw (send_all-cons f fs c gone (do_send_open f c on))
      (more.0 ∙ append_assoc c.sent (f ∷ []) fs, more.1, more.2)

flush_queue_online :
    (c : Connection)
    → is_connected c ≡ true
    → ((flush_queue c).sent ≡ c.sent ++ c.message_queue) × ((flush_queue c).message_queue ≡ [])
unfolding flush_queue
flush_queue_online c on = rw on (refl, refl)

-- The `open` listener on an open socket sends the open callback's frames and then the whole queue.
pub on_open-flushes :
    (now : ℕ) (greeting : List Frame) (c : Connection)
    → is_connected c ≡ true
    → ((on_open now greeting c).sent ≡ (c.sent ++ greeting) ++ c.message_queue)
      × ((on_open now greeting c).message_queue ≡ [])
unfolding on_open start_ack_timer
on_open-flushes now greeting c on =
    let ready = restarted now c on in
    let greeted = send_all_online greeting (restart now c) ready.2 in
    let flushed = flush_queue_online (send_all greeting (restart now c)) greeted.2 in
    (flushed.0 ∙ rw (greeted.0, greeted.1, ready.0, ready.1), flushed.1)

-- Frames that `sendRaw` and `doSend` are given while there is no open socket wait: a JOIN line of
-- `sendRaw` in front of all that wait already, and any other frame behind them; what does not fit
-- into the 500 places is dropped. When the socket opens they all go out, behind what the open
-- callback sends: first the JOIN lines, the last one first, then what waited before, then the other
-- frames in the order in which they were sent. None waits any more.
pub on_open-send_each :
    (now room : ℕ) (greeting : List Frame) (os : List Outgoing) (c : Connection)
    → is_connected c ≡ false
    → length c.message_queue + room ≡ queue_limit
    → ((on_open now greeting (record (send_each os c) { socket = some opened })).sent
        ≡ (c.sent ++ greeting)
          ++ (ahead (take room os) ++ (c.message_queue ++ behind (take room os))))
      × ((on_open now greeting (record (send_each os c) { socket = some opened })).message_queue
          ≡ [])
on_open-send_each now room greeting os c off e =
    let waiting = send_each_offline os room c off e in
    let gone =
      on_open-flushes now greeting (record (send_each os c) { socket = some opened })
        (unfold is_connected in refl) in
    (gone.0 ∙ rw (waiting.0, waiting.1), gone.1)
