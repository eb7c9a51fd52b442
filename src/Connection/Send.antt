-- ===== src/Connection/Send.antt =====
-- wsConnection.svelte.ts: fire-and-forget sends, the outbound queue and the acknowledgements.
use Prim.Native.String.{String}
use ircfiber_site.Common.{
  ℕ, ◌-◌, Bool, true, false, not, ◌&&◌, ◌||◌, List, [], ◌∷◌, ◌++◌, ltb, leb, ◌==◌, if◌then◌else◌,
  length,
}
use ircfiber_site.Connection.State.{
  Frame, raw, msg, json, ack, sync, buffer, Connection, is_connected,
}

abbrev pub queue_limit : ℕ
queue_limit = 500

-- `socket.send(payload)`
abbrev pub transmit : Frame → Connection → Connection
transmit f c = record c { sent = c.sent ++ f ∷ [] }

-- `doSend`: out at once, or into the queue while it has room.
unfoldable pub do_send : Frame → Connection → Connection
unfolding is_connected
do_send f c =
    if is_connected c
    then transmit f c
    else if ltb (length c.message_queue) queue_limit
    then record c { message_queue = c.message_queue ++ f ∷ [] }
    else c

unfoldable pub flush_queue : Connection → Connection
unfolding is_connected
flush_queue c =
    if is_connected c then record c { sent = c.sent ++ c.message_queue; message_queue = [] } else c

-- `toUpperCase` of one character, as far as it decides a comparison with `JOIN `: the dotless i
-- (U+0131) is an `I` in upper case.
abbrev upper : ℕ → ℕ
upper c = if leb b'a' c && leb c b'z' then c - 32 else if c == 0x131 then b'I' else c

abbrev starts : List ℕ → List ℕ → Bool
starts [] line = true
starts (p ∷ ps) [] = false
starts (p ∷ ps) (c ∷ line) = upper c == p && starts ps line

-- `line.length >= 5 && line.slice(0, 5).toUpperCase() === 'JOIN '`
abbrev pub is_join : List ℕ → Bool
is_join line = starts (b'J' ∷ b'O' ∷ b'I' ∷ b'N' ∷ b' ' ∷ []) line

-- A JOIN of the user goes ahead of what is queued.
unfoldable pub send_join : Frame → Connection → Connection
unfolding is_connected
send_join f c =
    if is_connected c
    then transmit f c
    else if ltb (length c.message_queue) queue_limit
    then record c { message_queue = f ∷ c.message_queue }
    else c

unfoldable pub send_raw : String → List ℕ → Connection → Connection
send_raw network_id line c =
    if is_join line then send_join (raw network_id line) c else do_send (raw network_id line) c

unfoldable pub send_message : String → String → List ℕ → Connection → Connection
send_message network_id target text c = do_send (msg network_id target text) c

unfoldable pub send_json : String → Connection → Connection
send_json payload c = do_send (json payload) c

unfoldable pub request_sync : Connection → Connection
unfolding is_connected
request_sync c = if is_connected c then transmit sync c else c

unfoldable pub request_switch_buffer : String → String → Connection → Connection
request_switch_buffer network_id channel c = do_send (buffer network_id channel) c

unfoldable pub start_ack_timer : Connection → Connection
start_ack_timer c = record c { ack_interval = true }

unfoldable pub stop_ack_timer : Connection → Connection
stop_ack_timer c = record c { ack_interval = false }

-- A round of the acknowledgement timer; the frame goes out also at eid 0.
unfoldable pub on_ack_interval : Connection → Connection
unfolding is_connected
on_ack_interval c =
    if not c.ack_interval || c.ack_in_flight || not (is_connected c)
    then c
    else do_send (ack c.max_eid) (record c { ack_in_flight = true })

-- The zero timeout behind it.
unfoldable pub on_ack_sent : Connection → Connection
on_ack_sent c = record c { ack_in_flight = false }

unfoldable pub send_final_ack : Connection → Connection
unfolding is_connected
send_final_ack c = if ltb 0 c.max_eid && is_connected c then do_send (ack c.max_eid) c else c
