-- ===== src/Connection/Offline.antt =====
-- wsConnection.svelte.ts: what waits in the queue while there is no open socket.
use Prim.Native.String.{String}
use ircfiber_site.Common.{
  ℕ, zero, suc, ◌+◌, ◌≤◌, ◌<◌, ◌≡◌, refl, sym, ap, ◌∙◌, inl, inr, Bool-cases, if◌then◌else◌, true,
  false, List, [], ◌∷◌, ◌++◌, append-nil, append_assoc, arith, lt→ltb, length, take, length-append,
}
use ircfiber_site.Connection.State.{Frame, raw, Connection, is_connected}
use ircfiber_site.Connection.Send.{queue_limit, do_send, is_join, send_join, send_raw}
use ircfiber_site.Connection.Stream.{}

do_send_room :
    (f : Frame) (c : Connection)
    → is_connected c ≡ false
    → length c.message_queue < queue_limit
    → do_send f c ≡ record c { message_queue = c.message_queue ++ f ∷ [] }
unfolding do_send is_connected
do_send_room f c off room = rw off (rw (lt→ltb (length c.message_queue) 500 room))

do_send_full :
    (f : Frame) (c : Connection)
    → is_connected c ≡ false
    → queue_limit ≤ length c.message_queue
    → do_send f c ≡ c
unfolding do_send is_connected
do_send_full f c off full = ground arith

send_join_room :
    (f : Frame) (c : Connection)
    → is_connected c ≡ false
    → length c.message_queue < queue_limit
    → send_join f c ≡ record c { message_queue = f ∷ c.message_queue }
unfolding send_join is_connected
send_join_room f c off room = rw off (rw (lt→ltb (length c.message_queue) 500 room))

send_join_full :
    (f : Frame) (c : Connection)
    → is_connected c ≡ false
    → queue_limit ≤ length c.message_queue
    → send_join f c ≡ c
unfolding send_join is_connected
send_join_full f c off full = ground arith

-- A call that sends a frame: `sendRaw` with its line, or any other, which leaves it to `doSend`.
pub data Outgoing : Type 0 where
  by_send_raw : String → List ℕ → Outgoing
  by_do_send : Frame → Outgoing

unfoldable pub send_outgoing : Outgoing → Connection → Connection
send_outgoing (by_send_raw network_id line) c = send_raw network_id line c
send_outgoing (by_do_send f) c = do_send f c

unfoldable pub send_each : List Outgoing → Connection → Connection
send_each [] c = c
send_each (o ∷ os) c = send_each os (send_outgoing o c)

-- What a call puts in front of the queue, and what it puts behind it.
unfoldable pub front : Outgoing → List Frame
front (by_send_raw network_id line) = if is_join line then raw network_id line ∷ [] else []
front (by_do_send f) = []

unfoldable pub back : Outgoing → List Frame
back (by_send_raw network_id line) = if is_join line then [] else raw network_id line ∷ []
back (by_do_send f) = f ∷ []

-- The JOIN lines of `sendRaw`, the last one first.
unfoldable pub ahead : List Outgoing → List Frame
ahead [] = []
ahead (o ∷ os) = ahead os ++ front o

-- The other frames, in the order of the calls.
unfoldable pub behind : List Outgoing → List Frame
behind [] = []
behind (o ∷ os) = back o ++ behind os

send_raw-join :
    (network_id : String) (line : List ℕ) (c : Connection)
    → is_join line ≡ true
    → send_raw network_id line c ≡ send_join (raw network_id line) c
unfolding send_raw
send_raw-join network_id line c j = rw j

send_raw-other :
    (network_id : String) (line : List ℕ) (c : Connection)
    → is_join line ≡ false
    → send_raw network_id line c ≡ do_send (raw network_id line) c
unfolding send_raw
send_raw-other network_id line c j = rw j

send_outgoing_room :
    (o : Outgoing) (c : Connection)
    → is_connected c ≡ false
    → length c.message_queue < queue_limit
    → send_outgoing o c ≡ record c { message_queue = front o ++ (c.message_queue ++ back o) }
unfolding send_outgoing front back
send_outgoing_room (by_send_raw network_id line) c off room = elim (Bool-cases (is_join line)) [
  | inl j ↦
      rw (j, append-nil c.message_queue)
        (send_raw-join network_id line c j ∙ send_join_room (raw network_id line) c off room)
  | inr j ↦
      rw j (send_raw-other network_id line c j ∙ do_send_room (raw network_id line) c off room)
]
send_outgoing_room (by_do_send f) c off room = do_send_room f c off room

send_outgoing_full :
    (o : Outgoing) (c : Connection)
    → is_connected c ≡ false
    → queue_limit ≤ length c.message_queue
    → send_outgoing o c ≡ c
unfolding send_outgoing
send_outgoing_full (by_send_raw network_id line) c off full = elim (Bool-cases (is_join line)) [
  | inl j ↦ send_raw-join network_id line c j ∙ send_join_full (raw network_id line) c off full
  | inr j ↦ send_raw-other network_id line c j ∙ do_send_full (raw network_id line) c off full
]
send_outgoing_full (by_do_send f) c off full = do_send_full f c off full

length-placed : (o : Outgoing) (q : List Frame) → length (front o ++ (q ++ back o)) ≡ suc (length q)
unfolding front back
length-placed (by_send_raw network_id line) q = elim (Bool-cases (is_join line)) [
  | inl j ↦ rw (j, append-nil q) (omega arith)
  | inr j ↦ rw j (omega (arith, length-append q (raw network_id line ∷ [])))
]
length-placed (by_do_send f) q = omega (arith, length-append q (f ∷ []))

regroup : (a f q k b : List Frame) → a ++ ((f ++ (q ++ k)) ++ b) ≡ (a ++ f) ++ (q ++ (k ++ b))
regroup a f q k b = simp append_assoc

-- Calls without an open socket fill the queue at both ends, as far as it has room.
abbrev pub Waits : ℕ → List Outgoing → Connection → Connection → Type 0
Waits room os c c' =
    (c'.message_queue ≡ ahead (take room os) ++ (c.message_queue ++ behind (take room os)))
    × (c'.sent ≡ c.sent)
    × (c'.xhr_fallback ≡ c.xhr_fallback)

send_each-cons :
    (o : Outgoing) (os : List Outgoing) (c d : Connection)
    → send_outgoing o c ≡ d
    → send_each (o ∷ os) c ≡ send_each os d
unfolding send_each
send_each-cons o os c d e = ap (send_each os) e

send_each-nil : (c : Connection) → send_each [] c ≡ c
unfolding send_each
send_each-nil c = refl

pub send_each_offline :
    (os : List Outgoing) (room : ℕ) (c : Connection)
    → is_connected c ≡ false
    → length c.message_queue + room ≡ queue_limit
    → Waits room os c (send_each os c)
unfolding ahead behind
send_each_offline [] zero c off e = rw (send_each-nil c) (sym (append-nil _), refl, refl)
send_each_offline [] (suc room) c off e = rw (send_each-nil c) (sym (append-nil _), refl, refl)
send_each_offline (o ∷ os) zero c off e =
    rw (send_each-cons o os c c (send_outgoing_full o c off (omega arith)))
      (rest (send_each_offline os zero c off e))
  where
    rest : Waits zero os c (send_each os c) → Waits zero (o ∷ os) c (send_each os c)
    rest w = w
send_each_offline (o ∷ os) (suc room) c off e =
    let queued : Connection = record c { message_queue = front o ++ (c.message_queue ++ back o) } in
    let more =
      send_each_offline os room queued (unfold is_connected in off)
        (omega (arith, length-placed o c.message_queue)) in
    rw (send_each-cons o os c queued (send_outgoing_room o c off (omega arith))) (
      more.0
          ∙ regroup (ahead (take room os)) (front o) c.message_queue (back o)
              (behind (take room os)),
      more.1,
      more.2,
    )
