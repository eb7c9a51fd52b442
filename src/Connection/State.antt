-- ===== src/Connection/State.antt =====
-- wsConnection.svelte.ts: the module's variables. What the module does to the outside (frames on
-- the wire, settled promises, delivered events, announced states) is kept in logs, oldest first. `xhr_fallback` says
-- whether there is an abort controller; the two counts are the event loop's: polls that wait for a
-- reply, and polls that wait for their timer.
use Prim.Native.String.{String}
use ircfiber_site.Common.{
  ℕ, Bool, true, false, not, ◌&&◌, Option, none, some, List, [], ◌∷◌, ◌++◌, map, ltb, if◌then◌else◌,
}

pub data StreamState : Type 0 where
  disconnected connecting connected reconnecting : StreamState

-- `WebSocket.readyState`
pub data Ready : Type 0 where
  opening opened closing closed : Ready

-- The JSON that goes out. Network ids, targets and lines are texts by their code units.
pub data Frame : Type 0 where
  raw : String → List ℕ → Frame
  msg : String → String → List ℕ → Frame
  json : String → Frame
  ack : ℕ → Frame
  request : ℕ → String → Frame
  sync : Frame
  buffer : String → String → Frame

-- How a promise of `sendRequest` ends.
pub data Outcome : Type 0 where
  resolved failed timed_out not_connected cut_off : Outcome

-- What comes in: a `header` frame's session id, `_reqid`, and whether `_error` is set. A reqid is
-- the number behind `req_`; any other is no request's and is `none` here.
pub record Response : Type 0 where
  pub session : Option String
  pub reqid : Option ℕ
  pub is_error : Bool

pub record Connection : Type 0 where
  pub max_eid : ℕ
  pub socket : Option Ready
  pub ack_interval : Bool
  pub ack_in_flight : Bool
  pub message_queue : List Frame
  pub reconnect_timeout : Bool
  pub reconnect_delay : ℕ
  pub xhr_fallback : Bool
  pub polls_in_flight : ℕ
  pub polls_scheduled : ℕ
  pub ws_state : StreamState
  pub last_seen_at : List ℕ
  pub reqid_counter : ℕ
  pub pending : List ℕ
  pub ws_session_id : String
  pub sent : List Frame
  pub settled : List (ℕ × Outcome)
  pub delivered : List Response
  pub announced : List StreamState

abbrev pub is_connected_state : StreamState → Bool
is_connected_state connected = true
is_connected_state disconnected = false
is_connected_state connecting = false
is_connected_state reconnecting = false

-- `socket && socket.readyState === WebSocket.OPEN`
abbrev pub is_opened : Option Ready → Bool
is_opened none = false
is_opened (some opened) = true
is_opened (some opening) = false
is_opened (some closing) = false
is_opened (some closed) = false

-- The module as it is loaded, over the networks' `lastSeenAt`.
unfoldable pub initial : List ℕ → Connection
initial last_seen_at = record {
  max_eid = 0;
  socket = none;
  ack_interval = false;
  ack_in_flight = false;
  message_queue = [];
  reconnect_timeout = false;
  reconnect_delay = 3000;
  xhr_fallback = false;
  polls_in_flight = 0;
  polls_scheduled = 0;
  ws_state = disconnected;
  last_seen_at = last_seen_at;
  reqid_counter = 0;
  pending = [];
  ws_session_id = "";
  sent = [];
  settled = [];
  delivered = [];
  announced = [];
}

unfoldable pub is_connected : Connection → Bool
is_connected c = is_opened c.socket

unfoldable pub set_max_eid : ℕ → Connection → Connection
set_max_eid eid c = if ltb c.max_eid eid then record c { max_eid = eid } else c

-- On coming back to `connected`, every network counts as seen now.
unfoldable pub set_stream_state : ℕ → StreamState → Connection → Connection
set_stream_state now state c = record c {
  ws_state = state;
  last_seen_at =
      if is_connected_state state && not (is_connected_state c.ws_state)
      then map (λ _. now) c.last_seen_at
      else c.last_seen_at;
  announced = c.announced ++ state ∷ [];
}
