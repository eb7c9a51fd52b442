-- ===== src/Connection/Requests.antt =====
-- wsConnection.svelte.ts: requests with a reply, and incoming data.
use Prim.Native.String.{String}
use ircfiber_site.Common.{
  ℕ, ◌+◌, Bool, true, false, ◌||◌, Option, none, some, List, [], ◌∷◌, ◌++◌, map, ◌==◌,
  if◌then◌else◌,
}
use ircfiber_site.Connection.State.{
  request, Outcome, resolved, failed, timed_out, not_connected, cut_off, Response, Connection,
  is_connected,
}

-- `pendingRequests.delete(reqid)`
unfoldable pub remove : ℕ → List ℕ → List ℕ
remove id [] = []
remove id (p ∷ ps) = elim (p == id) [ true ↦ remove id ps | false ↦ p ∷ remove id ps ]

unfoldable pub contains : ℕ → List ℕ → Bool
contains id [] = false
contains id (p ∷ ps) = p == id || contains id ps

-- The promise of a pending request ends, and its timer is cleared.
unfoldable pub settle : ℕ → Outcome → Connection → Connection
settle id outcome c = record c {
  pending = remove id c.pending;
  settled = c.settled ++ (id, outcome) ∷ [];
}

-- `sendRequest`: the number is taken in either case; without a socket the promise fails at once.
unfoldable pub send_request : String → Connection → Connection
unfolding is_connected
send_request cmd c =
    if is_connected c
    then record c {
      reqid_counter = c.reqid_counter + 1;
      pending = c.pending ++ (c.reqid_counter + 1) ∷ [];
      sent = c.sent ++ request (c.reqid_counter + 1) cmd ∷ [];
    }
    else record c {
      reqid_counter = c.reqid_counter + 1;
      settled = c.settled ++ (c.reqid_counter + 1, not_connected) ∷ [];
    }

-- The 15 second timer of a request that is still pending.
unfoldable pub on_request_timeout : ℕ → Connection → Connection
unfolding contains
on_request_timeout id c = if contains id c.pending then settle id timed_out c else c

abbrev outcome_of : Bool → Outcome
outcome_of true = failed
outcome_of false = resolved

unfoldable pub set_session : Option String → Connection → Connection
set_session none c = c
set_session (some session) c = record c { ws_session_id = session }

abbrev deliver : Response → Connection → Connection
deliver r c = record c { delivered = c.delivered ++ r ∷ [] }

-- The part of `handleResponse` behind the session id.
unfoldable pub correlate : Option ℕ → Response → Connection → Connection
correlate none r c = deliver r c
correlate (some id) r c =
    if contains id c.pending then settle id (outcome_of r.is_error) c else deliver r c

unfoldable pub handle_response : Response → Connection → Connection
handle_response r c = correlate r.reqid r (set_session r.session c)

-- The `message` listener: a batch goes through one by one.
unfoldable pub on_message : List Response → Connection → Connection
on_message [] c = c
on_message (r ∷ rs) c = on_message rs (handle_response r c)

-- `disconnectWebSocket` rejects whatever is pending.
unfoldable pub reject_all : Connection → Connection
reject_all c = record c { pending = []; settled = c.settled ++ map (λ id. (id, cut_off)) c.pending }
