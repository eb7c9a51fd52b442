-- ===== src/SlashCommands/Wire.antt =====
-- slashCommands.ts: texts without a line break, and what a session has put on the wire, with a
-- rule for each way to build an action.
use ircfiber_site.Common.{
  ℕ, ◌≡◌, refl, Bool, true, false, Option, none, some, List, [], ◌∷◌, arith, All, All-append, zero,
  suc, ◌||◌, ◌++◌, ◌==◌, if◌then◌else◌,
}
use ircfiber_site.Ignore.{Text}
use ircfiber_site.SlashCommands.{
  arg, rest, join, or_text, with_reason, fold_unit, fold_nick_case, send_raw, send_message,
  set_active_buffer, add_ignore, remove_ignores, archive_buffer, delete_buffer,
  update_route_to_active, initiate_rejoin, request_channel_list, mark_user_disconnected,
  disconnect_network, begin_connect_attempt, reconnect_network, request_sync, set_cleared_at,
  clear_backlog, clear_message_cache, prune_messages_before, Network, Call, Session, Outcome,
  Action, after, ◌>>◌, throw_if, when, modify, reads, call, send, pure, throw, done, thrown,
}
use ircfiber_site.SlashCommands.Handlers.{Environment, on_network, change_nick, set_away}
use ircfiber_site.SlashCommands.Buffers.{own_nick}
use ircfiber_site.SlashCommands.Registry.{}

unfoldable pub has_break : Text → Bool
has_break [] = false
has_break (c ∷ t) = (c == 10 || c == 13) || has_break t

unfoldable pub IsLine : Text → Type 0
IsLine t = has_break t ≡ false

-- Every text that a call takes is a line, whether the call sends it itself (`sendRaw`, the target
-- and the text of `sendMessage`) or hands it to code that makes a line of it, as the pattern of
-- `LIST`, the channel and the key of `JOIN` and the reason of `QUIT`. The label of a message is a
-- number that the client makes.
unfoldable pub IsLineCall : Call → Type 0
IsLineCall (send_raw line) = IsLine line
IsLineCall (send_message target text label) = IsLine target × IsLine text
IsLineCall (set_active_buffer name) = IsLine name
IsLineCall (add_ignore mask) = IsLine mask
IsLineCall (remove_ignores masks) = All IsLine masks
IsLineCall (archive_buffer name) = IsLine name
IsLineCall (delete_buffer name) = IsLine name
IsLineCall update_route_to_active = Unit
IsLineCall (initiate_rejoin channel key) = IsLine channel × IsLine key
IsLineCall (request_channel_list pattern) = IsLine pattern
IsLineCall mark_user_disconnected = Unit
IsLineCall (disconnect_network reason) = IsLine reason
IsLineCall begin_connect_attempt = Unit
IsLineCall reconnect_network = Unit
IsLineCall request_sync = Unit
IsLineCall (set_cleared_at name) = IsLine name
IsLineCall (clear_backlog name) = IsLine name
IsLineCall (clear_message_cache name) = IsLine name
IsLineCall (prune_messages_before name time) = IsLine name

unfoldable pub IsNamed : Option Network → Type 0
IsNamed none = Unit
IsNamed (some net) = IsLine net.nick × IsLine net.current_nick

-- Everything that was sent is a line, and so are the user's nicks.
abbrev pub SendsLines : Session → Type 0
SendsLines s = All IsLineCall s.calls × IsNamed s.network

pub IsLine-append : (s t : Text) → IsLine s → IsLine t → IsLine (s ++ t)
unfolding IsLine has_break
IsLine-append [] t h k = k
IsLine-append (c ∷ s) t h k = ground (arith, IsLine-append s t)

-- A literal is a line by its units.
pub literal-IsLine : (t : Text) → has_break t ≡ false → IsLine t
unfolding IsLine
literal-IsLine t h = h

pub join-IsLine : (args : List Text) → All IsLine args → IsLine (join args)
unfolding IsLine join has_break
join-IsLine [] h = refl
join-IsLine (a ∷ []) h = h.0
join-IsLine (a ∷ b ∷ args) (h, k) =
    IsLine-append a (32 ∷ join (b ∷ args)) h (join-IsLine (b ∷ args) k)

pub arg-IsLine : (i : ℕ) (args : List Text) → All IsLine args → IsLine (arg i args)
unfolding IsLine arg has_break
arg-IsLine i [] h = refl
arg-IsLine zero (a ∷ args) h = h.0
arg-IsLine (suc i) (a ∷ args) h = arg-IsLine i args h.1

pub rest-IsLine : (args : List Text) → All IsLine args → All IsLine (rest args)
unfolding rest
rest-IsLine [] h = tt
rest-IsLine (a ∷ args) h = h.1

pub or_text-IsLine : (a b : Text) → IsLine a → IsLine b → IsLine (or_text a b)
unfolding or_text
or_text-IsLine [] b h k = k
or_text-IsLine (c ∷ a) b h k = h

pub with_reason-IsLine :
    (lead reason : Text) → IsLine lead → IsLine reason → IsLine (with_reason lead reason)
unfolding with_reason IsLine has_break
with_reason-IsLine lead [] h k = refl
with_reason-IsLine lead (c ∷ reason) h k = IsLine-append lead (c ∷ reason) h k

pub fold_nick_case-IsLine : (t : Text) → IsLine t → IsLine (fold_nick_case t)
unfolding fold_nick_case IsLine has_break fold_unit
fold_nick_case-IsLine [] h = refl
fold_nick_case-IsLine (c ∷ t) h = ground (arith, fold_nick_case-IsLine t)

pub if-IsLine : (b : Bool) (x y : Text) → IsLine x → IsLine y → IsLine (if b then x else y)
if-IsLine true x y h k = h
if-IsLine false x y h k = k

pub own_nick-IsLine : (env : Environment) (o : Option Network) → IsNamed o → IsLine (own_nick env o)
unfolding own_nick IsNamed IsLine has_break
own_nick-IsLine env none h = refl
own_nick-IsLine env (some net) h = or_text-IsLine net.current_nick net.nick h.1 h.0

-- An action sends only lines.
unfoldable pub KeepsLines : Action → Type 0
KeepsLines a = (s : Session) → SendsLines s → SendsLines (a s).1

pub pure-KeepsLines : KeepsLines pure
unfolding KeepsLines pure
pure-KeepsLines s h = h

pub throw-KeepsLines : (m : Text) → KeepsLines (throw m)
unfolding KeepsLines throw
throw-KeepsLines m s h = h

pub modify-KeepsLines :
    (f : Session → Session)
    → ((s : Session) → SendsLines s → SendsLines (f s))
    → KeepsLines (modify f)
unfolding KeepsLines modify
modify-KeepsLines f k s h = k s h

pub call-KeepsLines : (c : Call) → IsLineCall c → KeepsLines (call c)
unfolding KeepsLines call modify
call-KeepsLines c k s h = (All-append IsLineCall s.calls (c ∷ []) h.0 (k, tt), h.1)

pub send-KeepsLines : (line : Text) → IsLine line → KeepsLines (send line)
unfolding send IsLineCall
send-KeepsLines line k = call-KeepsLines (send_raw line) k

pub reads-KeepsLines :
    (f : Session → Action)
    → ((t : Session) → IsNamed t.network → KeepsLines (f t))
    → KeepsLines (reads f)
unfolding KeepsLines reads
reads-KeepsLines f k s h = k s h.1 s h

pub if-KeepsLines :
    (b : Bool) (x y : Action) → KeepsLines x → KeepsLines y → KeepsLines (if b then x else y)
if-KeepsLines true x y h k = h
if-KeepsLines false x y h k = k

pub when-KeepsLines : (b : Bool) (a : Action) → KeepsLines a → KeepsLines (when b a)
unfolding when
when-KeepsLines b a h = if-KeepsLines b a pure h pure-KeepsLines

pub throw_if-KeepsLines : (b : Bool) (m : Text) → KeepsLines (throw_if b m)
unfolding throw_if
throw_if-KeepsLines b m = if-KeepsLines b (throw m) pure (throw-KeepsLines m) pure-KeepsLines

pub after-SendsLines :
    (b : Action) (p : Outcome × Session) → KeepsLines b → SendsLines p.1 → SendsLines (after b p).1
unfolding KeepsLines after
after-SendsLines b (done, s) k h = k s h
after-SendsLines b (thrown m, s) k h = h

pub >>-KeepsLines : (a b : Action) → KeepsLines a → KeepsLines b → KeepsLines (a >> b)
unfolding KeepsLines ◌>>◌
>>-KeepsLines a b h k s l = after-SendsLines b (a s) k (h s l)

pub IsNamed-changed :
    (f : Network → Network) (o : Option Network)
    → ((net : Network) → IsNamed (some net) → IsNamed (some (f net)))
    → IsNamed o
    → IsNamed (elim o [ none ↦ none | some net ↦ some (f net) ])
IsNamed-changed f none k n = n
IsNamed-changed f (some net) k n = k net n

pub on_network-SendsLines :
    (f : Network → Network) (s : Session)
    → ((net : Network) → IsNamed (some net) → IsNamed (some (f net)))
    → SendsLines s
    → SendsLines (on_network f s)
unfolding on_network
on_network-SendsLines f s k (h, n) = (h, IsNamed-changed f s.network k n)

pub change_nick-IsNamed :
    (new_nick : Text) (now : ℕ) (net : Network)
    → IsLine new_nick
    → IsNamed (some net)
    → IsNamed (some (change_nick new_nick now net))
unfolding IsNamed change_nick
change_nick-IsNamed new_nick now net h n = (n.0, h)

pub set_away-IsNamed :
    (b : Bool) (message : Text) (net : Network)
    → IsNamed (some net)
    → IsNamed (some (set_away b message net))
unfolding IsNamed set_away
set_away-IsNamed b message net n = n

pub ruleset lines = (
  IsLine-append, literal-IsLine, join-IsLine, arg-IsLine, rest-IsLine, or_text-IsLine,
  with_reason-IsLine, if-IsLine, own_nick-IsLine, pure-KeepsLines, throw-KeepsLines,
  modify-KeepsLines, call-KeepsLines, send-KeepsLines, reads-KeepsLines, if-KeepsLines,
  when-KeepsLines, throw_if-KeepsLines, >>-KeepsLines, on_network-SendsLines, change_nick-IsNamed,
  set_away-IsNamed,
)
