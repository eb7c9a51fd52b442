-- ===== src/SlashCommands.antt =====
-- frontend/src/lib/slashCommands.ts: what the slash commands read and write, and how one fails. A
-- text is the list of its UTF-16 code units. The session has the one network that a command is
-- given, the state that a command writes itself, and the log of its calls into other modules, in
-- their order. Entries of pending requests are without the network's id and the time.
pub mod Handlers
pub mod Buffers
pub mod Registry
pub mod Atomic
pub mod Wire
pub mod Lines
pub mod Highlights
mod Tests
use Prim.Native.Char.{code}
use Prim.Native.String.{String}
use ircfiber_site.Common.{
  ℕ, zero, suc, ◌+◌, Bool, false, not, ◌&&◌, ◌||◌, Option, List, [], ◌∷◌, ◌++◌, map, leb, ◌==◌,
  if◌then◌else◌, is_empty,
}
use ircfiber_site.Ignore.{Text, same_text}

-- The code units of a literal of the source.
abbrev pub codes : String → Text
codes String.[] = []
codes (String.◌∷◌ c s) = code c ∷ codes s

pub record User : Type 0 where
  pub nick : Text
  pub prefix : Text

pub record Buffer : Type 0 where
  pub name : Text
  pub is_joined : Bool
  pub users : List User

pub record NickChange : Type 0 where
  pub old_nick : Text
  pub new_nick : Text
  pub set_at : ℕ

pub record Network : Type 0 where
  pub name : Text
  pub nick : Text
  pub current_nick : Text
  pub current_nick_updated_at : ℕ
  pub pending_self_nick_change : Option NickChange
  pub host : Text
  pub is_away : Bool
  pub away_message : Text
  pub buffers : List Buffer

-- A call of a function of another module, by its name.
pub data Call : Type 0 where
  send_raw : Text → Call
  send_message : Text → Text → Text → Call
  set_active_buffer : Text → Call
  add_ignore : Text → Call
  remove_ignores : List Text → Call
  archive_buffer : Text → Call
  delete_buffer : Text → Call
  update_route_to_active : Call
  initiate_rejoin : Text → Text → Call
  request_channel_list : Text → Call
  mark_user_disconnected : Call
  disconnect_network : Text → Call
  begin_connect_attempt : Call
  reconnect_network : Call
  request_sync : Call
  set_cleared_at : Text → Call
  clear_backlog : Text → Call
  clear_message_cache : Text → Call
  prune_messages_before : Text → ℕ → Call

pub data Overlay : Type 0 where
  whois_overlay : Text → Overlay
  ignore_overlay : Text → Overlay

pub record Session : Type 0 where
  pub network : Option Network
  pub active_buffer : Text
  pub pending_whois : List (Text × Text)
  pub pending_ban_list : List Text
  pub overlay : Option Overlay
  pub parted : List Text
  pub archived : List Text
  pub highlight_words : List Text
  pub calls : List Call

pub data Outcome : Type 0 where
  done : Outcome
  thrown : Text → Outcome

-- What was written before a throw stays written.
abbrev pub Action : Type 0
Action = Session → Outcome × Session

unfoldable pub pure : Action
pure s = (done, s)

unfoldable pub throw : Text → Action
throw message s = (thrown message, s)

infixr 5 ◌>>◌
unfoldable pub after : Action → Outcome × Session → Outcome × Session
after b (done, s) = b s
after b (thrown message, s) = (thrown message, s)

unfoldable pub ◌>>◌ : Action → Action → Action
(a >> b) s = after b (a s)

unfoldable pub throw_if : Bool → Text → Action
throw_if wrong message = if wrong then throw message else pure

unfoldable pub when : Bool → Action → Action
when test a = if test then a else pure

unfoldable pub modify : (Session → Session) → Action
modify f s = (done, f s)

unfoldable pub reads : (Session → Action) → Action
reads f s = f s s

unfoldable pub call : Call → Action
call c = modify (λ s. record s { calls = s.calls ++ c ∷ [] })

unfoldable pub send : Text → Action
send line = call (send_raw line)

-- A command is given the words behind its name and the name of the buffer it is typed in.
abbrev pub Handler : Type 0
Handler = List Text → Text → Action

-- `args[i]`, where a word that is missing is as falsy as an empty one
unfoldable pub arg : ℕ → List Text → Text
arg i [] = []
arg zero (a ∷ args) = a
arg (suc i) (a ∷ args) = arg i args

-- `args.slice(1)`
unfoldable pub rest : List Text → List Text
rest [] = []
rest (a ∷ args) = args

-- `args.join(' ')`
unfoldable pub join : List Text → Text
join [] = []
join (a ∷ []) = a
join (a ∷ b ∷ args) = a ++ (32 ∷ join (b ∷ args))

-- `target.startsWith('#')`
unfoldable pub is_channel : Text → Bool
is_channel [] = false
is_channel (c ∷ _) = c == 35

-- `a || b`
unfoldable pub or_text : Text → Text → Text
or_text [] b = b
or_text (c ∷ a) b = c ∷ a

-- What stands in front of a reason that is there.
unfoldable pub with_reason : Text → Text → Text
with_reason lead [] = []
with_reason lead (c ∷ reason) = lead ++ (c ∷ reason)

-- One unit of `foldNickCase`.
unfoldable pub fold_unit : ℕ → ℕ
fold_unit c =
    if leb 65 c && leb c 90
    then c + 32
    else if c == 91
    then 123
    else if c == 93
    then 125
    else if c == 92
    then 124
    else if c == 94
    then 126
    else c

unfoldable pub fold_nick_case : Text → Text
fold_nick_case = map fold_unit

unfoldable pub normalize_channel_name : (Text → Text) → Text → Text
normalize_channel_name lower name =
    if is_empty name || same_text name (codes "_server")
    then name
    else if not (is_channel name)
    then fold_nick_case name
    else lower name
