-- ===== src/SlashCommands/Handlers.antt =====
-- frontend/src/lib/slashCommands.ts: the handlers, each with its guards, writes and calls in the
-- order of the source.
use ircfiber_site.Common.{
  ℕ, Bool, true, false, not, ◌&&◌, ◌||◌, Option, none, some, List, [], ◌∷◌, ◌++◌, map,
  if◌then◌else◌, filter, is_empty,
}
use ircfiber_site.Ignore.{Text, same_text}
use ircfiber_site.TabCompletion.Candidates.{strip_prefix}
use ircfiber_site.SlashCommands.{
  codes, User, Buffer, Network, add_ignore, remove_ignores, whois_overlay, ignore_overlay, Session,
  Action, ◌>>◌, throw_if, modify, call, send, Handler, arg, rest, join, is_channel, or_text,
  with_reason, normalize_channel_name,
}

-- `toLowerCase` and `toUpperCase`, the id of the network, `Date.now()`, the label that
-- `generateLabel` makes, and whether the request of `clearBacklog` succeeds.
pub record Environment : Type 0 where
  pub lower : Text → Text
  pub upper : Text → Text
  pub network_id : Text
  pub now : ℕ
  pub label : Text
  pub cleared : Bool

-- `includes`, on a list of texts
unfoldable pub has_text : Text → List Text → Bool
has_text t [] = false
has_text t (x ∷ xs) = same_text x t || has_text t xs

-- `set.add` and `set.delete`
unfoldable pub add_text : Text → List Text → List Text
add_text t xs = if has_text t xs then xs else xs ++ t ∷ []

unfoldable pub delete_text : Text → List Text → List Text
delete_text t xs = filter (λ x. not (same_text x t)) xs

-- `map.set`
unfoldable pub set_key : Text → Text → List (Text × Text) → List (Text × Text)
set_key k v [] = (k, v) ∷ []
set_key k v ((j, w) ∷ m) =
    let more = set_key k v m in if same_text j k then (k, v) ∷ m else (j, w) ∷ more

unfoldable pub on_network : (Network → Network) → Session → Session
on_network f s = record s { network = elim s.network [ none ↦ none | some net ↦ some (f net) ] }

-- The names of a member list under an optimistic change of nick.
unfoldable pub rename_user : Text → Text → User → User
rename_user old_nick new_nick u =
    if same_text (strip_prefix u.nick) old_nick then record u { nick = u.prefix ++ new_nick } else u

unfoldable pub rename_in : Text → Text → Buffer → Buffer
rename_in old_nick new_nick b = record b { users = map (rename_user old_nick new_nick) b.users }

unfoldable pub change_nick : Text → ℕ → Network → Network
change_nick new_nick now net =
    let old_nick = or_text net.current_nick net.nick in
    record net {
      pending_self_nick_change =
          some (record { old_nick = old_nick; new_nick = new_nick; set_at = now });
      current_nick = new_nick;
      current_nick_updated_at = now;
      buffers = map (rename_in old_nick new_nick) net.buffers;
    }

unfoldable pub set_away : Bool → Text → Network → Network
set_away is_away message net = record net { is_away = is_away; away_message = message }

-- The buffer that `find` finds is no longer joined.
unfoldable pub mark_parted : Text → List Buffer → List Buffer
mark_parted name [] = []
mark_parted name (b ∷ bs) =
    let more = mark_parted name bs in
    if same_text b.name name then record b { is_joined = false } ∷ bs else b ∷ more

unfoldable pub find_buffer : (Buffer → Bool) → List Buffer → Option Buffer
find_buffer p [] = none
find_buffer p (b ∷ bs) = let more = find_buffer p bs in if p b then some b else more

unfoldable pub or_else : Option Buffer → Option Buffer → Option Buffer
or_else none o = o
or_else (some b) o = some b

abbrev pub not_in_channel : Text
not_in_channel = codes "Not in a channel"

module _ (env : Environment) where
  unfoldable pub nick : Handler
  nick args target =
      throw_if (is_empty (arg 0 args)) (codes "Usage: /nick <nickname>")
      >> modify (on_network (change_nick (arg 0 args) env.now))
      >> send (codes "NICK " ++ arg 0 args)

  unfoldable pub topic : Handler
  topic args target =
      throw_if (not (is_channel target)) not_in_channel
      >> send
          (codes "TOPIC " ++ (target ++ (if is_empty args then [] else codes " :" ++ join args)))

  unfoldable pub away : Handler
  away args target =
      let message = if is_empty args then codes "Away" else join args in
      send (codes "AWAY :" ++ message) >> modify (on_network (set_away true message))

  unfoldable pub back : Handler
  back args target = send (codes "AWAY") >> modify (on_network (set_away false []))

  unfoldable pub monitor : Handler
  monitor args target =
      let verb = env.upper (arg 0 args) in
      throw_if
        (not (has_text verb (codes "+" ∷ codes "-" ∷ codes "C" ∷ codes "L" ∷ codes "S" ∷ [])))
        (codes "Usage: /monitor +|- <nick,…> | /monitor L|S|C")
      >> throw_if
          ((same_text verb (codes "+") || same_text verb (codes "-")) && is_empty (arg 1 args))
          (codes "Usage: /monitor " ++ (verb ++ codes " <nick,…>"))
      >> send (
          codes "MONITOR "
          ++ (verb ++ (if is_empty (arg 1 args) then [] else codes " " ++ join (rest args))))

  unfoldable pub setname : Handler
  setname args target =
      throw_if (is_empty (arg 0 args)) (codes "Usage: /setname <realname>")
      >> send (codes "SETNAME :" ++ join args)

  unfoldable pub invite : Handler
  invite args target =
      throw_if (is_empty (arg 0 args)) (codes "Usage: /invite <nickname>")
      >> throw_if (not (is_channel target)) not_in_channel
      >> send (codes "INVITE " ++ (arg 0 args ++ (codes " " ++ target)))

  unfoldable pub show_whois : Text → Session → Session
  show_whois nick s = record s {
    pending_whois = set_key (env.lower nick) (or_text s.active_buffer nick) s.pending_whois;
    overlay = some (whois_overlay nick);
  }

  unfoldable pub whois : Handler
  whois args target =
      throw_if (is_empty (arg 0 args)) (codes "Usage: /whois <nickname>")
      >> modify (show_whois (arg 0 args))
      >> send (codes "WHOIS " ++ arg 0 args)

  unfoldable pub network_name : Option Network → Text
  network_name none = []
  network_name (some net) = net.name

  unfoldable pub ignore : Handler
  ignore args target =
      if is_empty (arg 0 args)
      then modify (λ s. record s { overlay = some (ignore_overlay (network_name s.network)) })
      else call (add_ignore (arg 0 args))

  unfoldable pub unignore : Handler
  unignore args target =
      throw_if (is_empty (arg 0 args)) (codes "Usage: /unignore <usermask>")
      >> call (remove_ignores (arg 0 args ∷ []))

  -- The guards of a command on a member of the channel.
  unfoldable pub in_channel : Text → Action → Handler
  in_channel usage a args target =
      throw_if (is_empty (arg 0 args)) usage
      >> throw_if (not (is_channel target)) not_in_channel
      >> a

  unfoldable pub mode_line : Text → Text → Text → Text
  mode_line flag target mask = codes "MODE " ++ (target ++ (flag ++ mask))

  unfoldable pub op : Handler
  op args target =
      in_channel (codes "Usage: /op <nickname>")
        (send (mode_line (codes " +o ") target (arg 0 args))) args target

  unfoldable pub deop : Handler
  deop args target =
      in_channel (codes "Usage: /deop <nickname>")
        (send (mode_line (codes " -o ") target (arg 0 args))) args target

  unfoldable pub voice : Handler
  voice args target =
      in_channel (codes "Usage: /voice <nickname>")
        (send (mode_line (codes " +v ") target (arg 0 args))) args target

  unfoldable pub devoice : Handler
  devoice args target =
      in_channel (codes "Usage: /devoice <nickname>")
        (send (mode_line (codes " -v ") target (arg 0 args))) args target

  unfoldable pub kick_line : Text → List Text → Text
  kick_line target args =
      codes "KICK "
      ++ (target ++ (codes " " ++ (arg 0 args ++ with_reason (codes " :") (join (rest args)))))

  unfoldable pub kick : Handler
  kick args target =
      in_channel (codes "Usage: /kick <nickname> [reason]") (send (kick_line target args)) args
        target

  unfoldable pub ban : Handler
  ban args target =
      in_channel (codes "Usage: /ban <banmask>")
        (send (mode_line (codes " +b ") target (arg 0 args))) args target

  unfoldable pub unban : Handler
  unban args target =
      in_channel (codes "Usage: /unban <banmask>")
        (send (mode_line (codes " -b ") target (arg 0 args))) args target

  unfoldable pub kickban : Handler
  kickban args target =
      in_channel (codes "Usage: /kickban <nickname> [reason]")
        (send (mode_line (codes " +b ") target (arg 0 args ++ codes "!*@*"))
          >> send (kick_line target args))
        args target

  -- The channel that is named, in its normal form, or the one that the command is typed in.
  unfoldable pub named_channel : List Text → Text → Text
  named_channel args target =
      if is_empty (arg 0 args) then target else normalize_channel_name env.lower (arg 0 args)

  -- `${networkId}:${normalizeChannelName(name)}`
  unfoldable pub buffer_key : Text → Text
  buffer_key name = env.network_id ++ (58 ∷ normalize_channel_name env.lower name)

  unfoldable pub banlist : Handler
  banlist args target =
      let chan = named_channel args target in
      throw_if (not (is_channel chan)) not_in_channel
      >> modify (λ s. record s { pending_ban_list = add_text (buffer_key chan) s.pending_ban_list })
      >> send (codes "MODE " ++ (chan ++ codes " +b"))
