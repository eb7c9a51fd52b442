-- ===== src/SlashCommands/Tests.antt =====
-- A few commands run, and the theorems at them.
use ircfiber_site.Common.{◌≡◌, refl, true, false, not, ◌&&◌, ◌||◌, none, some, List, [], ◌∷◌, map}
use ircfiber_site.Ignore.{Text, same_text}
use ircfiber_site.TabCompletion.Candidates.{
  is_prefix_unit, strip_run, before_bang, cut_at_bang, strip_prefix,
}
use ircfiber_site.SlashCommands.{
  codes, Buffer, Network, send_raw, Session, pure, throw, after, ◌>>◌, throw_if, modify, call, send,
  arg, rest, join, is_channel, or_text, with_reason, normalize_channel_name,
}
use ircfiber_site.SlashCommands.Handlers.{
  Environment, has_text, add_text, on_network, rename_user, rename_in, change_nick, mark_parted,
  not_in_channel, nick, in_channel, mode_line, kick_line, kickban, named_channel, buffer_key,
}
use ircfiber_site.SlashCommands.Buffers.{leave, part, highlight, unhighlight}
use ircfiber_site.SlashCommands.Registry.{find_handler, registered, get_slash_handler}
use ircfiber_site.SlashCommands.Atomic.{get_slash_handler-atomic}
use ircfiber_site.SlashCommands.Wire.{has_break, IsLine, IsNamed, SendsLines}
use ircfiber_site.SlashCommands.Lines.{get_slash_handler-lines}
use ircfiber_site.SlashCommands.Highlights.{IsUnique, highlight-unhighlight}

abbrev here : Environment
here = record {
  lower = λ t. t;
  upper = λ t. t;
  network_id = codes "n1";
  now = 5;
  label = codes "label";
  cleared = true;
}

abbrev zod : Buffer
zod = record {
  name = codes "#Zod";
  is_joined = true;
  users = record { nick = codes "@me"; prefix = codes "@" } ∷ [];
}

abbrev fiber : Network
fiber = record {
  name = codes "Fiber";
  nick = codes "me";
  current_nick = codes "me";
  current_nick_updated_at = 0;
  pending_self_nick_change = none;
  host = codes "irc.example.org";
  is_away = false;
  away_message = [];
  buffers = zod ∷ [];
}

abbrev quiet : Session
quiet = record {
  network = some fiber;
  active_buffer = codes "#Zod";
  pending_whois = [];
  pending_ban_list = [];
  overlay = none;
  parted = [];
  archived = [];
  highlight_words = codes "fiber" ∷ [];
  calls = [];
}

abbrev amy : List Text
amy = codes "amy" ∷ []

banned_and_kicked :
    (kickban here amy (codes "#Zod") quiet).1.calls
    ≡ send_raw (codes "MODE #Zod +b amy!*@*") ∷ send_raw (codes "KICK #Zod amy") ∷ []
unfolding kickban in_channel mode_line kick_line ◌>>◌ after throw throw_if pure send call modify arg
    rest join is_channel with_reason
banned_and_kicked = refl

-- The member list is renamed at once.
renamed :
    (nick here amy [] quiet).1.network
    ≡ some (record fiber {
      current_nick = codes "amy";
      current_nick_updated_at = 5;
      pending_self_nick_change =
          some (record { old_nick = codes "me"; new_nick = codes "amy"; set_at = 5 });
      buffers = record zod { users = record { nick = codes "@amy"; prefix = codes "@" } ∷ [] } ∷ [];
    })
unfolding nick ◌>>◌ after throw throw_if pure send call modify arg on_network change_nick rename_in
    rename_user or_text strip_prefix strip_run before_bang cut_at_bang is_prefix_unit same_text
renamed = refl

kickban_found : get_slash_handler here (codes "kb") ≡ some (kickban here)
unfolding get_slash_handler find_handler registered has_text same_text
kickban_found = refl

-- In a query there is nobody to kick.
get_slash_handler-atomic_example : (kickban here amy (codes "bob") quiet).1 ≡ quiet
unfolding kickban in_channel ◌>>◌ after throw throw_if pure arg is_channel
get_slash_handler-atomic_example =
    get_slash_handler-atomic here (codes "kb") (kickban here) amy (codes "bob") quiet not_in_channel
      kickban_found refl

get_slash_handler-lines_example : SendsLines (kickban here amy (codes "#Zod") quiet).1
unfolding IsLine has_break IsNamed
get_slash_handler-lines_example =
    get_slash_handler-lines here (λ t h. h) (λ t h. h) (codes "kb") (kickban here) amy
      (codes "#Zod") quiet kickban_found (refl, tt) refl (tt, (refl, refl))

highlight-unhighlight_example :
    let on = (highlight here amy [] quiet).1.highlight_words in
    let off = (unhighlight here amy [] quiet).1.highlight_words in
    IsUnique on
    × IsUnique off
    × ((w : Text)
        → has_text w on ≡ (has_text w (codes "fiber" ∷ []) || has_text w (map here.lower amy)))
    × ((w : Text)
        → has_text w off
          ≡ (has_text w (codes "fiber" ∷ []) && not (has_text w (map here.lower amy))))
unfolding has_text
highlight-unhighlight_example = highlight-unhighlight here amy [] quiet refl (refl, tt)

-- A buffer whose name is not in its normal form is not marked as parted when it is named.
parted_by_name :
    (part (record here { lower = λ t. codes "#zod" }) (codes "#Zod" ∷ []) [] quiet).1.network
    ≡ some fiber
unfolding part leave ◌>>◌ after throw throw_if pure send call modify arg rest join is_channel
    with_reason named_channel normalize_channel_name on_network mark_parted same_text buffer_key
    add_text has_text
parted_by_name = refl
