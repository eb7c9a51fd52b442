-- ===== src/SlashCommands/Lines.antt =====
-- frontend/src/lib/slashCommands.ts: what the registered commands put on the wire.
use ircfiber_site.Common.{◌≡◌, Option, none, some, List, All}
use ircfiber_site.Ignore.{Text}
use ircfiber_site.SlashCommands.{normalize_channel_name, Buffer, Network, Session, Handler}
use ircfiber_site.SlashCommands.Handlers.{
  Environment, mark_parted, add_text, buffer_key, mode_line, kick_line, named_channel, show_whois,
  nick, topic, away, back, monitor, setname, invite, whois, ignore, unignore, in_channel, op, deop,
  voice, devoice, kick, ban, unban, kickban, banlist,
}
use ircfiber_site.SlashCommands.Buffers.{
  leave, raw, list, umode, msg, query, quit, part, me, rejoin, clear, archive, unarchive, delete,
  delete_in, delete_found, reconnect, highlight, unhighlight, notice, service, ns, cs, hs, ms,
}
use ircfiber_site.SlashCommands.Registry.{registered, get_slash_handler, find_handler-All}
use ircfiber_site.SlashCommands.Wire.{
  has_break, IsLine, IsLineCall, IsNamed, SendsLines, KeepsLines, lines, fold_nick_case-IsLine,
  if-IsLine, on_network-SendsLines,
}

-- A handler that sends only lines where it is given lines.
unfoldable pub SendsOnlyLines : Handler → Type 0
SendsOnlyLines h =
    (args : List Text) (target : Text)
    → All IsLine args
    → IsLine target
    → KeepsLines (h args target)

module _ (env : Environment) (lower-IsLine : (t : Text) → IsLine t → IsLine (env.lower t))
    (upper-IsLine : (t : Text) → IsLine t → IsLine (env.upper t)) where
  normalize_channel_name-IsLine :
      (name : Text) → IsLine name → IsLine (normalize_channel_name env.lower name)
  unfolding normalize_channel_name
  normalize_channel_name-IsLine name h = search (if-IsLine, fold_nick_case-IsLine, lower-IsLine)

  named_channel-IsLine :
      (args : List Text) (target : Text)
      → All IsLine args
      → IsLine target
      → IsLine (named_channel env args target)
  unfolding named_channel
  named_channel-IsLine args target h k = search (lines, normalize_channel_name-IsLine)

  kick_line-IsLine :
      (target : Text) (args : List Text)
      → All IsLine args
      → IsLine target
      → IsLine (kick_line env target args)
  unfolding kick_line has_break
  kick_line-IsLine target args h k = search lines depth 9

  leave-SendsLines : (chan : Text) (s : Session) → SendsLines s → SendsLines (leave env chan s)
  unfolding leave IsNamed
  leave-SendsLines chan s h =
      on_network-SendsLines (λ net. record net { buffers = mark_parted chan net.buffers })
        (record s { parted = add_text (buffer_key env chan) s.parted }) (λ net n. n) h

  delete_found-KeepsLines :
      (name : Text) (o : Option Buffer) → IsLine name → KeepsLines (delete_found env name o)
  unfolding delete_found has_break IsLineCall
  delete_found-KeepsLines name none h = search lines
  delete_found-KeepsLines name (some b) h = search lines depth 12

  delete_in-KeepsLines :
      (name : Text) (o : Option Network) → IsLine name → KeepsLines (delete_in env name o)
  unfolding delete_in
  delete_in-KeepsLines name none h = search lines
  delete_in-KeepsLines name (some net) h = search (lines, delete_found-KeepsLines)

  registered-SendsOnlyLines : All (λ (r : List Text × Handler). SendsOnlyLines r.1) (registered env)
  unfolding registered SendsOnlyLines nick topic away back monitor setname invite whois ignore
      unignore in_channel op deop voice devoice kick ban unban kickban banlist raw list umode msg
      query quit part me rejoin clear archive unarchive delete reconnect highlight unhighlight
      notice service ns cs hs ms mode_line show_whois has_break IsLineCall
  registered-SendsOnlyLines =
      search
        (
          lines, upper-IsLine, named_channel-IsLine, kick_line-IsLine, leave-SendsLines,
          delete_in-KeepsLines, normalize_channel_name-IsLine,
        )
        depth 12

-- No command makes a call with a line break in a text that it sends or hands on, the label of a
-- message aside: not a line of `sendRaw`, not the target or the text of `sendMessage`, not the
-- pattern of `/list`, the channel and the key of `/rejoin` or the reason of `/quit`, and no mask and
-- no name of a buffer. This is so if the words, the target and the user's own nicks hold no line
-- break, and lower and upper case bring none in; the user's nicks still hold none afterwards.
pub get_slash_handler-lines :
    (env : Environment)
    → ((t : Text) → IsLine t → IsLine (env.lower t))
    → ((t : Text) → IsLine t → IsLine (env.upper t))
    → (name : Text) (h : Handler) (args : List Text) (target : Text) (s : Session)
    → get_slash_handler env name ≡ some h
    → All IsLine args
    → IsLine target
    → SendsLines s
    → SendsLines (h args target s).1
unfolding get_slash_handler SendsOnlyLines KeepsLines
get_slash_handler-lines env l u name h args target s e a t =
    find_handler-All SendsOnlyLines (env.lower name) (registered env) h
      (registered-SendsOnlyLines env l u) e args target a t s
