-- ===== src/SlashCommands/Registry.antt =====
-- frontend/src/lib/slashCommands.ts: the registered commands by their names.
use mathlib.Core.Path.{subst}
use ircfiber_site.Common.{
  ◌≡◌, Bool, true, false, Option, none, some, List, [], ◌∷◌, if◌then◌else◌, All,
}
use ircfiber_site.Ignore.{Text}
use ircfiber_site.SlashCommands.{codes, Handler}
use ircfiber_site.SlashCommands.Handlers.{
  Environment, has_text, nick, topic, away, back, monitor, setname, invite, whois, ignore, unignore,
  op, deop, voice, devoice, kick, ban, unban, kickban, banlist,
}
use ircfiber_site.SlashCommands.Buffers.{
  raw, list, umode, msg, query, quit, part, me, rejoin, clear, archive, unarchive, delete,
  reconnect, highlight, unhighlight, notice, ns, cs, hs, ms,
}

abbrev pub Registered : Type 0
Registered = List (List Text × Handler)

-- `commands.get(name)`: no name is registered twice.
unfoldable pub find_handler : Text → Registered → Option Handler
find_handler name [] = none
find_handler name ((names, h) ∷ hs) =
    let later = find_handler name hs in if has_text name names then some h else later

module _ (env : Environment) where
  unfoldable pub registered : Registered
  registered =
      (codes "nick" ∷ [], nick env)
      ∷ (codes "topic" ∷ [], topic env)
      ∷ (codes "away" ∷ [], away env)
      ∷ (codes "back" ∷ [], back env)
      ∷ (codes "monitor" ∷ [], monitor env)
      ∷ (codes "setname" ∷ [], setname env)
      ∷ (codes "invite" ∷ [], invite env)
      ∷ (codes "whois" ∷ codes "wi" ∷ [], whois env)
      ∷ (codes "ignore" ∷ [], ignore env)
      ∷ (codes "unignore" ∷ [], unignore env)
      ∷ (codes "op" ∷ [], op env)
      ∷ (codes "deop" ∷ [], deop env)
      ∷ (codes "voice" ∷ [], voice env)
      ∷ (codes "devoice" ∷ [], devoice env)
      ∷ (codes "kick" ∷ [], kick env)
      ∷ (codes "ban" ∷ [], ban env)
      ∷ (codes "unban" ∷ [], unban env)
      ∷ (codes "kickban" ∷ codes "kb" ∷ [], kickban env)
      ∷ (codes "banlist" ∷ codes "bans" ∷ [], banlist env)
      ∷ (codes "raw" ∷ codes "quote" ∷ [], raw env)
      ∷ (codes "list" ∷ [], list env)
      ∷ (codes "umode" ∷ [], umode env)
      ∷ (codes "msg" ∷ [], msg env)
      ∷ (codes "query" ∷ [], query env)
      ∷ (codes "quit" ∷ codes "disconnect" ∷ [], quit env)
      ∷ (codes "part" ∷ codes "leave" ∷ codes "pa" ∷ codes "p" ∷ codes "l" ∷ [], part env)
      ∷ (codes "me" ∷ [], me env)
      ∷ (codes "cycle" ∷ codes "hop" ∷ codes "rejoin" ∷ [], rejoin env)
      ∷ (codes "clear" ∷ [], clear env)
      ∷ (codes "archive" ∷ codes "close" ∷ codes "wc" ∷ codes "a" ∷ [], archive env)
      ∷ (codes "unarchive" ∷ [], unarchive env)
      ∷ (codes "delete" ∷ codes "wd" ∷ codes "rm" ∷ [], delete env)
      ∷ (codes "reconnect" ∷ [], reconnect env)
      ∷ (codes "highlight" ∷ codes "hilight" ∷ [], highlight env)
      ∷ (
        codes "unhighlight" ∷ codes "unhilight" ∷ codes "dehighlight" ∷ codes "dehilight" ∷ [],
        unhighlight env,
      )
      ∷ (codes "notice" ∷ [], notice env)
      ∷ (codes "ns" ∷ codes "nickserv" ∷ [], ns env)
      ∷ (codes "cs" ∷ codes "chanserv" ∷ [], cs env)
      ∷ (codes "hs" ∷ codes "hostserv" ∷ [], hs env)
      ∷ (codes "ms" ∷ codes "memoserv" ∷ [], ms env)
      ∷ []

  unfoldable pub get_slash_handler : Text → Option Handler
  get_slash_handler name = find_handler (env.lower name) registered

module _ (P : Handler → Type 0) where
  found-All :
      (b : Bool) (later : Option Handler) (g h : Handler)
      → P g
      → (later ≡ some h → P h)
      → (if b then some g else later) ≡ some h
      → P h
  found-All true later g h p k e = subst P (cc) p
  found-All false later g h p k e = k e

  -- What holds of every registered handler holds of the one that is found.
  pub find_handler-All :
      (name : Text) (rs : Registered) (h : Handler)
      → All (λ (r : List Text × Handler). P r.1) rs
      → find_handler name rs ≡ some h
      → P h
  unfolding find_handler
  find_handler-All name [] h ps e = cc
  find_handler-All name ((names, g) ∷ rs) h (p, ps) e =
      found-All (has_text name names) (find_handler name rs) g h p (find_handler-All name rs h ps) e
