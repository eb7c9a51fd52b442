-- ===== src/SlashCommands/Atomic.antt =====
-- frontend/src/lib/slashCommands.ts: how far a command has got when it throws, with a rule for each
-- way to build an action.
use ircfiber_site.Common.{
  ◌≡◌, refl, ◌∙◌, Bool, true, false, Option, none, some, List, All, if◌then◌else◌,
}
use ircfiber_site.Ignore.{Text}
use ircfiber_site.SlashCommands.{
  Buffer, Network, Call, Session, Outcome, Action, after, ◌>>◌, throw_if, when, modify, reads, call,
  send, pure, throw, Handler, done, thrown,
}
use ircfiber_site.SlashCommands.Handlers.{
  Environment, nick, topic, away, back, monitor, setname, invite, whois, ignore, unignore,
  in_channel, op, deop, voice, devoice, kick, ban, unban, kickban, banlist,
}
use ircfiber_site.SlashCommands.Buffers.{
  raw, list, umode, msg, query, quit, part, me, rejoin, clear, archive, unarchive, delete,
  delete_in, delete_found, reconnect, highlight, unhighlight, notice, service, ns, cs, hs, ms,
}
use ircfiber_site.SlashCommands.Registry.{registered, get_slash_handler, find_handler-All}

-- An action that does not throw.
unfoldable pub IsSafe : Action → Type 0
IsSafe a = (s : Session) → (a s).0 ≡ done

-- An action that writes nothing.
unfoldable pub IsPure : Action → Type 0
IsPure a = (s : Session) → (a s).1 ≡ s

-- An action that has written nothing when it throws.
unfoldable pub IsAtomic : Action → Type 0
IsAtomic a = (s : Session) (message : Text) → (a s).0 ≡ thrown message → (a s).1 ≡ s

pure-IsSafe : IsSafe pure
unfolding IsSafe pure
pure-IsSafe s = refl

modify-IsSafe : (f : Session → Session) → IsSafe (modify f)
unfolding IsSafe modify
modify-IsSafe f s = refl

call-IsSafe : (c : Call) → IsSafe (call c)
unfolding IsSafe call modify
call-IsSafe c s = refl

send-IsSafe : (line : Text) → IsSafe (send line)
unfolding IsSafe send call modify
send-IsSafe line s = refl

when-IsSafe : (b : Bool) (a : Action) → IsSafe a → IsSafe (when b a)
unfolding when
when-IsSafe true a h = h
when-IsSafe false a h = pure-IsSafe

reads-IsSafe : (f : Session → Action) → ((t : Session) → IsSafe (f t)) → IsSafe (reads f)
unfolding IsSafe reads
reads-IsSafe f h s = h s s

after-done : (b : Action) (p : Outcome × Session) → p.0 ≡ done → IsSafe b → (after b p).0 ≡ done
unfolding IsSafe after
after-done b (done, s) e h = h s
after-done b (thrown m, s) e h = cc

>>-IsSafe : (a b : Action) → IsSafe a → IsSafe b → IsSafe (a >> b)
unfolding IsSafe ◌>>◌
>>-IsSafe a b h k s = after-done b (a s) (h s) k

safe-IsAtomic : (a : Action) → IsSafe a → IsAtomic a
unfolding IsSafe IsAtomic
safe-IsAtomic a h s message e = let d = h s in cc

throw-IsAtomic : (m : Text) → IsAtomic (throw m)
unfolding IsAtomic throw
throw-IsAtomic m s message e = refl

throw_if-IsPure : (b : Bool) (m : Text) → IsPure (throw_if b m)
unfolding IsPure throw_if throw pure
throw_if-IsPure true m s = refl
throw_if-IsPure false m s = refl

reads-IsPure : (f : Session → Action) → ((t : Session) → IsPure (f t)) → IsPure (reads f)
unfolding IsPure reads
reads-IsPure f h s = h s s

after-unchanged :
    (b : Action) (p : Outcome × Session) (s : Session) (message : Text)
    → p.1 ≡ s
    → IsAtomic b
    → (after b p).0 ≡ thrown message
    → (after b p).1 ≡ s
unfolding IsAtomic after
after-unchanged b (done, t) s message e h k = h t message k ∙ e
after-unchanged b (thrown m, t) s message e h k = e

-- A check in front of an action.
>>-IsAtomic : (a b : Action) → IsPure a → IsAtomic b → IsAtomic (a >> b)
unfolding IsPure IsAtomic ◌>>◌
>>-IsAtomic a b h k s message = after-unchanged b (a s) s message (h s) k

reads-IsAtomic : (f : Session → Action) → ((t : Session) → IsAtomic (f t)) → IsAtomic (reads f)
unfolding IsAtomic reads
reads-IsAtomic f h s = h s s

if-IsAtomic : (b : Bool) (x y : Action) → IsAtomic x → IsAtomic y → IsAtomic (if b then x else y)
if-IsAtomic true x y h k = h
if-IsAtomic false x y h k = k

ruleset atomic = (
  pure-IsSafe, modify-IsSafe, call-IsSafe, send-IsSafe, when-IsSafe, reads-IsSafe, >>-IsSafe,
  safe-IsAtomic, throw-IsAtomic, throw_if-IsPure, reads-IsPure, >>-IsAtomic, reads-IsAtomic,
  if-IsAtomic,
)

delete_found-IsAtomic :
    (env : Environment) (name : Text) (o : Option Buffer) → IsAtomic (delete_found env name o)
unfolding delete_found
delete_found-IsAtomic env name none = search atomic
delete_found-IsAtomic env name (some b) = search atomic

delete_in-IsAtomic :
    (env : Environment) (name : Text) (o : Option Network) → IsAtomic (delete_in env name o)
unfolding delete_in
delete_in-IsAtomic env name none = search atomic
delete_in-IsAtomic env name (some net) = search (atomic, delete_found-IsAtomic)

-- A handler that is atomic wherever it is called.
IsAtomicHandler : Handler → Type 0
IsAtomicHandler h = (args : List Text) (target : Text) → IsAtomic (h args target)

registered-IsAtomicHandler :
    (env : Environment) → All (λ (r : List Text × Handler). IsAtomicHandler r.1) (registered env)
unfolding registered IsAtomicHandler nick topic away back monitor setname invite whois ignore
    unignore in_channel op deop voice devoice kick ban unban kickban banlist raw list umode msg
    query quit part me rejoin clear archive unarchive delete reconnect highlight unhighlight notice
    service ns cs hs ms
registered-IsAtomicHandler env = search (atomic, delete_in-IsAtomic) depth 9

-- A command that throws leaves the session as it was: it has sent no line, called no function of
-- another module and written nothing, whichever command it is and whatever it is given.
pub get_slash_handler-atomic :
    (env : Environment) (name : Text) (h : Handler) (args : List Text) (target : Text) (s : Session)
    (message : Text)
    → get_slash_handler env name ≡ some h
    → (h args target s).0 ≡ thrown message
    → (h args target s).1 ≡ s
unfolding get_slash_handler IsAtomic IsAtomicHandler
get_slash_handler-atomic env name h args target s message e =
    find_handler-All IsAtomicHandler (env.lower name) (registered env) h
      (registered-IsAtomicHandler env) e args target s message
