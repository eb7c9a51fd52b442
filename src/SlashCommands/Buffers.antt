-- ===== src/SlashCommands/Buffers.antt =====
-- frontend/src/lib/slashCommands.ts: the handlers of messages, buffers, connections and highlight
-- words.
use ircfiber_site.Common.{
  Bool, true, false, not, ◌&&◌, ◌||◌, Option, none, some, List, [], ◌∷◌, ◌++◌, map, ltb,
  if◌then◌else◌, length, is_empty,
}
use ircfiber_site.Ignore.{Text, same_text}
use ircfiber_site.SlashCommands.{
  codes, Buffer, Network, send_message, set_active_buffer, archive_buffer, delete_buffer,
  update_route_to_active, initiate_rejoin, request_channel_list, mark_user_disconnected,
  disconnect_network, begin_connect_attempt, reconnect_network, request_sync, set_cleared_at,
  clear_backlog, clear_message_cache, prune_messages_before, Session, Action, pure, throw, ◌>>◌,
  throw_if, when, modify, reads, call, send, Handler, arg, rest, join, is_channel, or_text,
  with_reason, normalize_channel_name,
}
use ircfiber_site.SlashCommands.Handlers.{
  Environment, add_text, delete_text, on_network, mark_parted, find_buffer, or_else, not_in_channel,
  named_channel, buffer_key,
}

-- `if (!highlightWords.includes(lower)) highlightWords.push(lower)`, for every word.
unfoldable pub add_words : List Text → List Text → List Text
add_words [] words = words
add_words (w ∷ ws) words = add_words ws (add_text w words)

-- `splice` of the first index at which the word is, where there is one.
unfoldable pub remove_word : Text → List Text → List Text
remove_word w [] = []
remove_word w (x ∷ xs) = let more = remove_word w xs in if same_text x w then xs else x ∷ more

unfoldable pub remove_words : List Text → List Text → List Text
remove_words [] words = words
remove_words (w ∷ ws) words = remove_words ws (remove_word w words)

-- `words.join(', ')`
unfoldable pub join_words : List Text → Text
join_words [] = []
join_words (a ∷ []) = a
join_words (a ∷ b ∷ ws) = a ++ (codes ", " ++ join_words (b ∷ ws))

unfoldable pub no_words_message : List Text → Text
no_words_message words =
    if is_empty words
    then codes "No custom highlight words"
    else codes "Highlight words: " ++ join_words words

abbrev pub server_buffer : Text
server_buffer = codes "_server"

module _ (env : Environment) where
  unfoldable pub raw : Handler
  raw args target = throw_if (is_empty args) (codes "Usage: /raw <command>") >> send (join args)

  unfoldable pub list : Handler
  list args target = call (request_channel_list (join args))

  unfoldable pub own_nick : Option Network → Text
  own_nick none = []
  own_nick (some net) = or_text net.current_nick net.nick

  unfoldable pub umode : Handler
  umode args target = reads (λ s.
      throw_if (is_empty (own_nick s.network)) (codes "Not connected")
      >> send (
          codes "MODE "
          ++ (own_nick s.network ++ (if is_empty args then [] else codes " " ++ join args))))

  unfoldable pub is_some : Option Network → Bool
  is_some none = false
  is_some (some net) = true

  unfoldable pub msg : Handler
  msg args target =
      throw_if (ltb (length args) 2) (codes "Usage: /msg <nick> <message>")
      >> reads (λ s. when (is_some s.network) (call (set_active_buffer (arg 0 args))))
      >> send (codes "PRIVMSG " ++ (arg 0 args ++ (codes " :" ++ join (rest args))))

  unfoldable pub query : Handler
  query args target =
      throw_if (is_empty (arg 0 args)) (codes "Usage: /query <nick>")
      >> call (set_active_buffer (arg 0 args))

  unfoldable pub is_fiber : Option Network → Bool
  is_fiber none = false
  is_fiber (some net) = same_text net.host (codes "irc.ircfiber.com")

  unfoldable pub quit : Handler
  quit args target = reads (λ s.
      throw_if (is_fiber s.network) (codes "The IRC Fiber server cannot be disconnected")
      >> call mark_user_disconnected
      >> call (disconnect_network (join args)))

  unfoldable pub leave : Text → Session → Session
  leave chan s =
      on_network (λ net. record net { buffers = mark_parted chan net.buffers })
        (record s { parted = add_text (buffer_key env chan) s.parted })

  unfoldable pub part : Handler
  part args target =
      let chan = named_channel env args target in
      let reason = if is_empty (arg 0 args) then join args else join (rest args) in
      throw_if (not (is_channel chan)) not_in_channel
      >> send (codes "PART " ++ (chan ++ with_reason (codes " :") reason))
      >> modify (leave chan)

  unfoldable pub me : Handler
  me args target =
      throw_if (is_empty args) (codes "Usage: /me <message>")
      >> throw_if (is_empty target) (codes "No target")
      >> call (send_message target ((1 ∷ codes "ACTION ") ++ (join args ++ (1 ∷ []))) env.label)

  -- A first word that is no channel is the key of the channel that the command is typed in.
  unfoldable pub rejoin : Handler
  rejoin args target =
      let named = normalize_channel_name env.lower (arg 0 args) in
      let explicit_chan = not (is_empty (arg 0 args)) && is_channel named in
      let chan = if explicit_chan then named else target in
      throw_if (not (is_channel chan)) not_in_channel
      >> call (initiate_rejoin chan (if explicit_chan then arg 1 args else arg 0 args))

  unfoldable pub clear : Handler
  clear args target =
      let buf = or_text target server_buffer in
      call (set_cleared_at buf)
      >> call (clear_backlog buf)
      >> when env.cleared
          (call (clear_message_cache buf) >> call (prune_messages_before buf env.now))

  unfoldable pub archive : Handler
  archive args target =
      throw_if (is_empty target || same_text target server_buffer)
        (codes "Cannot archive server buffer")
      >> call (archive_buffer target)

  unfoldable pub unarchive : Handler
  unarchive args target =
      throw_if (is_empty (arg 0 args)) (codes "Usage: /unarchive <#channel>")
      >> modify (λ s. record s { archived = delete_text (buffer_key env (arg 0 args)) s.archived })

  -- The buffer with that very name, or the first one with that name folded.
  unfoldable pub find_buffer_by_name : Text → List Buffer → Option Buffer
  find_buffer_by_name name buffers = or_else (find_buffer (λ b. same_text b.name name) buffers) (
      find_buffer
        (λ b.
          same_text b.name name
          || same_text (normalize_channel_name env.lower b.name)
              (normalize_channel_name env.lower name))
        buffers)

  unfoldable pub delete_found : Text → Option Buffer → Action
  delete_found name none = throw (codes "No such buffer: " ++ name)
  delete_found name (some buf) =
      when buf.is_joined (send (codes "PART " ++ name))
      >> call (delete_buffer name)
      >> call update_route_to_active

  unfoldable pub delete_in : Text → Option Network → Action
  delete_in name none = pure
  delete_in name (some net) =
      throw_if (is_empty name || same_text name server_buffer) (codes "Cannot delete server buffer")
      >> delete_found name (find_buffer_by_name name net.buffers)

  unfoldable pub delete : Handler
  delete args target = reads (λ s. delete_in (named_channel env args target) s.network)

  unfoldable pub reconnect : Handler
  reconnect args target = call begin_connect_attempt >> call reconnect_network >> call request_sync

  unfoldable pub highlight : Handler
  highlight args target =
      reads (λ s. throw_if (is_empty args) (no_words_message s.highlight_words))
      >> modify
          (λ s. record s { highlight_words = add_words (map env.lower args) s.highlight_words })

  unfoldable pub unhighlight : Handler
  unhighlight args target =
      throw_if (is_empty args) (codes "Usage: /unhighlight <word>")
      >> modify
          (λ s. record s { highlight_words = remove_words (map env.lower args) s.highlight_words })

  unfoldable pub notice : Handler
  notice args target =
      throw_if (ltb (length args) 2) (codes "Usage: /notice <target> <message>")
      >> send (codes "NOTICE " ++ (arg 0 args ++ (codes " :" ++ join (rest args))))

  unfoldable pub service : Text → Text → Handler
  service usage lead args target = throw_if (is_empty args) usage >> send (lead ++ join args)

  unfoldable pub ns : Handler
  ns = service (codes "Usage: /ns <command> — NickServ help: /ns help") (codes "PRIVMSG NickServ :")

  unfoldable pub cs : Handler
  cs = service (codes "Usage: /cs <command> — ChanServ help: /cs help") (codes "PRIVMSG ChanServ :")

  unfoldable pub hs : Handler
  hs = service (codes "Usage: /hs <command> — HostServ help: /hs help") (codes "PRIVMSG HostServ :")

  unfoldable pub ms : Handler
  ms = service (codes "Usage: /ms <command> — MemoServ help: /ms help") (codes "PRIVMSG MemoServ :")
