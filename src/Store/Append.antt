-- ===== src/Store/Append.antt =====
-- ircStore.svelte.ts, `appendMessage`: a live message joins the rows of its buffer, or replaces the
-- row that stood for it. `processedMessages`, which the views derive from the rows, and
-- `markNetworkSeen` are left out.
-- `lower` and `trim` are `toLowerCase` and `trim`, and `locale_gt` is `localeCompare(…) > 0`.
pub mod Arrives
pub mod Echo
use Prim.Native.String.{String}
use text.Mathlib.Text.{◌==◌ as str_eq}
use ircfiber_site.Common.{
  ℕ, ◌+◌, Bool, true, false, not, ◌&&◌, ◌||◌, Option, none, some, List, [], ◌∷◌, ◌++◌, ltb, ◌==◌,
  if◌then◌else◌, get_elem?,
}
use ircfiber_site.Store.Place.{place}
use ircfiber_site.Store.Message.{IrcMessage, truthy, find_index, set_at, find_last_index, some_row}

-- The rows of the buffer, the optimistic messages by label, oldest first, and the messages that
-- `applyAddMessageUnseen` was called with.
pub record Chat : Type 0 where
  pub rows : List IrcMessage
  pub optimistic : List (String × IrcMessage)
  pub noted : List IrcMessage

-- `optimisticMessages.delete(label)`
unfoldable pub forget : String → List (String × IrcMessage) → List (String × IrcMessage)
forget label [] = []
forget label ((l, m) ∷ o) =
    let rest = forget label o in if str_eq l label then rest else (l, m) ∷ rest

abbrev pub has_label : String → IrcMessage → Bool
has_label label m = str_eq m.label label

-- `if (!msg.label) msg.label = label`
abbrev pub or_label : String → IrcMessage → IrcMessage
or_label label msg = if truthy msg.label then msg else record msg { label = label }

-- `Boolean(m.eid)`
abbrev pub has_eid : Option ℕ → Bool
has_eid none = false
has_eid (some e) = not (e == 0)

-- Both branches at the top: the row with the message's label is replaced.
unfoldable pub by_label : IrcMessage → Chat → Option Chat
by_label msg c =
    if truthy msg.label
    then elim (find_index (has_label msg.label) c.rows) [
      | none ↦ none
      | some i ↦
          some (record c { rows = set_at i msg c.rows; optimistic = forget msg.label c.optimistic })
    ]
    else none

-- `msg.eid && a.eid === msg.eid`, and the same for the msgid
abbrev pub same_eid : IrcMessage → IrcMessage → Bool
same_eid msg m = elim msg.eid [
  | none ↦ false
  | some e ↦ elim m.eid [ none ↦ false | some f ↦ not (e == 0) && (f == e) ]
]

abbrev pub same_msgid : IrcMessage → IrcMessage → Bool
same_msgid msg m = truthy msg.msgid && str_eq m.msgid msg.msgid

-- The two `list.some` tests of one message.
unfoldable pub is_duplicate : IrcMessage → List IrcMessage → Bool
is_duplicate msg rows = some_row (same_eid msg) rows || some_row (same_msgid msg) rows

-- A row like an optimistic one: it has a label, and neither an eid nor a msgid yet.
abbrev pub is_pending_like : IrcMessage → Bool
is_pending_like m = truthy m.label && not (has_eid m.eid) && not (truthy m.msgid)

-- The row at an index, found from the end, is replaced; its label goes to the message.
unfoldable pub replace_row : IrcMessage → ℕ → IrcMessage → Chat → Chat
replace_row msg i existing c = record c {
  rows = set_at i (or_label existing.label msg) c.rows;
  optimistic = if truthy existing.label then forget existing.label c.optimistic else c.optimistic;
}

unfoldable pub replace_found : IrcMessage → Option ℕ → Chat → Option Chat
replace_found msg none c = none
replace_found msg (some i) c = elim (get_elem? c.rows i) [
  | none ↦ none
  | some existing ↦ some (replace_row msg i existing c)
]

module _ (lower trim : String → String) where
  -- The same text, nick and command, up to case and blanks.
  abbrev pub looks_same : IrcMessage → IrcMessage → Bool
  looks_same msg m =
      str_eq (trim m.text) (trim msg.text)
      && str_eq (lower m.nick) (lower msg.nick)
      && str_eq m.command msg.command

  -- The optimistic message that an echo without a label belongs to.
  abbrev pub is_sent_as : IrcMessage → IrcMessage → Bool
  is_sent_as msg o =
      str_eq (trim o.text) (trim msg.text)
      && str_eq (lower o.nick) (lower msg.nick)
      && str_eq o.command "PRIVMSG"

  -- `msg.selfEcho || isSelf`
  abbrev pub is_self : String → IrcMessage → Bool
  is_self cur_nick msg =
      msg.self_echo
      || (truthy msg.nick
          && truthy cur_nick
          && str_eq (lower msg.nick) (lower cur_nick)
          && str_eq msg.command "PRIVMSG")

  -- The loop over the optimistic messages: those that match are deleted, up to the first whose
  -- row is found, which the message replaces.
  unfoldable pub echo_loop : IrcMessage → List (String × IrcMessage) → Chat → Chat × Bool
  echo_loop msg [] c = (c, false)
  echo_loop msg ((label, o) ∷ os) c =
      let forgotten = record c { optimistic = forget label c.optimistic } in
      let skipped = echo_loop msg os c in
      let further = echo_loop msg os forgotten in
      if is_sent_as msg o
      then elim (find_index (has_label label) c.rows) [
        | none ↦ further
        | some i ↦ (record forgotten { rows = set_at i (or_label label msg) c.rows }, true)
      ]
      else skipped

  -- `isPendingLike || isRecent`, for a row that looks the same
  abbrev pub is_synthetic : ℕ → IrcMessage → IrcMessage → Bool
  is_synthetic now msg m =
      looks_same msg m && (is_pending_like m || (m.t == 0 || ltb now (m.t + 30_000)))

  -- The fallback for the sender's own messages: whether one of them was replaced.
  unfoldable pub by_echo : ℕ → IrcMessage → Chat → Chat × Bool
  by_echo now msg c =
      let (looped, found) = echo_loop msg c.optimistic c in
      if found
      then (looped, true)
      else elim (replace_found msg (find_last_index (is_synthetic now msg) looped.rows) looped) [
        | none ↦ (looped, false)
        | some replaced ↦ (replaced, true)
      ]

  -- The last fallback: a pending row that looks the same, within 30 seconds.
  abbrev pub is_near_pending : IrcMessage → IrcMessage → Bool
  is_near_pending msg m =
      is_pending_like m
      && looks_same msg m
      && (ltb m.t (msg.t + 30_000) && ltb msg.t (m.t + 30_000))

-- A message that stands for no other row.
unfoldable pub place_row : (String → String → Bool) → IrcMessage → Chat → Chat
place_row locale_gt msg c = record c {
  rows = place locale_gt msg c.rows;
  noted = c.noted ++ msg ∷ [];
}

module _ (lower trim : String → String) (locale_gt : String → String → Bool) where
  -- From the tests for duplicates on.
  unfoldable pub append_new : IrcMessage → Chat → Chat
  append_new msg c =
      if is_duplicate msg c.rows
      then c
      else elim (replace_found msg (find_last_index (is_near_pending lower trim msg) c.rows) c) [
        | none ↦ place_row locale_gt msg c
        | some replaced ↦ replaced
      ]

  -- From the tests for the sender's own messages on.
  unfoldable pub append_unlabelled : ℕ → String → IrcMessage → Chat → Chat
  append_unlabelled now cur_nick msg c =
      let (echoed, found) = by_echo lower trim now msg c in
      if is_self lower trim cur_nick msg
      then (if found then echoed else append_new msg echoed)
      else append_new msg c

  -- `appendMessage`
  unfoldable pub append_message : ℕ → String → IrcMessage → Chat → Chat
  append_message now cur_nick msg c = elim (by_label msg c) [
    | some replaced ↦ replaced
    | none ↦
        append_unlabelled now cur_nick msg
          (if truthy msg.label then record c { optimistic = forget msg.label c.optimistic } else c)
  ]
