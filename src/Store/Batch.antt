-- ===== src/Store/Batch.antt =====
-- ircStore.svelte.ts, `batchAppendMessages`: the live messages of one flush join the rows of their
-- buffer.
pub mod Compare
pub mod Drop
use Prim.Native.String.{String}
use text.Mathlib.Text.{◌==◌ as str_eq}
use ircfiber_site.Common.{
  ℕ, ◌-◌, Bool, true, false, ◌&&◌, ◌||◌, Option, none, some, List, [], ◌∷◌, ◌++◌, ltb, ◌==◌,
  if◌then◌else◌, length, get_elem?,
}
use ircfiber_site.Store.Message.{IrcMessage, truthy, find_index, set_at, find_last_index}
use ircfiber_site.Store.Place.{cap, is_after}
use ircfiber_site.Store.Append.{
  Chat, forget, has_label, or_label, by_label, replace_found, is_sent_as, is_self, is_synthetic,
  is_near_pending,
}

-- The variables of the loop: the chat, the eids and msgids seen, and the messages pushed.
pub record Batch : Type 0 where
  pub chat : Chat
  pub seen_eids : List ℕ
  pub seen_msgids : List String
  pub pending : List IrcMessage

unfoldable pub has_nat : ℕ → List ℕ → Bool
has_nat n [] = false
has_nat n (m ∷ ms) = m == n || has_nat n ms

unfoldable pub has_text : String → List String → Bool
has_text s [] = false
has_text s (x ∷ xs) = str_eq x s || has_text s xs

-- `msg.eid != null && seenEids.has(msg.eid)`
abbrev pub eid_seen : Option ℕ → List ℕ → Bool
eid_seen none seen = false
eid_seen (some e) seen = has_nat e seen

-- `if (msg.eid != null) seenEids.add(msg.eid)`
abbrev pub add_eid : Option ℕ → List ℕ → List ℕ
add_eid none seen = seen
add_eid (some e) seen = e ∷ seen

abbrev pub add_msgid : String → List String → List String
add_msgid s seen = if truthy s then s ∷ seen else seen

unfoldable pub eids_of : List IrcMessage → List ℕ
eids_of [] = []
eids_of (m ∷ ms) = add_eid m.eid (eids_of ms)

unfoldable pub msgids_of : List IrcMessage → List String
msgids_of [] = []
msgids_of (m ∷ ms) = add_msgid m.msgid (msgids_of ms)

-- The test for a duplicate.
abbrev pub is_seen : IrcMessage → List ℕ → List String → Bool
is_seen msg eids msgids = eid_seen msg.eid eids || (truthy msg.msgid && has_text msg.msgid msgids)

-- The second dedup, behind the sort.
unfoldable pub dedup : List IrcMessage → List ℕ → List String → List IrcMessage
dedup [] eids msgids = []
dedup (m ∷ ms) eids msgids =
    let skipped = dedup ms eids msgids in
    let kept = dedup ms (add_eid m.eid eids) (add_msgid m.msgid msgids) in
    if is_seen m eids msgids then skipped else m ∷ kept

-- The row with the label is replaced.
unfoldable pub replace_labelled : String → IrcMessage → Chat → Option Chat
replace_labelled label msg c = elim (find_index (has_label label) c.rows) [
  | none ↦ none
  | some i ↦ some (record c { rows = set_at i (or_label label msg) c.rows })
]

module _ (lower trim : String → String) where
  -- `foundOptLabel`, the first optimistic message that an echo belongs to
  unfoldable pub sent_label : IrcMessage → List (String × IrcMessage) → Option String
  sent_label msg [] = none
  sent_label msg ((label, o) ∷ os) =
      let rest = sent_label msg os in if is_sent_as lower trim msg o then some label else rest

  -- The synthetic row that the sender's own message replaces.
  unfoldable pub by_synthetic : ℕ → IrcMessage → Chat → Chat × Bool
  by_synthetic now msg c =
      elim (replace_found msg (find_last_index (is_synthetic lower trim now msg) c.rows) c) [
        | none ↦ (c, false)
        | some replaced ↦ (replaced, true)
      ]

  unfoldable pub by_sent : ℕ → IrcMessage → Option String → Chat → Chat × Bool
  by_sent now msg none c = by_synthetic now msg c
  by_sent now msg (some label) c =
      let forgotten = record c { optimistic = forget label c.optimistic } in
      elim (replace_labelled label msg forgotten) [
        | none ↦ by_synthetic now msg forgotten
        | some replaced ↦ (replaced, true)
      ]

  -- A pending row that looks the same only loses its label's optimistic message: the row stays,
  -- and the message is not pushed.
  unfoldable pub push_or_skip : IrcMessage → Option ℕ → Batch → Batch
  push_or_skip msg none b = record b {
    chat = record b.chat { rows = b.chat.rows ++ msg ∷ [] };
    pending = b.pending ++ msg ∷ [];
  }
  push_or_skip msg (some i) b = record b {
    chat = record b.chat {
      optimistic = elim (get_elem? b.chat.rows i) [
        | none ↦ b.chat.optimistic
        | some m ↦ forget m.label b.chat.optimistic
      ];
    };
  }

  -- From the test for a duplicate on.
  unfoldable pub batch_new : IrcMessage → Batch → Batch
  batch_new msg b =
      if is_seen msg b.seen_eids b.seen_msgids
      then b
      else push_or_skip msg (find_last_index (is_near_pending lower trim msg) b.chat.rows)
          (record b {
            seen_eids = add_eid msg.eid b.seen_eids;
            seen_msgids = add_msgid msg.msgid b.seen_msgids;
          })

  unfoldable pub batch_unlabelled : ℕ → String → IrcMessage → Batch → Batch
  batch_unlabelled now cur_nick msg b =
      let (echoed, found) = by_sent now msg (sent_label msg b.chat.optimistic) b.chat in
      if is_self lower trim cur_nick msg
      then (if found
          then record b { chat = echoed }
          else batch_new msg (record b { chat = echoed }))
      else batch_new msg b

  -- One round of the loop over the batch.
  unfoldable pub batch_step : ℕ → String → IrcMessage → Batch → Batch
  batch_step now cur_nick msg b = elim (by_label msg b.chat) [
    | some replaced ↦ record b { chat = replaced }
    | none ↦ batch_unlabelled now cur_nick msg (
        if truthy msg.label
        then record b { chat = record b.chat { optimistic = forget msg.label b.chat.optimistic } }
        else b)
  ]

  unfoldable pub batch_loop : ℕ → String → List IrcMessage → Batch → Batch
  batch_loop now cur_nick [] b = b
  batch_loop now cur_nick (msg ∷ msgs) b =
      batch_loop now cur_nick msgs (batch_step now cur_nick msg b)

module _ (locale_gt : String → String → Bool) where
  -- `sort(compareMessages)`, which is stable
  unfoldable pub insert_sorted : IrcMessage → List IrcMessage → List IrcMessage
  insert_sorted m [] = m ∷ []
  insert_sorted m (n ∷ ns) =
      let rest = insert_sorted m ns in if is_after locale_gt n m then m ∷ n ∷ ns else n ∷ rest

  unfoldable pub sort_rows : List IrcMessage → List IrcMessage → List IrcMessage
  sort_rows [] done = done
  sort_rows (m ∷ ms) done = sort_rows ms (insert_sorted m done)

  -- `tailBeforeBatch` comes after the first pending message
  unfoldable pub is_interleaved : List IrcMessage → List IrcMessage → Bool
  is_interleaved rows [] = false
  is_interleaved rows (first ∷ pending) =
      ltb (length (first ∷ pending)) (length rows)
      && elim (get_elem? rows (length rows - length (first ∷ pending) - 1)) [
        | none ↦ false
        | some tail ↦ is_after locale_gt tail first
      ]

  -- What follows the loop: the sort of the whole window, which also empties `pending`, the unseen
  -- rule for what is still pending, and the cap.
  unfoldable pub finish_batch : Batch → Chat
  finish_batch b =
      if is_interleaved b.chat.rows b.pending
      then record b.chat { rows = cap (dedup (sort_rows b.chat.rows []) [] []) }
      else record b.chat { rows = cap b.chat.rows; noted = b.chat.noted ++ b.pending }

module _ (lower trim : String → String) (locale_gt : String → String → Bool) where
  -- `batchAppendMessages`
  unfoldable pub batch_append : ℕ → String → List IrcMessage → Chat → Chat
  batch_append now cur_nick [] c = c
  batch_append now cur_nick (m ∷ ms) c = finish_batch locale_gt (
      batch_loop lower trim now cur_nick (sort_rows locale_gt (m ∷ ms) []) (record {
        chat = c;
        seen_eids = eids_of c.rows;
        seen_msgids = msgids_of c.rows;
        pending = [];
      }))
