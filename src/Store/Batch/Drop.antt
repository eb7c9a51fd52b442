-- ===== src/Store/Batch/Drop.antt =====
-- ircStore.svelte.ts, `batchAppendMessages`: the last fallback, beside that of `appendMessage`.
use Prim.Native.String.{String}
use ircfiber_site.Common.{
  ℕ, ◌≤◌, ◌≡◌, Bool, true, false, some, List, [], ◌∷◌, ◌++◌, arith, length, get_elem?,
}
use ircfiber_site.Store.Message.{IrcMessage, find_last_index}
use ircfiber_site.Store.Place.{max_js_messages, cap}
use ircfiber_site.Store.Append.{
  Chat, or_label, by_label, is_duplicate, replace_row, replace_found, is_self, is_near_pending,
  append_new, append_unlabelled, append_message,
}
use ircfiber_site.Store.Append.Echo.{find_last_index-snoc, set_at-snoc, get_elem?-snoc}
use ircfiber_site.Store.Batch.{
  eids_of, msgids_of, is_seen, push_or_skip, batch_new, batch_unlabelled, batch_step, batch_loop,
  insert_sorted, sort_rows, is_interleaved, finish_batch, batch_append,
}

cap-fits : (rows : List IrcMessage) → length rows ≤ max_js_messages → cap rows ≡ rows
unfolding cap
cap-fits rows h = ground arith

module _ (lower trim : String → String) (locale_gt : String → String → Bool) where
  -- A message that a pending row at the end stands for, but that is not recognized as the user's
  -- own, takes the row's place when it comes alone. When it comes in a flush the rows stay as they
  -- were: the pending row stays pending, and the message is gone.
  pub batch_append-drops :
      (now : ℕ) (cur_nick : String) (before : List IrcMessage) (old msg : IrcMessage) (c : Chat)
      → c.rows ≡ before ++ old ∷ []
      → msg.label ≡ ""
      → is_self lower trim cur_nick msg ≡ false
      → is_duplicate msg c.rows ≡ false
      → is_seen msg (eids_of c.rows) (msgids_of c.rows) ≡ false
      → is_near_pending lower trim msg old ≡ true
      → length c.rows ≤ max_js_messages
      → ((batch_append lower trim locale_gt now cur_nick (msg ∷ []) c).rows ≡ c.rows)
        × ((append_message lower trim locale_gt now cur_nick msg c).rows
            ≡ before ++ or_label old.label msg ∷ [])
  unfolding batch_append batch_loop batch_step batch_unlabelled by_label batch_new push_or_skip
      sort_rows insert_sorted finish_batch is_interleaved append_message append_unlabelled
      append_new is_duplicate replace_found replace_row
  batch_append-drops now cur_nick before old msg c rows unlabelled foreign fresh unseen near small =
      let p = is_near_pending lower trim msg in
      let at : find_last_index p c.rows ≡ some (length before) =
        rw rows (find_last_index-snoc p before old near) in
      let row : get_elem? c.rows (length before) ≡ some old = rw rows (get_elem?-snoc before old) in
      (
        rw (unlabelled, foreign, unseen, at) (cap-fits c.rows small),
        rw (unlabelled, foreign, fresh, at, row, rows)
            (set_at-snoc before old (record msg { label = old.label })),
      )
