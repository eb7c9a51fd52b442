-- ===== src/Store/Batch/Compare.antt =====
-- ircStore.svelte.ts, `batchAppendMessages` of one message beside `appendMessage`.
use Prim.Native.String.{String}
use ircfiber_site.Common.{
  ℕ, ◌-◌, ◌≤◌, ◌≡◌, refl, sym, ◌∙◌, Bool, true, false, none, some, List, [], ◌∷◌, ◌++◌, arith,
  length, get_elem?, length-append, length-drop,
}
use ircfiber_site.Store.Message.{IrcMessage, find_last_index}
use ircfiber_site.Store.Place.{max_js_messages, cap, is_after, is_out_of_order, place}
use ircfiber_site.Store.Append.{
  Chat, by_label, is_duplicate, replace_found, is_self, is_near_pending, place_row, append_new,
  append_unlabelled, append_message,
}
use ircfiber_site.Store.Batch.{
  add_eid, add_msgid, eids_of, msgids_of, is_seen, dedup, push_or_skip, batch_new, batch_unlabelled,
  batch_step, batch_loop, insert_sorted, sort_rows, is_interleaved, finish_batch, batch_append,
}

length-cap : (rows : List IrcMessage) → length (cap rows) ≤ max_js_messages
unfolding cap
length-cap rows = ground (arith, length-drop (length rows - max_js_messages) rows)

module _ (lower trim : String → String) (locale_gt : String → String → Bool) where
  -- However large the flush, at most 5000 rows are kept.
  pub length-batch_append :
      (now : ℕ) (cur_nick : String) (m : IrcMessage) (ms : List IrcMessage) (c : Chat)
      → length (batch_append lower trim locale_gt now cur_nick (m ∷ ms) c).rows ≤ max_js_messages
  unfolding batch_append finish_batch
  length-batch_append now cur_nick m ms c =
      let b = batch_loop lower trim now cur_nick (sort_rows locale_gt (m ∷ ms) []) (record {
        chat = c;
        seen_eids = eids_of c.rows;
        seen_msgids = msgids_of c.rows;
        pending = [];
      }) in
      ground (
        arith,
        length-cap b.chat.rows,
        length-cap (dedup (sort_rows locale_gt b.chat.rows []) [] []),
      )

-- A message that only the tests for duplicates could stop: it has no label, is not the user's own,
-- and no pending row looks like it.
pub record IsOrdinary (lower trim : String → String) (cur_nick : String) (msg : IrcMessage)
    (c : Chat) : Type 0 where
  pub unlabelled : msg.label ≡ ""
  pub foreign : is_self lower trim cur_nick msg ≡ false
  pub unmatched : find_last_index (is_near_pending lower trim msg) c.rows ≡ none
  pub fresh : is_duplicate msg c.rows ≡ false
  pub unseen : is_seen msg (eids_of c.rows) (msgids_of c.rows) ≡ false

get_elem?-last {ℓ} :
    {A : Type ℓ} (xs : List A) (x y : A) → get_elem? ((xs ++ x ∷ []) ++ y ∷ []) (length xs) ≡ some x
get_elem?-last [] x y = refl
get_elem?-last (z ∷ zs) x y = get_elem?-last zs x y

module _ (lower trim : String → String) (locale_gt : String → String → Bool) where
  append_message-ordinary :
      (now : ℕ) (cur_nick : String) (msg : IrcMessage) (c : Chat)
      → IsOrdinary lower trim cur_nick msg c
      → append_message lower trim locale_gt now cur_nick msg c ≡ place_row locale_gt msg c
  unfolding append_message append_unlabelled by_label append_new replace_found is_duplicate
      place_row
  append_message-ordinary now cur_nick msg c v =
      rw (v.unlabelled, v.foreign, v.fresh, v.unmatched) refl

  batch_append-ordinary :
      (now : ℕ) (cur_nick : String) (msg : IrcMessage) (c : Chat)
      → IsOrdinary lower trim cur_nick msg c
      → batch_append lower trim locale_gt now cur_nick (msg ∷ []) c
        ≡ finish_batch locale_gt (record {
          chat = record c { rows = c.rows ++ msg ∷ [] };
          seen_eids = add_eid msg.eid (eids_of c.rows);
          seen_msgids = add_msgid msg.msgid (msgids_of c.rows);
          pending = msg ∷ [];
        })
  unfolding batch_append batch_loop batch_step batch_unlabelled by_label batch_new push_or_skip
      sort_rows insert_sorted
  batch_append-ordinary now cur_nick msg c v =
      rw (v.unlabelled, v.foreign, v.unseen, v.unmatched) refl

  is_interleaved-snoc :
      (msg tail : IrcMessage) (before : List IrcMessage)
      → is_interleaved locale_gt ((before ++ tail ∷ []) ++ msg ∷ []) (msg ∷ [])
        ≡ is_after locale_gt tail msg
  unfolding is_interleaved
  is_interleaved-snoc msg tail before =
      let at : length ((before ++ tail ∷ []) ++ msg ∷ []) - 1 - 1 ≡ length before =
        omega (
          arith,
          length-append (before ++ tail ∷ []) (msg ∷ []),
          length-append before (tail ∷ []),
        ) in
      ground (
        arith,
        at,
        get_elem?-last before tail msg,
        length-append (before ++ tail ∷ []) (msg ∷ []),
        length-append before (tail ∷ []),
      )

  is_out_of_order-snoc :
      (msg tail : IrcMessage) (before : List IrcMessage)
      → is_out_of_order locale_gt msg (before ++ tail ∷ []) ≡ is_after locale_gt tail msg
  unfolding is_out_of_order
  is_out_of_order-snoc msg tail [] = refl
  is_out_of_order-snoc msg tail (m ∷ []) = refl
  is_out_of_order-snoc msg tail (m ∷ n ∷ ms) = is_out_of_order-snoc msg tail (n ∷ ms)

  -- A flush of one ordinary message that does not come late does what `appendMessage` does.
  pub batch_append-append_message :
      (now : ℕ) (cur_nick : String) (msg tail : IrcMessage) (before : List IrcMessage) (c : Chat)
      → IsOrdinary lower trim cur_nick msg c
      → c.rows ≡ before ++ tail ∷ []
      → is_after locale_gt tail msg ≡ false
      → batch_append lower trim locale_gt now cur_nick (msg ∷ []) c
        ≡ append_message lower trim locale_gt now cur_nick msg c
  unfolding place_row place finish_batch
  batch_append-append_message now cur_nick msg tail before c v rows last =
      batch_append-ordinary now cur_nick msg c v
      ∙ (rw (rows, is_interleaved-snoc msg tail before, is_out_of_order-snoc msg tail before, last)
          refl)
      ∙ sym (append_message-ordinary now cur_nick msg c v)

  -- An ordinary message that comes late counts as unread when it comes alone, and does not when
  -- it comes in a flush: `applyAddMessageUnseen` is not called.
  pub batch_append-unnoted :
      (now : ℕ) (cur_nick : String) (msg tail : IrcMessage) (before : List IrcMessage) (c : Chat)
      → IsOrdinary lower trim cur_nick msg c
      → c.rows ≡ before ++ tail ∷ []
      → is_after locale_gt tail msg ≡ true
      → ((batch_append lower trim locale_gt now cur_nick (msg ∷ []) c).noted ≡ c.noted)
        × ((append_message lower trim locale_gt now cur_nick msg c).noted ≡ c.noted ++ msg ∷ [])
  unfolding place_row finish_batch
  batch_append-unnoted now cur_nick msg tail before c v rows late = (
    rw (batch_append-ordinary now cur_nick msg c v)
        (rw (rows, is_interleaved-snoc msg tail before, late) refl),
    rw (append_message-ordinary now cur_nick msg c v) refl,
  )
