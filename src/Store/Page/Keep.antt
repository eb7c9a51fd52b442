-- ===== src/Store/Page/Keep.antt =====
-- ircStore.svelte.ts: the rows before and after items are folded into them.
use Prim.Native.String.{String}
use ircfiber_site.Common.{
  ℕ, zero, suc, ◌≡◌, refl, ◌∙◌, Option, none, some, List, [], ◌∷◌, map, arith,
}
use ircfiber_site.Store.Message.{IrcMessage, find_index, named}
use ircfiber_site.Store.Stash.{Key}
use ircfiber_site.Store.Overlay.{
  RedactionItem, EditItem, ReactionItem, tombstone_of, edited_row, with_reaction,
}
use ircfiber_site.Store.Fold.{
  sort_items, update_at, fold_item, fold_loop, fold_items, fold_redactions, fold_edits,
  fold_reactions,
}

-- What identifies a row and places it.
abbrev pub identity : IrcMessage → ℕ × Option ℕ × String × String
identity m = (m.t, m.eid, m.msgid, m.label)

module _ {ℓ} {A : Type ℓ} (msgid_of : A → String) (update : IrcMessage → A → IrcMessage)
    (keeps : (m : IrcMessage) (a : A) → identity (update m a) ≡ identity m) where
  update_at-keeps :
      (i : ℕ) (item : A) (ms : List IrcMessage)
      → map identity (update_at msgid_of update i item ms) ≡ map identity ms
  unfolding update_at
  update_at-keeps i item [] = refl
  update_at-keeps zero item (m ∷ ms) = rw (keeps m item) refl
  update_at-keeps (suc i) item (m ∷ ms) = rw (update_at-keeps i item ms) refl

  fold_item-keeps :
      (key : String) (o : Option ℕ) (item : A) (st : List IrcMessage × List (Key × List A))
      → map identity (fold_item msgid_of update key o item st).0 ≡ map identity st.0
  unfolding fold_item
  fold_item-keeps key none item st = refl
  fold_item-keeps key (some i) item st = update_at-keeps i item st.0

  fold_loop-keeps :
      (key : String) (list : List IrcMessage) (items : List A)
      → (st : List IrcMessage × List (Key × List A))
      → map identity (fold_loop msgid_of update key list items st).0 ≡ map identity st.0
  unfolding fold_loop
  fold_loop-keeps key list [] st = refl
  fold_loop-keeps key list (item ∷ items) st =
      let o = find_index (named (msgid_of item)) list in
      fold_loop-keeps key list items (fold_item msgid_of update key o item st)
      ∙ fold_item-keeps key o item st

  fold_items-keeps :
      (t_of : A → ℕ) (key : String) (list : List IrcMessage) (items : List A)
      → (s : List (Key × List A))
      → map identity (fold_items msgid_of update t_of key list items s).0 ≡ map identity list
  unfolding fold_items
  fold_items-keeps t_of key list items s =
      fold_loop-keeps key list (sort_items t_of items []) (list, s)

tombstone_of-keeps : (m : IrcMessage) (r : RedactionItem) → identity (tombstone_of m r) ≡ identity m
unfolding tombstone_of
tombstone_of-keeps m r = ground arith

edited_row-keeps : (m : IrcMessage) (e : EditItem) → identity (edited_row m e) ≡ identity m
unfolding edited_row
edited_row-keeps m e = ground arith

with_reaction-keeps :
    (m : IrcMessage) (i : ReactionItem) → identity (with_reaction m i) ≡ identity m
unfolding with_reaction
with_reaction-keeps m i = ground arith

-- Folding any reactions, redactions and edits into rows neither adds, drops nor moves a row: the
-- times, eids, msgids and labels of the rows are the same, in the same order.
pub fold-keeps :
    (key : String) (rows : List IrcMessage)
    → (reactions : List ReactionItem) (redactions : List RedactionItem) (edits : List EditItem)
    → (s : List (Key × List ReactionItem)) (s' : List (Key × List RedactionItem))
    → (s'' : List (Key × List EditItem))
    → let reacted = (fold_reactions key rows reactions s).0 in
      let redacted = (fold_redactions key reacted redactions s').0 in
      map identity (fold_edits key redacted edits s'').0 ≡ map identity rows
fold-keeps key rows reactions redactions edits s s' s'' =
    let reacted = (fold_reactions key rows reactions s).0 in
    let redacted = (fold_redactions key reacted redactions s').0 in
    fold_items-keeps EditItem.msgid edited_row edited_row-keeps EditItem.t key redacted edits s''
    ∙ fold_items-keeps RedactionItem.msgid tombstone_of tombstone_of-keeps RedactionItem.t key
        reacted redactions s'
    ∙ fold_items-keeps ReactionItem.msgid with_reaction with_reaction-keeps ReactionItem.t key rows
        reactions s
