-- ===== src/Store/Fold.antt =====
-- ircStore.svelte.ts: items folded into the rows they name, oldest first.
pub mod Late
use Prim.Native.String.{String}
use text.Mathlib.Text.{◌==◌ as str_eq}
use ircfiber_site.Common.{
  ℕ, zero, suc, Bool, true, false, ◌&&◌, Option, none, some, List, [], ◌∷◌, ltb, if◌then◌else◌,
}
use ircfiber_site.Store.Message.{IrcMessage, truthy, find_index, named}
use ircfiber_site.Store.Stash.{Key, stash, take_pending}
use ircfiber_site.Store.Overlay.{
  RedactionItem, EditItem, ReactionItem, tombstone_of, edited_row, with_reaction,
}

module _ {ℓ} {A : Type ℓ} (t_of : A → ℕ) where
  -- `items.sort((a, b) => a.t - b.t)`, which is stable
  unfoldable pub insert_item : A → List A → List A
  insert_item x [] = x ∷ []
  insert_item x (y ∷ ys) =
      let rest = insert_item x ys in if ltb (t_of x) (t_of y) then x ∷ y ∷ ys else y ∷ rest

  unfoldable pub sort_items : List A → List A → List A
  sort_items [] done = done
  sort_items (x ∷ xs) done = sort_items xs (insert_item x done)

module _ {ℓ} {A : Type ℓ} (msgid_of : A → String) (update : IrcMessage → A → IrcMessage) where
  -- `out[idx] = update(out[idx], item)`
  unfoldable pub update_at : ℕ → A → List IrcMessage → List IrcMessage
  update_at i item [] = []
  update_at zero item (m ∷ ms) = update m item ∷ ms
  update_at (suc i) item (m ∷ ms) = m ∷ update_at i item ms

  -- One round of the loop, at the index that `idxByMsgid` has for the item.
  unfoldable pub fold_item :
      String
      → Option ℕ
      → A
      → List IrcMessage × List (Key × List A)
      → List IrcMessage × List (Key × List A)
  fold_item key none item (out, s) = (out, stash (key, msgid_of item) item s)
  fold_item key (some i) item (out, s) = (update_at i item out, s)

  unfoldable pub fold_loop :
      String
      → List IrcMessage
      → List A
      → List IrcMessage × List (Key × List A)
      → List IrcMessage × List (Key × List A)
  fold_loop key list [] st = st
  fold_loop key list (item ∷ items) st =
      fold_loop key list items (fold_item key (find_index (named (msgid_of item)) list) item st)

  -- `foldReactions`, `foldRedactions` and `foldEdits`: the rows and the stash.
  unfoldable pub fold_items :
      (A → ℕ)
      → String
      → List IrcMessage
      → List A
      → List (Key × List A)
      → List IrcMessage × List (Key × List A)
  fold_items t_of key list items s = fold_loop key list (sort_items t_of items []) (list, s)

  -- `applyReaction`, `applyRedaction` and `applyEdit` of an item with a msgid: the rows, the stash
  -- and whether the row is loaded.
  unfoldable pub apply_found :
      String
      → Option ℕ
      → A
      → List IrcMessage
      → List (Key × List A)
      → (List IrcMessage × List (Key × List A)) × Bool
  apply_found key none item list s = ((list, stash (key, msgid_of item) item s), false)
  apply_found key (some i) item list s = ((update_at i item list, s), true)

  unfoldable pub apply_item :
      String
      → A
      → List IrcMessage
      → List (Key × List A)
      → (List IrcMessage × List (Key × List A)) × Bool
  apply_item key item list s =
      if truthy (msgid_of item)
      then apply_found key (find_index (named (msgid_of item)) list) item list s
      else ((list, s), false)

-- `applyRedaction`
abbrev pub apply_redaction :
    String
    → RedactionItem
    → List IrcMessage
    → List (Key × List RedactionItem)
    → (List IrcMessage × List (Key × List RedactionItem)) × Bool
apply_redaction = apply_item RedactionItem.msgid tombstone_of

-- `applyEdit`
abbrev pub apply_edit :
    String
    → EditItem
    → List IrcMessage
    → List (Key × List EditItem)
    → (List IrcMessage × List (Key × List EditItem)) × Bool
apply_edit = apply_item EditItem.msgid edited_row

-- `applyReaction`, which also wants an emoji and a nick
unfoldable pub apply_reaction :
    String
    → ReactionItem
    → List IrcMessage
    → List (Key × List ReactionItem)
    → (List IrcMessage × List (Key × List ReactionItem)) × Bool
apply_reaction key item list s =
    if truthy item.emoji && truthy item.nick
    then apply_item ReactionItem.msgid with_reaction key item list s
    else ((list, s), false)

-- `takePendingReactions`, `takePendingRedactions` and `takePendingEdits`
abbrev pub take_pending_reactions :
    String
    → List IrcMessage
    → List (Key × List ReactionItem)
    → List ReactionItem × List (Key × List ReactionItem)
take_pending_reactions = take_pending

abbrev pub take_pending_redactions :
    String
    → List IrcMessage
    → List (Key × List RedactionItem)
    → List RedactionItem × List (Key × List RedactionItem)
take_pending_redactions = take_pending

abbrev pub take_pending_edits :
    String
    → List IrcMessage
    → List (Key × List EditItem)
    → List EditItem × List (Key × List EditItem)
take_pending_edits = take_pending

-- `foldRedactions`
abbrev pub fold_redactions :
    String
    → List IrcMessage
    → List RedactionItem
    → List (Key × List RedactionItem)
    → List IrcMessage × List (Key × List RedactionItem)
fold_redactions = fold_items RedactionItem.msgid tombstone_of RedactionItem.t

-- `foldEdits`
abbrev pub fold_edits :
    String
    → List IrcMessage
    → List EditItem
    → List (Key × List EditItem)
    → List IrcMessage × List (Key × List EditItem)
fold_edits = fold_items EditItem.msgid edited_row EditItem.t

-- `foldReactions`
abbrev pub fold_reactions :
    String
    → List IrcMessage
    → List ReactionItem
    → List (Key × List ReactionItem)
    → List IrcMessage × List (Key × List ReactionItem)
fold_reactions = fold_items ReactionItem.msgid with_reaction ReactionItem.t

-- `takeReactionRows`
unfoldable pub take_reaction_rows : List IrcMessage → List IrcMessage × List ReactionItem
take_reaction_rows [] = ([], [])
take_reaction_rows (m ∷ ms) =
    let (rows, items) = take_reaction_rows ms in
    elim m.reaction [
      | none ↦ (m ∷ rows, items)
      | some (emoji, add) ↦
          if truthy m.reply_to && truthy m.nick
          then (
            rows,
            record { msgid = m.reply_to; emoji = emoji; nick = m.nick; add = add; t = m.t } ∷ items,
          )
          else (m ∷ rows, items)
    ]

-- `takeEditRows`
unfoldable pub take_edit_rows : List IrcMessage → List IrcMessage × List EditItem
take_edit_rows [] = ([], [])
take_edit_rows (m ∷ ms) =
    let (rows, items) = take_edit_rows ms in
    if truthy m.edit_of
    then (rows, record { msgid = m.edit_of; text = m.text; t = m.t } ∷ items)
    else (m ∷ rows, items)

-- `m.command === 'REDACT' && params.length >= 2 && params[1]`, and the reason `params[2] || ''`
unfoldable pub redact_params : String → List String → Option (String × String)
redact_params command (target ∷ msgid ∷ []) =
    if str_eq command "REDACT" && truthy msgid then some (msgid, "") else none
redact_params command (target ∷ msgid ∷ reason ∷ more) =
    if str_eq command "REDACT" && truthy msgid then some (msgid, reason) else none
redact_params command (target ∷ []) = none
redact_params command [] = none

-- `takeRedactRows`
unfoldable pub take_redact_rows : List IrcMessage → List IrcMessage × List RedactionItem
take_redact_rows [] = ([], [])
take_redact_rows (m ∷ ms) =
    let (rows, items) = take_redact_rows ms in
    elim (redact_params m.command m.params) [
      | none ↦ (m ∷ rows, items)
      | some (msgid, reason) ↦
          (rows, record { msgid = msgid; by = m.nick; reason = reason; t = m.t } ∷ items)
    ]
