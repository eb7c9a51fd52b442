-- ===== src/Store/Page.antt =====
-- ircStore.svelte.ts, `prependMessages`: a page of history joins the rows of its buffer. `prefix`
-- is `slice(0, 80)`. The divider that marks where the page ends and the unread counts, which other
-- functions compute from the rows, are left out.
pub mod Distinct
pub mod Added
pub mod Keep
use Prim.Native.String.{String}
use text.Mathlib.Text.{◌==◌ as str_eq}
use ircfiber_site.Common.{
  ℕ, Bool, true, false, not, ◌&&◌, ◌||◌, Option, none, some, List, [], ◌∷◌, ◌++◌, ltb, leb, ◌==◌,
  if◌then◌else◌, get_elem?,
}
use ircfiber_site.Store.Message.{IrcMessage, truthy, find_index, set_at, find_last_index}
use ircfiber_site.Store.Stash.{Key}
use ircfiber_site.Store.Overlay.{RedactionItem, EditItem, ReactionItem}
use ircfiber_site.Store.Append.{forget, has_label, or_label, is_duplicate, is_near_pending}
use ircfiber_site.Store.Fold.{
  take_pending_reactions, take_pending_redactions, take_pending_edits, fold_redactions, fold_edits,
  fold_reactions, take_reaction_rows, take_edit_rows, take_redact_rows,
}
use ircfiber_site.Store.Place.{cap}
use ircfiber_site.Store.Fail.{fold_fail_redacts}
use ircfiber_site.Store.Batch.{add_eid, add_msgid, is_seen}

-- The rows, the optimistic messages and the three stashes.
pub record Timeline : Type 0 where
  pub rows : List IrcMessage
  pub optimistic : List (String × IrcMessage)
  pub pending_reactions : List (Key × List ReactionItem)
  pub pending_redactions : List (Key × List RedactionItem)
  pub pending_edits : List (Key × List EditItem)

-- The variables of the two loops that look for what is there already. `row_keys` are the keys
-- `!t:nick:command:text` of rows without a msgid, which the code keeps in one set with the msgids.
pub record Known : Type 0 where
  pub eids : List ℕ
  pub msgids : List String
  pub row_keys : List (ℕ × String × String × String)

unfoldable pub has_row_key :
    ℕ → String → String → String → List (ℕ × String × String × String) → Bool
has_row_key t nick command text [] = false
has_row_key t nick command text ((u, n, c, x) ∷ ks) =
    (u == t && str_eq n nick && str_eq c command && str_eq x text)
    || has_row_key t nick command text ks

module _ (lower trim prefix : String → String) where
  -- `if (m.msgid) dedupKeys.add(m.msgid); else if (m.t) dedupKeys.add(…)`, and the eid
  unfoldable pub know : IrcMessage → Known → Known
  know m k = record {
    eids = add_eid m.eid k.eids;
    msgids = add_msgid m.msgid k.msgids;
    row_keys =
        if truthy m.msgid || m.t == 0
        then k.row_keys
        else (m.t, m.nick, m.command, prefix m.text) ∷ k.row_keys;
  }

  unfoldable pub known_of : List IrcMessage → Known → Known
  known_of [] k = k
  known_of (m ∷ ms) k = known_of ms (know m k)

  -- The pending row that an echo in the page stands for.
  unfoldable pub pending_match : IrcMessage → List IrcMessage → Option ℕ
  pending_match m existing =
      if truthy m.label
      then find_index (has_label m.label) existing
      else find_last_index (is_near_pending lower trim m) existing

  -- One round of the first loop: the rows, the optimistic messages and what is known.
  unfoldable pub claim :
      IrcMessage
      → Option ℕ
      → List IrcMessage × List (String × IrcMessage) × Known
      → List IrcMessage × List (String × IrcMessage) × Known
  claim m none st = st
  claim m (some i) (rows, optimistic, k) = elim (get_elem? rows i) [
    | none ↦ (rows, optimistic, k)
    | some pending ↦ (
      set_at i (or_label pending.label m) rows,
      if truthy pending.label then forget pending.label optimistic else optimistic,
      record k { eids = add_eid m.eid k.eids; msgids = add_msgid m.msgid k.msgids },
    )
  ]

  unfoldable pub claim_loop :
      List IrcMessage
      → List IrcMessage × List (String × IrcMessage) × Known
      → List IrcMessage × List (String × IrcMessage) × Known
  claim_loop [] st = st
  claim_loop (m ∷ ms) st =
      let skipped = claim_loop ms st in
      let claimed = claim_loop ms (claim m (pending_match m st.0) st) in
      if not (truthy m.msgid) && elim m.eid [ none ↦ true | some e ↦ false ]
      then skipped
      else claimed

  -- The second loop: what of the page is new.
  unfoldable pub fresh_rows : List IrcMessage → Known → List IrcMessage
  fresh_rows [] k = []
  fresh_rows (m ∷ ms) k =
      let seen = fresh_rows ms k in
      let repeated = fresh_rows ms (record k { eids = add_eid m.eid k.eids }) in
      let kept = fresh_rows ms (know m k) in
      if is_seen m k.eids k.msgids
      then seen
      else if not (truthy m.msgid)
          && not (m.t == 0)
          && has_row_key m.t m.nick m.command (prefix m.text) k.row_keys
      then repeated
      else m ∷ kept

-- The comparison of a page's sort: like `compareMessages`, but rows that do not both have an eid
-- are compared by msgid.
unfoldable pub page_after : (String → String → Bool) → IrcMessage → IrcMessage → Bool
page_after locale_gt a b =
    if a.t == b.t
    then elim a.eid [
      | none ↦ locale_gt a.msgid b.msgid
      | some e ↦ elim b.eid [ none ↦ locale_gt a.msgid b.msgid | some f ↦ ltb f e ]
    ]
    else ltb b.t a.t

unfoldable pub insert_page_row :
    (String → String → Bool) → IrcMessage → List IrcMessage → List IrcMessage
insert_page_row locale_gt m [] = m ∷ []
insert_page_row locale_gt m (n ∷ ns) =
    let rest = insert_page_row locale_gt m ns in
    if page_after locale_gt n m then m ∷ n ∷ ns else n ∷ rest

-- `[...filtered, ...existing].sort(…)`, which is stable
unfoldable pub sort_page :
    (String → String → Bool) → List IrcMessage → List IrcMessage → List IrcMessage
sort_page locale_gt [] done = done
sort_page locale_gt (m ∷ ms) done = sort_page locale_gt ms (insert_page_row locale_gt m done)

-- The items of a page and those that wait for its rows are folded in: reactions, then redactions,
-- then edits; the FAIL rows are rewritten, and the cap applies.
unfoldable pub fold_page :
    String → List ReactionItem → List RedactionItem → List EditItem → Timeline → Timeline
fold_page key reactions redactions edits c =
    let (items, left) = take_pending_reactions key c.rows c.pending_reactions in
    let (reacted, later_reactions) = fold_reactions key c.rows (reactions ++ items) left in
    let (items', left') = take_pending_redactions key reacted c.pending_redactions in
    let (redacted, later_redactions) = fold_redactions key reacted (redactions ++ items') left' in
    let (items'', left'') = take_pending_edits key redacted c.pending_edits in
    let (edited, later_edits) = fold_edits key redacted (edits ++ items'') left'' in
    record c {
      rows = cap (fold_fail_redacts edited);
      pending_reactions = later_reactions;
      pending_redactions = later_redactions;
      pending_edits = later_edits;
    }

module _ (lower trim prefix : String → String) (locale_gt : String → String → Bool) where
  -- `prependMessages`
  unfoldable pub prepend_messages : String → List IrcMessage → Timeline → Timeline
  prepend_messages key msgs c =
      let (unreacted, reactions) = take_reaction_rows msgs in
      let (unredacted, redactions) = take_redact_rows unreacted in
      let (page, edits) = take_edit_rows unredacted in
      let known =
        known_of lower trim prefix c.rows (record { eids = []; msgids = []; row_keys = [] }) in
      let (existing, optimistic, claimed) =
        claim_loop lower trim prefix page (c.rows, c.optimistic, known) in
      let filtered = fresh_rows lower trim prefix page claimed in
      fold_page key reactions redactions edits
        (record c { rows = sort_page locale_gt (filtered ++ existing) []; optimistic = optimistic })

-- `prependMessage`
unfoldable pub prepend_message : IrcMessage → List IrcMessage → List IrcMessage
prepend_message msg rows = if is_duplicate msg rows then rows else cap (msg ∷ rows)

-- `pruneMessagesBefore`
unfoldable pub prune_messages_before : ℕ → List IrcMessage → List IrcMessage
prune_messages_before before [] = []
prune_messages_before before (m ∷ ms) =
    let rest = prune_messages_before before ms in if leb before m.t then m ∷ rest else rest
