-- ===== src/Store/Stash.antt =====
-- ircStore.svelte.ts: the stashes of reactions, redactions and edits whose row is not loaded. The
-- code has the same stash three times. A key is `<bufKey>\0<msgid>`, here the pair of the two.
pub mod Bounds
use Prim.Native.String.{String}
use text.Mathlib.Text.{◌==◌ as str_eq}
use ircfiber_site.Common.{
  ℕ, Bool, false, ◌&&◌, ◌||◌, List, [], ◌∷◌, ◌++◌, ltb, if◌then◌else◌, length, drop,
}
use ircfiber_site.Store.Message.{IrcMessage, truthy}

-- `MAX_PENDING_REACTION_ROWS` and its two like
abbrev pub max_pending_rows : ℕ
max_pending_rows = 256

-- `MAX_PENDING_PER_ROW` and its two like
abbrev pub max_pending_per_row : ℕ
max_pending_per_row = 32

abbrev pub Key : Type 0
Key = String × String

abbrev pub same_key : Key → Key → Bool
same_key (b, i) (c, j) = str_eq b c && str_eq i j

module _ {ℓ} {A : Type ℓ} where
  -- `pending.get(k)`
  unfoldable pub queue_of : Key → List (Key × List A) → List A
  queue_of k [] = []
  queue_of k ((j, items) ∷ s) = if same_key j k then items else queue_of k s

  unfoldable pub has_key : Key → List (Key × List A) → Bool
  has_key k [] = false
  has_key k ((j, items) ∷ s) = same_key j k || has_key k s

  -- `if (queued.length < MAX_PENDING_PER_ROW) queued.push(item)`
  unfoldable pub push_queued : Key → A → List (Key × List A) → List (Key × List A)
  push_queued k item [] = []
  push_queued k item ((j, items) ∷ s) =
      let rest = push_queued k item s in
      if same_key j k
      then (j, if ltb (length items) max_pending_per_row then items ++ item ∷ [] else items) ∷ s
      else (j, items) ∷ rest

  -- The oldest key goes when there are too many.
  unfoldable pub evict_row : List (Key × List A) → List (Key × List A)
  evict_row s = if ltb max_pending_rows (length s) then drop 1 s else s

  -- `stashReaction`, `stashRedaction` and `stashEdit`
  unfoldable pub stash : Key → A → List (Key × List A) → List (Key × List A)
  unfolding has_key push_queued evict_row
  stash k item s =
      if has_key k s then push_queued k item s else evict_row (s ++ (k, item ∷ []) ∷ [])

  -- `pending.delete(k)`
  unfoldable pub delete_key : Key → List (Key × List A) → List (Key × List A)
  delete_key k [] = []
  delete_key k ((j, items) ∷ s) =
      let rest = delete_key k s in if same_key j k then rest else (j, items) ∷ rest

  -- `takePendingReactions` and its two like: what is drained, and the stash that is left.
  unfoldable pub take_pending :
      String → List IrcMessage → List (Key × List A) → List A × List (Key × List A)
  take_pending key [] s = ([], s)
  take_pending key (m ∷ ms) s =
      let skipped = take_pending key ms s in
      let (items, left) = take_pending key ms (delete_key (key, m.msgid) s) in
      if truthy m.msgid then (queue_of (key, m.msgid) s ++ items, left) else skipped
