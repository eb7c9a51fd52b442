-- ===== src/Store/Fold/Late.antt =====
-- ircStore.svelte.ts: an item that comes before its row beside one that comes after it.
use Prim.Native.String.{String}
use text.Mathlib.TextEquality.{eq_iff}
use ircfiber_site.Common.{
  ℕ, ◌<◌, ◌≡◌, refl, inl, inr, Bool, true, false, none, some, List, [], ◌∷◌, ◌++◌, arith,
  Bool-cases, Option-cases, length, length-append,
}
use ircfiber_site.Store.Fold.{
  insert_item, sort_items, fold_item, fold_loop, fold_items, apply_found, apply_item,
}
use ircfiber_site.Store.Message.{IrcMessage, truthy, find_index, named}
use ircfiber_site.Store.Stash.{
  max_pending_rows, Key, same_key, queue_of, has_key, evict_row, stash, delete_key, take_pending,
}

same_key_eq : (j k : Key) → same_key j k ≡ true → j ≡ k
same_key_eq (b, i) (c, j) h = ground (arith, eq_iff b c, eq_iff i j)

same_key_refl : (k : Key) → same_key k k ≡ true
same_key_refl (b, i) = ground (arith, eq_iff b b, eq_iff i i)

find_index-tail :
    (p : IrcMessage → Bool) (m : IrcMessage) (ms : List IrcMessage) (i : ℕ)
    → find_index p (m ∷ ms) ≡ some i
    → p m ≡ false
    → (j : ℕ) × (find_index p ms ≡ some j)
unfolding find_index
find_index-tail p m ms i h off = elim (Option-cases (find_index p ms)) [
  | inl none_left ↦ absurd (ground (arith, h, off, none_left))
  | inr found ↦ found
]

other_key :
    (key id : String) (m : IrcMessage)
    → named id m ≡ false
    → truthy m.msgid ≡ true
    → same_key (key, id) (key, m.msgid) ≡ false
other_key key id m off t = ground (arith, eq_iff id m.msgid, eq_iff m.msgid id)

module _ {ℓ} {A : Type ℓ} where
  -- No row of a page has items in the stash.
  abbrev pub HasNone : String → List IrcMessage → List (Key × List A) → Type 0
  HasNone key [] s = Unit {0}
  HasNone key (m ∷ ms) s = (has_key (key, m.msgid) s ≡ false) × HasNone key ms s

  queue_of-absent : (k : Key) (s : List (Key × List A)) → has_key k s ≡ false → queue_of k s ≡ []
  unfolding has_key queue_of
  queue_of-absent k [] h = refl
  queue_of-absent k ((j, items) ∷ s) h = ground (arith, queue_of-absent k s)

  delete_key-absent : (k : Key) (s : List (Key × List A)) → has_key k s ≡ false → delete_key k s ≡ s
  unfolding has_key delete_key
  delete_key-absent k [] h = refl
  delete_key-absent k ((j, items) ∷ s) h = ground (arith, delete_key-absent k s)

  queue_of-snoc :
      (k : Key) (items : List A) (s : List (Key × List A))
      → has_key k s ≡ false
      → queue_of k (s ++ (k, items) ∷ []) ≡ items
  unfolding has_key queue_of
  queue_of-snoc k items [] h = ground (arith, same_key_refl k)
  queue_of-snoc k items ((j, old) ∷ s) h = ground (arith, queue_of-snoc k items s)

  delete_key-snoc :
      (k : Key) (items : List A) (s : List (Key × List A))
      → has_key k s ≡ false
      → delete_key k (s ++ (k, items) ∷ []) ≡ s
  unfolding has_key delete_key
  delete_key-snoc k items [] h = ground (arith, same_key_refl k)
  delete_key-snoc k items ((j, old) ∷ s) h = ground (arith, delete_key-snoc k items s)

  has_key-snoc :
      (i k : Key) (items : List A) (s : List (Key × List A))
      → has_key i s ≡ false
      → same_key k i ≡ false
      → has_key i (s ++ (k, items) ∷ []) ≡ false
  unfolding has_key
  has_key-snoc i k items [] h ne = ground (arith, ne)
  has_key-snoc i k items ((j, old) ∷ s) h ne = ground (arith, has_key-snoc i k items s, ne)

  take_pending-none :
      (key : String) (ms : List IrcMessage) (s : List (Key × List A))
      → HasNone key ms s
      → take_pending key ms s ≡ ([], s)
  unfolding take_pending
  take_pending-none key [] s h = refl
  take_pending-none key (m ∷ ms) s h = ground (
    arith,
    take_pending-none key ms s h.1,
    queue_of-absent (key, m.msgid) s h.0,
    delete_key-absent (key, m.msgid) s h.0,
  )

  take_pending-snoc :
      (key id : String) (item : A) (ms : List IrcMessage) (i : ℕ) (s : List (Key × List A))
      → find_index (named id) ms ≡ some i
      → has_key (key, id) s ≡ false
      → HasNone key ms s
      → take_pending key ms (s ++ ((key, id), item ∷ []) ∷ []) ≡ (item ∷ [], s)
  unfolding take_pending
  take_pending-snoc key id item [] i s found fresh h = unfold find_index in absurd (ground arith)
  take_pending-snoc key id item (m ∷ ms) i s found fresh h = elim (Bool-cases (named id m)) [
    | inl here ↦ ground (
      arith,
      eq_iff m.msgid id,
      queue_of-snoc (key, id) (item ∷ []) s fresh,
      delete_key-snoc (key, id) (item ∷ []) s fresh,
      take_pending-none key ms s h.1,
    )
    | inr elsewhere ↦
        let (j, later) = find_index-tail (named id) m ms i found elsewhere in
        let rest = take_pending-snoc key id item ms j s later fresh h.1 in
        (let stashed = s ++ ((key, id), item ∷ []) ∷ [] in
          elim (Bool-cases (truthy m.msgid)) [
            | inl t ↦
                let absent =
                  has_key-snoc (key, m.msgid) (key, id) (item ∷ []) s h.0
                    (other_key key id m elsewhere t) in
                rw
                  (
                    t,
                    queue_of-absent (key, m.msgid) stashed absent,
                    delete_key-absent (key, m.msgid) stashed absent,
                    rest,
                  )
                  refl
            | inr t ↦ rw t rest
          ])
  ]

  stash-fresh :
      (k : Key) (item : A) (s : List (Key × List A))
      → has_key k s ≡ false
      → length s < max_pending_rows
      → stash k item s ≡ s ++ (k, item ∷ []) ∷ []
  unfolding stash evict_row
  stash-fresh k item s fresh room = ground (arith, length-append s ((k, item ∷ []) ∷ []))

  -- An item whose row is not loaded waits in the stash. When a page with the row arrives, folding
  -- what is stashed for the page gives the rows and the stash that applying the item to the page
  -- would, if nothing else waits for that row or for a row of the page, and the stash has room.
  pub fold_items-late :
      (msgid_of : A → String) (update : IrcMessage → A → IrcMessage) (t_of : A → ℕ) (key : String)
      → (item : A) (list page : List IrcMessage) (i : ℕ) (s : List (Key × List A))
      → truthy (msgid_of item) ≡ true
      → find_index (named (msgid_of item)) list ≡ none
      → find_index (named (msgid_of item)) page ≡ some i
      → has_key (key, msgid_of item) s ≡ false
      → HasNone key page s
      → length s < max_pending_rows
      → let waiting = (apply_item msgid_of update key item list s).0.1 in
        let (items, left) = take_pending key page waiting in
        fold_items msgid_of update t_of key page items left
        ≡ (apply_item msgid_of update key item page s).0
  unfolding apply_item apply_found fold_items fold_loop fold_item sort_items insert_item
  fold_items-late msgid_of update t_of key item list page i s named_item unloaded loaded fresh h
        room =
      let taken = take_pending-snoc key (msgid_of item) item page i s loaded fresh h in
      rw (named_item, loaded, unloaded, stash-fresh (key, msgid_of item) item s fresh room, taken)
        (rw loaded refl)
