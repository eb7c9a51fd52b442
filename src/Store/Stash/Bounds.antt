-- ===== src/Store/Stash/Bounds.antt =====
-- ircStore.svelte.ts: the sizes of the stashes.
use Prim.Native.String.{String}
use ircfiber_site.Common.{
  ◌+◌, ◌≤◌, ◌<◌, ◌≡◌, refl, inl, inr, List, [], ◌∷◌, ◌++◌, arith, Bool-cases, length, length-append,
  All, All-append,
}
use ircfiber_site.Store.Message.{IrcMessage, truthy}
use ircfiber_site.Store.Stash.{
  max_pending_rows, max_pending_per_row, Key, has_key, push_queued, evict_row, stash, delete_key,
  take_pending,
}

module _ {ℓ} {A : Type ℓ} where
  -- A queue in a stash holds between one item and 32.
  abbrev pub IsQueue : Key × List A → Type 0
  IsQueue (k, items) = (0 < length items) × (length items ≤ max_pending_per_row)

  -- At most 256 rows, each with a queue.
  abbrev pub IsStash : List (Key × List A) → Type 0
  IsStash s = (length s ≤ max_pending_rows) × All IsQueue s

  length-push_queued :
      (k : Key) (item : A) (s : List (Key × List A)) → length (push_queued k item s) ≡ length s
  unfolding push_queued
  length-push_queued k item [] = refl
  length-push_queued k item ((j, items) ∷ s) = ground (arith, length-push_queued k item s)

  push_queued-IsQueue :
      (k : Key) (item : A) (s : List (Key × List A))
      → All IsQueue s
      → All IsQueue (push_queued k item s)
  unfolding push_queued
  push_queued-IsQueue k item [] h = tt
  push_queued-IsQueue k item ((j, items) ∷ s) h =
      ground (arith, length-append items (item ∷ []), push_queued-IsQueue k item s h.1)

  evict_row-IsStash :
      (s : List (Key × List A))
      → length s ≤ max_pending_rows + 1
      → All IsQueue s
      → IsStash (evict_row s)
  unfolding evict_row
  evict_row-IsStash [] n h = ground arith
  evict_row-IsStash (x ∷ s) n h = ground arith

  -- A stash keeps at most 256 rows, with between one and 32 items each, whatever is stashed.
  pub stash-IsStash :
      (k : Key) (item : A) (s : List (Key × List A)) → IsStash s → IsStash (stash k item s)
  unfolding stash
  stash-IsStash k item s h =
      let one : All IsQueue ((k, item ∷ []) ∷ []) = (omega arith, tt) in
      elim (Bool-cases (has_key k s)) [
        | inl there ↦
            rw there ((rw (length-push_queued k item s) h.0), push_queued-IsQueue k item s h.1)
        | inr absent ↦ rw absent (
            evict_row-IsStash (s ++ (k, item ∷ []) ∷ [])
              (omega (arith, length-append s ((k, item ∷ []) ∷ [])))
              (All-append IsQueue s ((k, item ∷ []) ∷ []) h.1 one))
      ]

  delete_key-IsStash :
      (k : Key) (s : List (Key × List A))
      → All IsQueue s
      → (length (delete_key k s) ≤ length s) × All IsQueue (delete_key k s)
  unfolding delete_key
  delete_key-IsStash k [] h = (omega arith, tt)
  delete_key-IsStash k ((j, items) ∷ s) h = ground (arith, delete_key-IsStash k s h.1)

  -- Draining a stash for a page of rows keeps it one.
  pub take_pending-IsStash :
      (key : String) (ms : List IrcMessage) (s : List (Key × List A))
      → IsStash s
      → IsStash (take_pending key ms s).1
  unfolding take_pending
  take_pending-IsStash key [] s h = h
  take_pending-IsStash key (m ∷ ms) s h =
      let (shorter, queues) = delete_key-IsStash (key, m.msgid) s h.1 in
      elim (Bool-cases (truthy m.msgid)) [
        | inl named_row ↦
            rw named_row
              (take_pending-IsStash key ms (delete_key (key, m.msgid) s) (omega arith, queues))
        | inr unnamed ↦ rw unnamed (take_pending-IsStash key ms s h)
      ]
