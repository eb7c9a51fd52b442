-- ===== src/Batcher/Conserve.antt =====
-- messageBatcher.ts: the messages that are held and those that were delivered, counted by
-- buffer.
pub mod Run
use Prim.Native.String.{String}
use ircfiber_site.Common.{
  ℕ, ◌+◌, ◌≡◌, refl, ◌∙◌, Bool, true, false, none, List, [], ◌∷◌, ◌++◌, arith, if◌then◌else◌,
}
use ircfiber_site.Batcher.{
  Flush, Queue, Batcher, add, calls, flush_live, flush_backfill, flush_all, check_flush,
  enqueue_backfill, enqueue_live,
}
use ircfiber_site.Batcher.Key.{split_key, text_eq→eq}
use ircfiber_site.Batcher.Sort.{Message, count, count-append, count-sort}

-- A property of a message and of the network and the buffer that it is for.
abbrev pub Test : Type 0
Test = List ℕ → List ℕ → Message → Bool

-- What a test says of the messages under a key.
abbrev pub under : Test → List ℕ → Message → Bool
under p key = p (split_key key).0 (split_key key).1

module _ (p : Test) where
  -- How many messages of a queue pass.
  pub queued : Queue → ℕ
  queued [] = 0
  queued ((key, ms) ∷ q) = count (under p key) ms + queued q

  -- How many messages that were handed to the flush functions pass.
  pub delivered : List Flush → ℕ
  delivered [] = 0
  delivered (f ∷ fs) = count (p f.network_id f.buffer_name) f.msgs + delivered fs

  delivered-append : (xs ys : List Flush) → delivered (xs ++ ys) ≡ delivered xs + delivered ys
  unfolding delivered
  delivered-append [] ys = omega arith
  delivered-append (x ∷ xs) ys = omega (arith, delivered-append xs ys)

  queued-add :
      (key : List ℕ) (m : Message) (q : Queue)
      → queued (add key m q) ≡ queued q + (if under p key m then 1 else 0)
  unfolding queued add count
  queued-add key m [] = omega arith
  queued-add key m ((k, ms) ∷ q) =
      ground (arith, queued-add key m q, text_eq→eq k key, count-append (under p k) ms (m ∷ []))

  -- How many messages that pass the batcher was given: those delivered and those queued.
  unfoldable pub held : Batcher → ℕ
  held b = delivered b.flushed + queued b.queue + queued b.backfill_queue

  -- What a message under a key adds.
  unfoldable pub weight : List ℕ → Message → ℕ
  weight key m = if under p key m then 1 else 0

-- Both flush functions are set.
abbrev pub IsWired : Batcher → Type 0
IsWired b = (b.has_flush_fn ≡ true) × (b.has_backfill_fn ≡ true)

module _ (locale_lt : String → String → Bool) (p : Test) where
  delivered-calls :
      (is_backfill : Bool) (q : Queue) → delivered p (calls locale_lt is_backfill q) ≡ queued p q
  unfolding delivered queued calls count
  delivered-calls is_backfill [] = refl
  delivered-calls is_backfill ((key, []) ∷ q) = omega (arith, delivered-calls is_backfill q)
  delivered-calls is_backfill ((key, m ∷ ms) ∷ q) =
      omega (arith, delivered-calls is_backfill q, count-sort locale_lt (under p key) (m ∷ ms))

  flush_live-held :
      (b : Batcher) → b.has_flush_fn ≡ true → held p (flush_live locale_lt b) ≡ held p b
  unfolding flush_live held queued
  flush_live-held b h = ground (
    arith,
    delivered-append p b.flushed (calls locale_lt false b.queue),
    delivered-calls false b.queue,
  )

  flush_backfill-held :
      (b : Batcher) → b.has_backfill_fn ≡ true → held p (flush_backfill locale_lt b) ≡ held p b
  unfolding flush_backfill held queued
  flush_backfill-held b h = ground (
    arith,
    delivered-append p b.flushed (calls locale_lt true b.backfill_queue),
    delivered-calls true b.backfill_queue,
  )

  flush_live-IsWired : (b : Batcher) → IsWired b → IsWired (flush_live locale_lt b)
  unfolding flush_live
  flush_live-IsWired b w = ground arith

  pub flush_all-held :
      (now : ℕ) (b : Batcher) → IsWired b → held p (flush_all locale_lt now b) ≡ held p b
  unfolding flush_all held
  flush_all-held now b w =
      let cleared = record b { last_flush = now; flush_timeout = none; backfill_timeout = false } in
      flush_backfill-held (flush_live locale_lt cleared) (flush_live-IsWired cleared w).1
      ∙ flush_live-held cleared w.0

  pub flush_all-IsWired : (now : ℕ) (b : Batcher) → IsWired b → IsWired (flush_all locale_lt now b)
  unfolding flush_all flush_live flush_backfill
  flush_all-IsWired now b w = ground arith

  pub check_flush-held :
      (now : ℕ) (b : Batcher) → IsWired b → held p (check_flush locale_lt now b) ≡ held p b
  unfolding check_flush held
  check_flush-held now b w = ground (arith, flush_all-held now b w)

  pub check_flush-IsWired :
      (now : ℕ) (b : Batcher) → IsWired b → IsWired (check_flush locale_lt now b)
  unfolding check_flush
  check_flush-IsWired now b w = ground (arith, flush_all-IsWired now b w)

  pub enqueue_live-held :
      (now : ℕ) (key : List ℕ) (m : Message) (b : Batcher)
      → IsWired b
      → held p (enqueue_live locale_lt now key m b) ≡ held p b + weight p key m
  unfolding enqueue_live held weight
  enqueue_live-held now key m b w =
      let added = record b { queue = add key m b.queue; total_queued = b.total_queued + 1 } in
      ground (
        arith,
        flush_all-held now added w,
        check_flush-held now added w,
        queued-add p key m b.queue,
      )

  pub enqueue_backfill-held :
      (now : ℕ) (key : List ℕ) (m : Message) (b : Batcher)
      → IsWired b
      → held p (enqueue_backfill locale_lt now key m b) ≡ held p b + weight p key m
  unfolding enqueue_backfill held weight
  enqueue_backfill-held now key m b w =
      let added = record b {
        backfill_queue = add key m b.backfill_queue;
        total_backfill = b.total_backfill + 1;
      } in
      ground (arith, flush_all-held now added w, queued-add p key m b.backfill_queue)

  pub enqueue_live-IsWired :
      (now : ℕ) (key : List ℕ) (m : Message) (b : Batcher)
      → IsWired b
      → IsWired (enqueue_live locale_lt now key m b)
  unfolding enqueue_live
  enqueue_live-IsWired now key m b w =
      let added = record b { queue = add key m b.queue; total_queued = b.total_queued + 1 } in
      ground (arith, flush_all-IsWired now added w, check_flush-IsWired now added w)

  pub enqueue_backfill-IsWired :
      (now : ℕ) (key : List ℕ) (m : Message) (b : Batcher)
      → IsWired b
      → IsWired (enqueue_backfill locale_lt now key m b)
  unfolding enqueue_backfill
  enqueue_backfill-IsWired now key m b w =
      let added = record b {
        backfill_queue = add key m b.backfill_queue;
        total_backfill = b.total_backfill + 1;
      } in
      ground (arith, flush_all-IsWired now added w)
