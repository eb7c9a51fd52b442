-- ===== src/Batcher.antt =====
-- frontend/src/lib/messageBatcher.ts: batching of incoming messages. `Date.now()` is an argument,
-- and `localeCompare` a parameter.
pub mod Key
pub mod Sort
pub mod Conserve
pub mod Timers
mod Tests
use Prim.Native.String.{String}
use ircfiber_site.Common.{
  ℕ, ◌+◌, Bool, true, false, ◌||◌, Option, none, some, List, [], ◌∷◌, ◌++◌, leb, ◌==◌,
  if◌then◌else◌, is_empty,
}
use ircfiber_site.Batcher.Key.{text_eq, make_key, split_key}
use ircfiber_site.Batcher.Sort.{Message, sort}

-- The callbacks of the flush timer: `setTimeout(flushAll, 0)` and `setTimeout(checkFlush, 200)`.
pub data Callback : Type 0 where
  flush_all_now check_later : Callback

-- The timer in `flushTimeout`, with the time at which it is due.
pub record Timer : Type 0 where
  pub callback : Callback
  pub due : ℕ

-- One call of a flush function, for the backlog or for live messages.
pub record Flush : Type 0 where
  pub is_backfill : Bool
  pub network_id : List ℕ
  pub buffer_name : List ℕ
  pub msgs : List Message

-- A queue is a `Map` in insertion order.
abbrev pub Queue : Type 0
Queue = List (List ℕ × List Message)

-- The module's variables. `flushed` logs the calls of the two flush functions, oldest first.
pub record Batcher : Type 0 where
  pub has_flush_fn : Bool
  pub has_backfill_fn : Bool
  pub queue : Queue
  pub backfill_queue : Queue
  pub total_queued : ℕ
  pub total_backfill : ℕ
  pub flush_timeout : Option Timer
  pub backfill_timeout : Bool
  pub last_flush : ℕ
  pub flushed : List Flush

abbrev pub max_buffer_size : ℕ
max_buffer_size = 200

abbrev pub max_backfill_size : ℕ
max_backfill_size = 400

abbrev pub flush_interval_ms : ℕ
flush_interval_ms = 200

-- `list.push(msg)`, on the list under the key or on a new one.
unfoldable pub add : List ℕ → Message → Queue → Queue
add key m [] = (key, m ∷ []) ∷ []
add key m ((k, ms) ∷ q) = if text_eq k key then (k, ms ++ m ∷ []) ∷ q else (k, ms) ∷ add key m q

-- What the event loop brings, each with its time.
pub data Event : Type 0 where
  arrived : ℕ → List ℕ → List ℕ → Message → Bool → Event
  flush_timer_fired backfill_timer_fired : ℕ → Event

-- The timer is only set where none is.
abbrev pub arm : Timer → Option Timer → Option Timer
arm t none = some t
arm t (some old) = some old

module _ (locale_lt : String → String → Bool) where
  -- The loop over the snapshot of a queue.
  unfoldable pub calls : Bool → Queue → List Flush
  calls is_backfill [] = []
  calls is_backfill ((key, []) ∷ q) = calls is_backfill q
  calls is_backfill ((key, m ∷ ms) ∷ q) =
      record {
        is_backfill = is_backfill;
        network_id = (split_key key).0;
        buffer_name = (split_key key).1;
        msgs = sort locale_lt (m ∷ ms);
      }
      ∷ calls is_backfill q

  -- The live half of `flushAll`: without a flush function the queue is dropped.
  unfoldable pub flush_live : Batcher → Batcher
  flush_live b = if is_empty b.queue then b else record b {
    queue = [];
    total_queued = 0;
    flushed = if b.has_flush_fn then b.flushed ++ calls false b.queue else b.flushed;
  }

  unfoldable pub flush_backfill : Batcher → Batcher
  flush_backfill b = if is_empty b.backfill_queue then b else record b {
    backfill_queue = [];
    total_backfill = 0;
    flushed = if b.has_backfill_fn then b.flushed ++ calls true b.backfill_queue else b.flushed;
  }

  unfoldable pub flush_all : ℕ → Batcher → Batcher
  flush_all now b =
      flush_backfill
        (flush_live (record b { last_flush = now; flush_timeout = none; backfill_timeout = false }))

  unfoldable pub check_flush : ℕ → Batcher → Batcher
  check_flush now b =
      if b.last_flush == 0 || leb (b.last_flush + flush_interval_ms) now
      then flush_all now b
      else record b {
        flush_timeout =
            arm (record { callback = check_later; due = now + flush_interval_ms }) b.flush_timeout;
      }

  unfoldable pub enqueue_backfill : ℕ → List ℕ → Message → Batcher → Batcher
  enqueue_backfill now key m b =
      let added = record b {
        backfill_queue = add key m b.backfill_queue;
        total_backfill = b.total_backfill + 1;
      } in
      if leb max_backfill_size (b.total_backfill + 1) then flush_all now added else record added {
        backfill_timeout = true;
        flush_timeout = arm (record { callback = flush_all_now; due = now }) b.flush_timeout;
      }

  unfoldable pub enqueue_live : ℕ → List ℕ → Message → Batcher → Batcher
  enqueue_live now key m b =
      let added = record b { queue = add key m b.queue; total_queued = b.total_queued + 1 } in
      if leb max_buffer_size (b.total_queued + 1)
      then flush_all now added
      else check_flush now added

  -- `enqueueMessage`
  unfoldable pub enqueue_message : ℕ → List ℕ → List ℕ → Message → Bool → Batcher → Batcher
  enqueue_message now network_id buffer_name m is_backfill b =
      if is_backfill
      then enqueue_backfill now (make_key network_id buffer_name) m b
      else enqueue_live now (make_key network_id buffer_name) m b

  -- The flush timer fires; `flushTimeout` still holds it.
  unfoldable pub run_callback : ℕ → Callback → Batcher → Batcher
  run_callback now flush_all_now b = flush_all now b
  run_callback now check_later b = check_flush now b

  -- The backfill timer fires.
  unfoldable pub on_backfill_timeout : ℕ → Batcher → Batcher
  on_backfill_timeout now b = flush_all now b

  -- A timer that was cleared does not fire, nor one before it is due.
  unfoldable pub on_event : Event → Batcher → Batcher
  on_event (arrived now network_id buffer_name m is_backfill) b =
      enqueue_message now network_id buffer_name m is_backfill b
  on_event (flush_timer_fired now) b = elim b.flush_timeout [
    | none ↦ b
    | some t ↦ if leb t.due now then run_callback now t.callback b else b
  ]
  on_event (backfill_timer_fired now) b =
      if b.backfill_timeout then on_backfill_timeout now b else b

  unfoldable pub run : List Event → Batcher → Batcher
  run [] b = b
  run (e ∷ es) b = run es (on_event e b)
