-- ===== src/Batcher/Timers.antt =====
-- messageBatcher.ts: the bounds of the queues, and the timers that empty them.
use Prim.Native.String.{String}
use ircfiber_site.Common.{
  ℕ, ◌+◌, ◌≤◌, ◌<◌, ◌≡◌, refl, ◌≢◌, ◌⊎◌, inl, inr, Bool, true, false, Option, none, some, List, [],
  ◌∷◌, arith, leb, Bool-cases, Option-cases, length, length-append,
}
use ircfiber_site.Batcher.{
  Callback, flush_all_now, check_later, Timer, Queue, Batcher, max_buffer_size, max_backfill_size,
  flush_interval_ms, add, Event, arrived, flush_timer_fired, backfill_timer_fired, flush_live,
  flush_backfill, flush_all, check_flush, enqueue_backfill, enqueue_live, enqueue_message,
  run_callback, on_backfill_timeout, on_event,
}
use ircfiber_site.Batcher.Key.{make_key}
use ircfiber_site.Batcher.Sort.{Message}

-- How many messages are in a queue.
unfoldable pub size : Queue → ℕ
size [] = 0
size ((key, ms) ∷ q) = length ms + size q

size-add : (key : List ℕ) (m : Message) (q : Queue) → size (add key m q) ≡ size q + 1
unfolding size add
size-add key m [] = refl
size-add key m ((k, ms) ∷ q) = ground (arith, size-add key m q, length-append ms (m ∷ []))

-- A flush timer that checks the time will find it long enough since the last flush.
abbrev pub WillFlush : ℕ → Option Timer → Type 0
WillFlush last_flush none = Unit {0}
WillFlush last_flush (some t) =
    (t.callback ≡ check_later) → (last_flush + flush_interval_ms ≤ t.due)

-- The counters are the queues' sizes and under the caps, and while a message waits, a timer does.
pub record IsBatcher (b : Batcher) : Type 0 where
  pub live_total : b.total_queued ≡ size b.queue
  pub backfill_total : b.total_backfill ≡ size b.backfill_queue
  pub live_small : size b.queue < max_buffer_size
  pub backfill_small : size b.backfill_queue < max_backfill_size
  pub will_flush : WillFlush b.last_flush b.flush_timeout
  pub armed : (0 < size b.queue + size b.backfill_queue) → (b.flush_timeout ≢ none)
  pub backfill_armed : (0 < size b.backfill_queue) → (b.backfill_timeout ≡ true)

module _ (locale_lt : String → String → Bool) where
  size-flush_all :
      (now : ℕ) (b : Batcher)
      → (size (flush_all locale_lt now b).queue ≡ 0)
        × (size (flush_all locale_lt now b).backfill_queue ≡ 0)
  unfolding flush_all flush_live flush_backfill size
  size-flush_all now b = ground arith

  -- A flush leaves a batcher whose counters agree with its queues empty and in order.
  flush_all-IsBatcher :
      (now : ℕ) (b : Batcher)
      → b.total_queued ≡ size b.queue
      → b.total_backfill ≡ size b.backfill_queue
      → IsBatcher (flush_all locale_lt now b)
  unfolding flush_all flush_live flush_backfill size
  flush_all-IsBatcher now b h k = record {
    live_total = ground (arith, h, k);
    backfill_total = ground (arith, h, k);
    live_small = ground (arith, h, k);
    backfill_small = ground (arith, h, k);
    will_flush = ground arith;
    armed = λ e. ground (arith, h, k, e);
    backfill_armed = λ e. ground (arith, h, k, e);
  }

  check_flush-IsBatcher :
      (now : ℕ) (b : Batcher)
      → b.last_flush ≤ now
      → b.total_queued ≡ size b.queue
      → b.total_backfill ≡ size b.backfill_queue
      → size b.queue < max_buffer_size
      → size b.backfill_queue < max_backfill_size
      → WillFlush b.last_flush b.flush_timeout
      → ((0 < size b.backfill_queue) → (b.backfill_timeout ≡ true))
      → IsBatcher (flush_all locale_lt now b)
      → IsBatcher (check_flush locale_lt now b)
  unfolding check_flush
  check_flush-IsBatcher now b le h k l m w a f = record {
    live_total = ground arith;
    backfill_total = ground arith;
    live_small = ground arith;
    backfill_small = ground arith;
    will_flush = ground arith;
    armed = λ e. ground arith;
    backfill_armed = λ e. ground arith;
  }

  enqueue_live-IsBatcher :
      (now : ℕ) (key : List ℕ) (m : Message) (b : Batcher)
      → b.last_flush ≤ now
      → IsBatcher b
      → IsBatcher (enqueue_live locale_lt now key m b)
  unfolding enqueue_live
  enqueue_live-IsBatcher now key m b le v =
      let added = record b { queue = add key m b.queue; total_queued = b.total_queued + 1 } in
      let total : added.total_queued ≡ size added.queue =
        omega (arith, size-add key m b.queue, v.live_total) in
      let flushed = flush_all-IsBatcher now added total v.backfill_total in
      elim (Bool-cases (leb max_buffer_size (b.total_queued + 1))) [
        | inl full ↦ rw full flushed
        | inr room ↦ rw room (
            check_flush-IsBatcher now added le total v.backfill_total
              (ground (arith, size-add key m b.queue)) v.backfill_small v.will_flush
              v.backfill_armed flushed)
      ]

  enqueue_backfill-IsBatcher :
      (now : ℕ) (key : List ℕ) (m : Message) (b : Batcher)
      → IsBatcher b
      → IsBatcher (enqueue_backfill locale_lt now key m b)
  unfolding enqueue_backfill
  enqueue_backfill-IsBatcher now key m b v =
      let added = record b {
        backfill_queue = add key m b.backfill_queue;
        total_backfill = b.total_backfill + 1;
      } in
      let total : added.total_backfill ≡ size added.backfill_queue =
        omega (arith, size-add key m b.backfill_queue, v.backfill_total) in
      elim (Bool-cases (leb max_backfill_size (b.total_backfill + 1))) [
        | inl full ↦ rw full (flush_all-IsBatcher now added v.live_total total)
        | inr room ↦ rw room (record {
          live_total = v.live_total;
          backfill_total = total;
          live_small = v.live_small;
          backfill_small = ground (arith, size-add key m b.backfill_queue);
          will_flush = ground arith;
          armed = λ e. ground arith;
          backfill_armed = λ e. refl;
        })
      ]

  run_callback-IsBatcher :
      (now : ℕ) (f : Callback) (b : Batcher)
      → b.last_flush ≤ now
      → IsBatcher b
      → IsBatcher (run_callback locale_lt now f b)
  unfolding run_callback
  run_callback-IsBatcher now flush_all_now b le v =
      flush_all-IsBatcher now b v.live_total v.backfill_total
  run_callback-IsBatcher now check_later b le v =
      check_flush-IsBatcher now b le v.live_total v.backfill_total v.live_small v.backfill_small
        v.will_flush v.backfill_armed (flush_all-IsBatcher now b v.live_total v.backfill_total)

  -- The time of an event.
  abbrev pub time_of : Event → ℕ
  time_of (arrived now network_id buffer_name m is_backfill) = now
  time_of (flush_timer_fired now) = now
  time_of (backfill_timer_fired now) = now

  timer_cases :
      (now : ℕ) (b : Batcher)
      → (on_event locale_lt (flush_timer_fired now) b ≡ b)
        ⊎ ((f : Callback) × (on_event locale_lt (flush_timer_fired now) b
              ≡ run_callback locale_lt now f b))
  unfolding on_event
  timer_cases now b = elim (Option-cases b.flush_timeout) [
    | inl unset ↦ inl (ground arith)
    | inr (t, set) ↦ elim (Bool-cases (leb t.due now)) [
      | inl due ↦ inr (t.callback, ground arith)
      | inr early ↦ inl (ground arith)
    ]
  ]

  -- Every arrival and every timer keeps the batcher in order, if the clock does not go back: the
  -- counters are the queues' sizes, fewer than 200 live messages and 400 of the backlog wait, and
  -- while any message waits the flush timer is set, and for the backlog its own timer too.
  pub on_event-IsBatcher :
      (e : Event) (b : Batcher)
      → b.last_flush ≤ time_of e
      → IsBatcher b
      → IsBatcher (on_event locale_lt e b)
  unfolding on_event enqueue_message on_backfill_timeout
  on_event-IsBatcher (arrived now network_id buffer_name m true) b le v =
      enqueue_backfill-IsBatcher now (make_key network_id buffer_name) m b v
  on_event-IsBatcher (arrived now network_id buffer_name m false) b le v =
      enqueue_live-IsBatcher now (make_key network_id buffer_name) m b le v
  on_event-IsBatcher (flush_timer_fired now) b le v = elim (timer_cases now b) [
    | inl early ↦ rw early v
    | inr (f, due) ↦ rw due (run_callback-IsBatcher now f b le v)
  ]
  on_event-IsBatcher (backfill_timer_fired now) b le v = elim (Bool-cases b.backfill_timeout) [
    | inl set ↦
        let fired : on_event locale_lt (backfill_timer_fired now) b ≡ flush_all locale_lt now b =
          ground arith in
        rw fired (flush_all-IsBatcher now b v.live_total v.backfill_total)
    | inr unset ↦
        let same : on_event locale_lt (backfill_timer_fired now) b ≡ b = ground arith in rw same v
  ]

  flush_all-IsEmptied :
      (now : ℕ) (b : Batcher)
      → ((flush_all locale_lt now b).queue ≡ [])
        × ((flush_all locale_lt now b).backfill_queue ≡ [])
        × ((flush_all locale_lt now b).flush_timeout ≡ none)
  unfolding flush_all flush_live flush_backfill
  flush_all-IsEmptied now b = ground arith

  -- The flush timer never fires in vain: when it fires at or after its time, both queues are
  -- flushed and no timer is left, on a batcher in order.
  pub flush_timer-empties :
      (now : ℕ) (t : Timer) (b : Batcher)
      → IsBatcher b
      → b.flush_timeout ≡ some t
      → t.due ≤ now
      → ((on_event locale_lt (flush_timer_fired now) b).queue ≡ [])
        × ((on_event locale_lt (flush_timer_fired now) b).backfill_queue ≡ [])
        × ((on_event locale_lt (flush_timer_fired now) b).flush_timeout ≡ none)
  unfolding on_event run_callback check_flush
  flush_timer-empties now t b v set due = ground (arith, v.will_flush, flush_all-IsEmptied now b)
