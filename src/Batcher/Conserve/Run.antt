-- ===== src/Batcher/Conserve/Run.antt =====
-- messageBatcher.ts: the count of messages over a run of arrivals and timers.
use Prim.Native.String.{String}
use ircfiber_site.Common.{ℕ, ◌+◌, ◌≡◌, Bool, List, [], ◌∷◌, arith, if◌then◌else◌}
use ircfiber_site.Batcher.{
  Callback, flush_all_now, check_later, Batcher, Event, arrived, flush_timer_fired,
  backfill_timer_fired, flush_live, flush_backfill, flush_all, enqueue_message, run_callback,
  on_backfill_timeout, on_event, run,
}
use ircfiber_site.Batcher.Sort.{Message}
use ircfiber_site.Batcher.Key.{make_key, HasNoColon, split_key-make_key}
use ircfiber_site.Batcher.Conserve.{
  Test, queued, delivered, held, weight, IsWired, flush_all-held, flush_all-IsWired,
  check_flush-held, check_flush-IsWired, enqueue_live-held, enqueue_backfill-held,
  enqueue_live-IsWired, enqueue_backfill-IsWired,
}

-- How many of the messages that arrive pass.
unfoldable pub arrivals : Test → List Event → ℕ
arrivals p [] = 0
arrivals p (arrived now network_id buffer_name m is_backfill ∷ es) =
    (if p network_id buffer_name m then 1 else 0) + arrivals p es
arrivals p (flush_timer_fired now ∷ es) = arrivals p es
arrivals p (backfill_timer_fired now ∷ es) = arrivals p es

-- The ids of the networks that messages arrive for have no colon.
abbrev pub HasPlainIds : List Event → Type 0
HasPlainIds [] = Unit {0}
HasPlainIds (arrived now network_id buffer_name m is_backfill ∷ es) =
    HasNoColon network_id × HasPlainIds es
HasPlainIds (flush_timer_fired now ∷ es) = HasPlainIds es
HasPlainIds (backfill_timer_fired now ∷ es) = HasPlainIds es

module _ (locale_lt : String → String → Bool) (p : Test) where
  weight-make_key :
      (network_id buffer_name : List ℕ) (m : Message)
      → HasNoColon network_id
      → weight p (make_key network_id buffer_name) m ≡ (if p network_id buffer_name m then 1 else 0)
  unfolding weight
  weight-make_key network_id buffer_name m h = rw (split_key-make_key network_id buffer_name h)

  run_callback-held :
      (now : ℕ) (f : Callback) (b : Batcher)
      → IsWired b
      → (held p (run_callback locale_lt now f b) ≡ held p b)
        × IsWired (run_callback locale_lt now f b)
  unfolding run_callback
  run_callback-held now flush_all_now b w =
      (flush_all-held locale_lt p now b w, flush_all-IsWired locale_lt p now b w)
  run_callback-held now check_later b w =
      (check_flush-held locale_lt p now b w, check_flush-IsWired locale_lt p now b w)

  on_event-held :
      (e : Event) (b : Batcher)
      → HasPlainIds (e ∷ [])
      → IsWired b
      → (held p (on_event locale_lt e b) ≡ held p b + arrivals p (e ∷ []))
        × IsWired (on_event locale_lt e b)
  unfolding on_event enqueue_message arrivals on_backfill_timeout
  on_event-held (arrived now network_id buffer_name m is_backfill) b h w =
      let key = make_key network_id buffer_name in
      ground (
        arith,
        enqueue_live-held locale_lt p now key m b w,
        enqueue_backfill-held locale_lt p now key m b w,
        enqueue_live-IsWired locale_lt p now key m b w,
        enqueue_backfill-IsWired locale_lt p now key m b w,
        weight-make_key network_id buffer_name m h.0,
      )
  on_event-held (flush_timer_fired now) b h w =
      ground (arith, run_callback-held now flush_all_now b w, run_callback-held now check_later b w)
  on_event-held (backfill_timer_fired now) b h w =
      ground (arith, flush_all-held locale_lt p now b w, flush_all-IsWired locale_lt p now b w)

  run-held :
      (es : List Event) (b : Batcher)
      → HasPlainIds es
      → IsWired b
      → (held p (run locale_lt es b) ≡ held p b + arrivals p es) × IsWired (run locale_lt es b)
  unfolding run arrivals
  run-held [] b h w = (omega arith, w)
  run-held (arrived now network_id buffer_name m is_backfill ∷ es) b h w =
      let e = arrived now network_id buffer_name m is_backfill in
      let (k, w') = on_event-held e b (h.0, tt) w in
      let (k', v) = run-held es (on_event locale_lt e b) h.1 w' in (omega (arith, k, k'), v)
  run-held (flush_timer_fired now ∷ es) b h w =
      let e = flush_timer_fired now in
      let (k, w') = on_event-held e b tt w in
      let (k', v) = run-held es (on_event locale_lt e b) h w' in (omega (arith, k, k'), v)
  run-held (backfill_timer_fired now ∷ es) b h w =
      let e = backfill_timer_fired now in
      let (k, w') = on_event-held e b tt w in
      let (k', v) = run-held es (on_event locale_lt e b) h w' in (omega (arith, k, k'), v)

  flush_all-queues :
      (now : ℕ) (b : Batcher)
      → ((flush_all locale_lt now b).queue ≡ []) × ((flush_all locale_lt now b).backfill_queue ≡ [])
  unfolding flush_all flush_live flush_backfill
  flush_all-queues now b = ground arith

  -- Nothing is lost, repeated or sent to another buffer: after any arrivals and timers, on a
  -- batcher with both flush functions set, one flush more leaves nothing queued, and for each
  -- network, buffer and kind of message, the flush functions got as many as they had before, as
  -- were queued, and as arrived for that buffer. The ids of the networks have no colon.
  pub run-delivered :
      (now : ℕ) (es : List Event) (b : Batcher)
      → HasPlainIds es
      → IsWired b
      → delivered p (flush_all locale_lt now (run locale_lt es b)).flushed
        ≡ held p b + arrivals p es
  unfolding held queued
  run-delivered now es b h w =
      let (k, v) = run-held es b h w in
      let (live, backfill) = flush_all-queues now (run locale_lt es b) in
      ground (arith, flush_all-held locale_lt p now (run locale_lt es b) v, k, live, backfill)
