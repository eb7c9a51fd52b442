-- ===== src/Batcher/Tests.antt =====
-- The batcher on concrete messages, and its theorems at concrete inputs.
use Prim.Native.String.{String}
use ircfiber_site.Common.{
  ℕ, ◌+◌, ◌≡◌, refl, Bool, true, false, none, some, List, [], ◌∷◌, ◌++◌, arith, ltb,
}
use ircfiber_site.Batcher.{
  check_later, Batcher, add, Event, arrived, flush_timer_fired, calls, flush_live, flush_backfill,
  flush_all, check_flush, enqueue_live, enqueue_message, on_event, run,
}
use ircfiber_site.Batcher.Key.{make_key, split_key}
use ircfiber_site.Batcher.Sort.{Message, time, eid_before, before, insert, insert_all, sort}
use ircfiber_site.Batcher.Conserve.{Test, delivered, held}
use ircfiber_site.Batcher.Conserve.Run.{arrivals, run-delivered}
use ircfiber_site.Batcher.Timers.{size, IsBatcher, on_event-IsBatcher}

-- A comparison under which all ids are equal.
abbrev never : String → String → Bool
never a b = false

abbrev message : ℕ → ℕ → Message
message t eid = record { t = some t; eid = some eid; msgid = none; text = "hi" }

abbrev idle : Batcher
idle = record {
  has_flush_fn = true;
  has_backfill_fn = true;
  queue = [];
  backfill_queue = [];
  total_queued = 0;
  total_backfill = 0;
  flush_timeout = none;
  backfill_timeout = false;
  last_flush = 0;
  flushed = [];
}

-- `n1` and `#a:b`
abbrev network : List ℕ
network = 110 ∷ 49 ∷ []

abbrev buffer : List ℕ
buffer = 35 ∷ 97 ∷ 58 ∷ 98 ∷ []

abbrev waiting : Batcher
waiting = record idle {
  queue = (network ++ b':' ∷ buffer, message 5 1 ∷ []) ∷ [];
  total_queued = 1;
  flush_timeout = some (record { callback = check_later; due = 1200 });
  last_flush = 1000;
}

at_once :
    (on_event never (arrived 700 network buffer (message 5 1) false) idle).flushed
    ≡ record {
      is_backfill = false;
      network_id = network;
      buffer_name = buffer;
      msgs = message 5 1 ∷ [];
    }
      ∷ []
unfolding on_event enqueue_message enqueue_live check_flush flush_all flush_live flush_backfill add
    calls make_key split_key sort insert_all insert
at_once = refl

reordered :
    sort never (message 5 2 ∷ message 5 1 ∷ message 4 9 ∷ [])
    ≡ message 4 9 ∷ message 5 1 ∷ message 5 2 ∷ []
unfolding sort insert_all insert before eid_before
reordered = refl

waiting-IsBatcher : IsBatcher waiting
unfolding size
waiting-IsBatcher = record {
  live_total = refl;
  backfill_total = refl;
  live_small = omega arith;
  backfill_small = omega arith;
  will_flush = λ e. omega arith;
  armed = λ h e. cc;
  backfill_armed = λ h. ground arith;
}

on_event-IsBatcher_example :
    IsBatcher (on_event never (arrived 1100 network buffer (message 6 2) true) waiting)
on_event-IsBatcher_example =
    on_event-IsBatcher never (arrived 1100 network buffer (message 6 2) true) waiting (omega arith)
      waiting-IsBatcher

abbrev early : Test
early network_id buffer_name m = ltb (time m) 6

abbrev arriving : List Event
arriving =
    arrived 1100 network buffer (message 4 2) true
    ∷ arrived 1101 network buffer (message 6 3) false
    ∷ flush_timer_fired 1200
    ∷ []

run-delivered_example :
    delivered early (flush_all never 1300 (run never arriving waiting)).flushed
    ≡ held early waiting + arrivals early arriving
run-delivered_example =
    run-delivered never early 1300 arriving waiting
      ((omega arith, (omega arith, tt)), ((omega arith, (omega arith, tt)), tt)) (refl, refl)
