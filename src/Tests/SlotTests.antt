-- ===== src/Tests/SlotTests.antt =====
-- Tests of the slots of the ring (crates/arbkit-engine/src/event.rs): a trade and a signal in slots that held
-- something else before.
use arbkit.Prelude.{◌≡◌, refl, arith, replicate}
use arbkit.Prelude.Int.{pos, negsuc}
use arbkit.Core.Arb.{allocations}
use arbkit.Feed.Event.{FeedEvent, trade, sell, IsEvent}
use arbkit.Engine.Loop.{SignalEvent}
use arbkit.Engine.Ring.FeedSlot.{FeedEventSlot, store_event, load_event, load_event-store_event}
use arbkit.Engine.Ring.SignalSlot.{SignalEventSlot, store_signal, load_signal}
use arbkit.Engine.Ring.SignalLoaded.{IsSignal, load_signal-store_signal}
use arbkit.Tests.EngineTests.{quoted_signal, quoted_plan}

abbrev used_slot : FeedEventSlot
used_slot = record {
  kind = 1;
  market_id = 9;
  outcome_id = 9;
  venue_id = 9;
  num_levels = 8;
  seq = 9;
  timestamp_ns = 9;
  level_prices = replicate 8 400_000;
  level_sizes = replicate 8 (pos 9);
  extra_flags = 0;
}

abbrev a_sale : FeedEvent
a_sale = trade 2 10 100 7 1_000_500 (record { ppm = 520_000 }) (negsuc 4) sell

a_sale_held : IsEvent a_sale
a_sale_held = (
  (omega arith, omega arith, omega arith, omega arith, omega arith),
  (omega arith, omega arith),
  (omega arith, omega arith),
)

load_event-store_event_example : load_event (store_event a_sale used_slot) ≡ a_sale
load_event-store_event_example =
    load_event-store_event a_sale used_slot (record { prices = refl; sizes = refl }) a_sale_held

abbrev sent_signal : SignalEvent
sent_signal = record {
  market = 0;
  signal = quoted_signal;
  plan = quoted_plan;
  ingest_timestamp_ns = 200;
  signal_timestamp_ns = 250;
  latency_ns = 50;
}

abbrev used_signal_slot : SignalEventSlot
used_signal_slot = record {
  market_id = 5;
  len = 16;
  overround_ppm = 1;
  total_stake = 1;
  worst_case_profit = pos 1;
  profit_bps = 1;
  alloc_leg = replicate 16 1;
  alloc_stake = replicate 16 1;
  alloc_payout = replicate 16 1;
  plan_venue = replicate 16 1;
  plan_outcome = replicate 16 1;
  plan_quoted_ppm = replicate 16 1;
  plan_fee_tag = replicate 16 1;
  plan_fee_arg_bps = replicate 16 1;
  plan_increment = replicate 16 (pos 1);
  plan_capacity = replicate 16 (pos 1);
  plan_len = 16;
  ingest_timestamp_ns = 1;
  signal_timestamp_ns = 1;
  latency_ns = 1;
}

sent_signal-IsSignal : IsSignal sent_signal
unfolding allocations
sent_signal-IsSignal = record {
  fits = omega arith;
  filled = omega arith;
  padded = refl;
  legs = (omega arith, (omega arith, tt));
  short = omega arith;
  prices = ((omega arith, omega arith), ((omega arith, omega arith), tt));
}

load_signal-store_signal_example :
    load_signal (store_signal sent_signal used_signal_slot) ≡ sent_signal
load_signal-store_signal_example =
    load_signal-store_signal sent_signal used_signal_slot sent_signal-IsSignal
