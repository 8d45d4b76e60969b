-- ===== src/Engine/Ring/SignalSlot.antt =====
-- crates/arbkit-engine/src/event.rs, `SignalEventSlot`: a signal with its execution plan in the atomic
-- fields of a slot of the ring, and read back. An event's plan is the list of its valid entries.
use arbkit.Prelude.{
  ℕ, zero, suc, ◌-◌, ◌%◌, List, [], ◌∷◌, ◌++◌, map, length, take, get_or, replicate, min, ◌==◌,
  if◌then◌else◌,
}
use arbkit.Prelude.Int.{ℤ, pos}
use arbkit.Core.Fee.{Fee, free, commission_bps, stake_fee_bps, maker_rebate_bps}
use arbkit.Core.Arb.{Leg, Allocation, allocations, from_raw_parts, max_chunks}
use arbkit.Core.Arb.Detect.{blank_allocation}
use arbkit.Engine.Loop.{SignalEvent}
use arbkit.Engine.Ring.FeedSlot.{load_price, overwrite}

unfoldable pub encode_fee : Fee → ℕ × ℕ
encode_fee free = (0, 0)
encode_fee (commission_bps bps) = (1, bps)
encode_fee (stake_fee_bps bps) = (2, bps)
encode_fee (maker_rebate_bps bps) = (3, bps)

unfoldable pub decode_fee : ℕ → ℕ → Fee
decode_fee tag arg =
    if tag == 1
    then commission_bps arg
    else if tag == 2
    then stake_fee_bps arg
    else if tag == 3
    then maker_rebate_bps arg
    else free

pub record SignalEventSlot : Type 0 where
  pub market_id : ℕ
  pub len : ℕ
  pub overround_ppm : ℕ
  pub total_stake : ℕ
  pub worst_case_profit : ℤ
  pub profit_bps : ℕ
  pub alloc_leg : List ℕ
  pub alloc_stake : List ℕ
  pub alloc_payout : List ℕ
  pub plan_venue : List ℕ
  pub plan_outcome : List ℕ
  pub plan_quoted_ppm : List ℕ
  pub plan_fee_tag : List ℕ
  pub plan_fee_arg_bps : List ℕ
  pub plan_increment : List ℤ
  pub plan_capacity : List ℤ
  pub plan_len : ℕ
  pub ingest_timestamp_ns : ℕ
  pub signal_timestamp_ns : ℕ
  pub latency_ns : ℕ

-- A leg's index is stored as a byte.
unfoldable pub store_signal : SignalEvent → SignalEventSlot → SignalEventSlot
unfolding encode_fee
store_signal item slot =
    let kept = take (min (length (allocations item.signal)) max_chunks) (allocations item.signal) in
    let legs = take (min (length item.plan) max_chunks) item.plan in
    record {
      market_id = item.market;
      len = min (length (allocations item.signal)) max_chunks;
      overround_ppm = item.signal.overround_ppm;
      total_stake = item.signal.total_stake;
      worst_case_profit = item.signal.worst_case_profit;
      profit_bps = item.signal.profit_bps;
      alloc_leg = overwrite (map (λ a. a.leg % 256) kept) slot.alloc_leg;
      alloc_stake = overwrite (map (λ a. a.stake) kept) slot.alloc_stake;
      alloc_payout = overwrite (map (λ a. a.payout) kept) slot.alloc_payout;
      plan_venue = overwrite (map (λ l. l.venue) legs) slot.plan_venue;
      plan_outcome = overwrite (map (λ l. l.outcome) legs) slot.plan_outcome;
      plan_quoted_ppm = overwrite (map (λ l. l.quoted.ppm) legs) slot.plan_quoted_ppm;
      plan_fee_tag = overwrite (map (λ l. (encode_fee l.fee).0) legs) slot.plan_fee_tag;
      plan_fee_arg_bps = overwrite (map (λ l. (encode_fee l.fee).1) legs) slot.plan_fee_arg_bps;
      plan_increment = overwrite (map (λ l. l.increment) legs) slot.plan_increment;
      plan_capacity = overwrite (map (λ l. l.capacity) legs) slot.plan_capacity;
      plan_len = min (length item.plan) max_chunks;
      ingest_timestamp_ns = item.ingest_timestamp_ns;
      signal_timestamp_ns = item.signal_timestamp_ns;
      latency_ns = item.latency_ns;
    }

abbrev pub load_allocation : SignalEventSlot → ℕ → Allocation
load_allocation slot i = record {
  leg = get_or slot.alloc_leg i 0;
  stake = get_or slot.alloc_stake i 0;
  payout = get_or slot.alloc_payout i 0;
}

unfoldable pub load_leg : SignalEventSlot → ℕ → Leg
unfolding decode_fee
load_leg slot i = record {
  venue = get_or slot.plan_venue i 0;
  outcome = get_or slot.plan_outcome i 0;
  quoted = load_price (get_or slot.plan_quoted_ppm i 0);
  fee = decode_fee (get_or slot.plan_fee_tag i 0) (get_or slot.plan_fee_arg_bps i 0);
  capacity = get_or slot.plan_capacity i (pos 0);
  increment = get_or slot.plan_increment i (pos 0);
}

-- The entries from index `i` on, `n` of them.
abbrev pub load_all {ℓ} : {A : Type ℓ} → (ℕ → A) → ℕ → ℕ → List A
load_all entry i zero = []
load_all entry i (suc n) = entry i ∷ load_all entry (suc i) n

unfoldable pub load_signal : SignalEventSlot → SignalEvent
unfolding load_leg
load_signal slot =
    let count = min slot.len max_chunks in
    record {
      market = slot.market_id;
      signal =
          from_raw_parts
            (load_all (load_allocation slot) 0 count
              ++ replicate (max_chunks - count) blank_allocation)
            slot.len slot.overround_ppm slot.total_stake slot.worst_case_profit slot.profit_bps;
      plan = load_all (load_leg slot) 0 slot.plan_len;
      ingest_timestamp_ns = slot.ingest_timestamp_ns;
      signal_timestamp_ns = slot.signal_timestamp_ns;
      latency_ns = slot.latency_ns;
    }
