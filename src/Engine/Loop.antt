-- ===== src/Engine/Loop.antt =====
-- crates/arbkit-engine/src/engine.rs: the hot loop. An event updates the books of the slab, and the
-- market of a book that may have changed is evaluated, unless its cooldown holds it back. The queues are
-- lists, oldest first, and the output has room for a number of signals; the clock is the reading that
-- the step is given. A counter is a u64.
pub mod Books
pub mod Emitted
pub mod Runs
use arbkit.Prelude.{
  ℕ, zero, suc, ◌+◌, ◌-◌, ◌%◌, ◌^◌, Bool, true, false, Option, none, some, List, [], ◌∷◌, ◌++◌,
  Checked, accepted, rejected, length, take, min, ltb, if◌then◌else◌,
}
use arbkit.Core.Book.{OutcomeBook, Level, max_levels, apply_snapshot, accept_seq, mark_stale}
use arbkit.Core.Arb.{Signal, Leg}
use arbkit.Feed.Event.{FeedEvent, snapshot, delta, trade, heartbeat, halt, timestamp_ns, market_id}
use arbkit.Engine.Histogram.{LatencyHistogram, new_histogram, record_latency}
use arbkit.Engine.Slab.{
  EngineError, EngineSlab, MarketConfig, new_slab, register_market, get_book, set_book,
  emit_admitted, note_emit, reset, max_outcomes,
}
use arbkit.Engine.Aggregator.{evaluate_market}

pub record EngineStats : Type 0 where
  pub events_processed : ℕ
  pub signals_emitted : ℕ
  pub snapshots_processed : ℕ
  pub deltas_processed : ℕ
  pub trades_processed : ℕ
  pub halts_processed : ℕ
  pub heartbeats_processed : ℕ

abbrev pub no_stats : EngineStats
no_stats = record {
  events_processed = 0;
  signals_emitted = 0;
  snapshots_processed = 0;
  deltas_processed = 0;
  trades_processed = 0;
  halts_processed = 0;
  heartbeats_processed = 0;
}

-- `+= 1` on a u64.
abbrev pub bump : ℕ → ℕ
bump n = (n + 1) % 2 ^ 64

pub record Engine : Type 0 where
  pub slab : EngineSlab
  pub histogram : LatencyHistogram
  pub stats : EngineStats

unfoldable pub new_engine : ℕ → Engine
new_engine max_markets = record {
  slab = new_slab max_markets;
  histogram = new_histogram;
  stats = no_stats;
}

unfoldable pub register : ℕ → MarketConfig → Engine → Checked EngineError Engine
register market config engine = elim (register_market market config engine.slab) [
  | rejected e ↦ rejected e
  | accepted slab ↦ accepted (record engine { slab = slab })
]

pub record SignalEvent : Type 0 where
  pub market : ℕ
  pub signal : Signal
  pub plan : List Leg
  pub ingest_timestamp_ns : ℕ
  pub signal_timestamp_ns : ℕ
  pub latency_ns : ℕ

-- A change of one book through `get_book_mut`, where the slab has it.
unfoldable pub update_book : ℕ → ℕ → ℕ → (OutcomeBook → OutcomeBook) → EngineSlab → EngineSlab
update_book market outcome venue f slab = elim (get_book market outcome venue slab) [
  | none ↦ slab
  | some book ↦ elim (set_book market outcome venue (f book) slab) [
    | none ↦ slab
    | some slab' ↦ slab'
  ]
]

unfoldable pub apply_delta : ℕ → Level → Bool → OutcomeBook → OutcomeBook
apply_delta seq level is_delete book =
    let (book', next) = accept_seq seq book in
    if next
    then (if is_delete then apply_snapshot [] seq book' else apply_snapshot (level ∷ []) seq book')
    else book'

-- The outcomes from `outcome` on, `n` of them, marked stale.
unfoldable pub halt_outcomes : ℕ → ℕ → ℕ → ℕ → EngineSlab → EngineSlab
halt_outcomes market venue zero outcome slab = slab
halt_outcomes market venue (suc n) outcome slab =
    halt_outcomes market venue n (suc outcome) (update_book market outcome venue mark_stale slab)

-- What an event does to the books.
unfoldable pub apply_event : FeedEvent → EngineSlab → EngineSlab
apply_event (snapshot venue market outcome seq time levels num_levels) slab =
    update_book market outcome venue (apply_snapshot (take (min num_levels max_levels) levels) seq)
      slab
apply_event (delta venue market outcome seq time level is_delete) slab =
    update_book market outcome venue (apply_delta seq level is_delete) slab
apply_event (trade venue market outcome seq time price size side) slab = slab
apply_event (heartbeat venue time) slab = slab
apply_event (halt venue market (some outcome) time reason) slab =
    update_book market outcome venue mark_stale slab
apply_event (halt venue market none time reason) slab =
    halt_outcomes market venue max_outcomes 0 slab

unfoldable pub count_event : FeedEvent → EngineStats → EngineStats
count_event (snapshot venue market outcome seq time levels num_levels) stats = record stats {
  snapshots_processed = bump stats.snapshots_processed;
}
count_event (delta venue market outcome seq time level is_delete) stats = record stats {
  deltas_processed = bump stats.deltas_processed;
}
count_event (trade venue market outcome seq time price size side) stats = record stats {
  trades_processed = bump stats.trades_processed;
}
count_event (heartbeat venue time) stats = record stats {
  heartbeats_processed = bump stats.heartbeats_processed;
}
count_event (halt venue market outcome time reason) stats = record stats {
  halts_processed = bump stats.halts_processed;
}

-- The market that is evaluated after the event: none after a trade or a heartbeat.
unfoldable pub evaluated_market : FeedEvent → Option ℕ
unfolding market_id
evaluated_market (trade venue market outcome seq time price size side) = none
evaluated_market (heartbeat venue time) = none
evaluated_market event = market_id event

-- The end of `process_event`, for an event of a market.
unfoldable pub evaluate_event : ℕ → ℕ → ℕ → Engine → Option SignalEvent × Engine
evaluate_event market ingest_timestamp_ns emit_timestamp_ns engine =
    if emit_admitted market emit_timestamp_ns engine.slab
    then elim (evaluate_market engine.slab market) [
      | rejected e ↦ (none, engine)
      | accepted none ↦ (none, engine)
      | accepted (some (signal, plan)) ↦ (
        some (record {
          market = market;
          signal = signal;
          plan = plan;
          ingest_timestamp_ns = ingest_timestamp_ns;
          signal_timestamp_ns = emit_timestamp_ns;
          latency_ns = emit_timestamp_ns - ingest_timestamp_ns;
        }),
        record engine {
          slab = note_emit market emit_timestamp_ns engine.slab;
          stats = record engine.stats { signals_emitted = bump engine.stats.signals_emitted };
        },
      )
    ]
    else (none, engine)

-- The engine once the event is counted, timed and applied.
unfoldable pub take_event : FeedEvent → ℕ → Engine → Engine
take_event event emit_timestamp_ns engine =
    let stats = record engine.stats { events_processed = bump engine.stats.events_processed } in
    record {
      slab = apply_event event engine.slab;
      histogram = record_latency (emit_timestamp_ns - timestamp_ns event) engine.histogram;
      stats = count_event event stats;
    }

unfoldable pub process_event : FeedEvent → ℕ → Engine → Option SignalEvent × Engine
unfolding take_event
process_event event emit_timestamp_ns engine =
    let engine' = take_event event emit_timestamp_ns engine in
    elim (evaluated_market event) [
      | none ↦ (none, engine')
      | some market ↦ evaluate_event market (timestamp_ns event) emit_timestamp_ns engine'
    ]

-- `try_push` on an output with room for `capacity` signals: a signal that does not fit is dropped.
unfoldable pub push_signal : ℕ → Option SignalEvent → List SignalEvent → List SignalEvent
push_signal capacity none output = output
push_signal capacity (some signal) output =
    if ltb (length output) capacity then output ++ (signal ∷ []) else output

-- `step`, with the clock reading that `clock_fn` gives: the input, the output and the engine after it,
-- and whether an event was taken.
unfoldable pub step :
    ℕ
    → ℕ
    → List FeedEvent
    → List SignalEvent
    → Engine
    → (List FeedEvent × List SignalEvent × Engine) × Bool
step capacity now_ns [] output engine = (([], output, engine), false)
step capacity now_ns (event ∷ input) output engine =
    let (signal, engine') = process_event event now_ns engine in
    ((input, push_signal capacity signal output, engine'), true)

unfoldable pub reset_engine : Engine → Engine
reset_engine engine = record {
  slab = reset engine.slab;
  histogram = new_histogram;
  stats = no_stats;
}
