-- ===== src/Lib.antt =====
-- arbkit looks for arbitrage between betting and prediction markets: it keeps a book of resting
-- orders for every outcome at every venue, asks a detector for a set of stakes that gains whatever
-- outcome settles, and executes the hedge under limits. This library models the parts that decide
-- about money and proves what they promise.
--
-- The parts, and where they are:
--
-- - crates/arbkit-core: Core. Prices and odds (price.rs) in Core/Price.antt, fees (fee.rs) in
--   Core/Fee.antt, handicap lines (market.rs) in Core/Market.antt, the book of one outcome (book.rs)
--   in Core/Book.antt, the share of depth that is counted on (fill.rs) in Core/Fill.antt. The
--   detector (arb.rs) is Core/Arb.antt with its children: Sizing (`Chunks::evaluate`, `distribute`,
--   `feasible`), Candidates (`Best::offer`, the closed-form seed and the binary search of `plan`) and
--   Detect (`detect_book`, `detect`, `plan`, the flattening and the report). The proofs follow the
--   flow backwards: Fits, Bumped and Targets for one sizing, Search and Seed for the candidates, Report for
--   the numbers reported, Backed, Flatten and Groups for where chunks come from, Planned for the whole of
--   `plan`, and Guarantee, Quotes, Optimal, Refused and Rejects for what a caller sees.
-- - crates/arbkit-engine: Engine. The slab of books and configurations with its signal cooldown
--   (slab.rs) in Engine/Slab.antt; Index and Cooldown prove its layout and its timing. The latency
--   histogram (histogram.rs) in Engine/Histogram.antt, with Bins and Ranks. The aggregator of a
--   market (aggregator.rs) in Engine/Aggregator.antt: Found says what a candidate stands for, Chosen
--   and Shopped how the plan is chosen, Legs, Sound and Evaluated take the detector's promises to the
--   books of the slab. The hot loop (engine.rs, `SignalEvent` of event.rs) in Engine/Loop.antt, with
--   Books, Emitted and Runs. The ring between threads (ring.rs) in Engine/Ring.antt, with Slots, Held,
--   Fifo and Queue; FeedSlot, SignalSlot and SignalLoaded have what its slots hold (event.rs).
-- - crates/arbkit-feed: Feed. The events (event.rs) and errors (error.rs) in Feed/Event.antt. The tape
--   (tape/) in Feed/Tape.antt: Bytes and Format have the header and the records (format.rs), Stream the
--   writer, the reader and the player; Roundtrip, Records, Replay, Filtered and Consumed have the proofs.
-- - crates/arbkit-exec: Exec. `RiskGate` (lib.rs) in Exec/Risk.antt, `HedgedExecutor` in
--   Exec/Executor.antt; Reserve, Stop and Outcomes have the proofs. The rate limiter and the circuit breaker
--   (state.rs) in Exec/Guards.antt, with their Laws. The ledger of fills (state.rs) in Exec/Ledger.antt and
--   the reconciliation of settlements (reconcile.rs) in Exec/Reconcile.antt, with Found,
--   Replayed and Accounts.
-- - crates/arbkit-sim: Sim. The bankroll of the simulator (bankroll.rs) in Sim/Bankroll.antt;
--   Conserved and Moves have the proofs.
-- - Prelude has Boolean tests, lists, integers and division; Tests has runs on concrete inputs.
--
-- How the code is rendered. Numbers are natural or integer; a cast that narrows keeps its `% 2 ^ 32`,
-- a saturating sum its clamp. The i128 quantities of the detector are exact: its prices are at most
-- 10 ^ 6 and its money below 2 ^ 63, so that no product nears 2 ^ 127. Fixed arrays are lists of the
-- array's length or of its part in use; parallel arrays are a list of records; the bit masks of
-- `plan` are a list of pairs. Loops are structural recursion over what they walk, or over the bound
-- that the source gives them: m rounds in `distribute`, 96 steps in the search, 2 ^ 96 being more
-- than any payout that a 64-bit budget can reach. The loop of the player runs on fuel, one turn for
-- each byte that is left and one more, since every turn reads a byte at least; were the turns used
-- up, it would return `unfinished`, which stands for no value of the source. Mutable state is passed
-- and returned. The two threads of the ring are an inductive relation with a step for each atomic
-- operation, under sequential consistency. A tape is a list of bytes in memory; a slice out of range is
-- a result of its own there.
-- Venue adapters are parameters of the executor, clock readings arguments
-- of the guards, and the rank of a percentile, which the code computes from a float, an argument.
--
-- Not modelled: constructors from floats and display, the simulator's clock and accounts, matching, the
-- parsers of venue messages, network clients, files on disk, and everything outside the Rust crates.
pub mod Prelude
pub mod Core
pub mod Feed
pub mod Engine
pub mod Exec
pub mod Sim
pub mod Tests
