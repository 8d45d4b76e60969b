-- ===== src/Feed/Event.antt =====
-- crates/arbkit-feed/src/event.rs and error.rs: the events of a venue feed, and the errors of the crate
-- that the tape code returns. A message of the source is a constructor.
use arbkit.Prelude.{
  All, ◌<◌, ◌^◌, ◌≡◌, ℕ, ◌-◌, Bool, Option, none, some, List, ◌++◌, length, take, replicate, min,
  ◌==◌, if◌then◌else◌,
}
use arbkit.Prelude.Int.{ℤ, IsI64}
use arbkit.Core.Error.{ArbError}
use arbkit.Core.Price.{Prob, IsProb}
use arbkit.Core.Book.{Level, blank_level, max_levels}

pub data TradeSide : Type 0 where
  unknown : TradeSide
  buy : TradeSide
  sell : TradeSide

unfoldable pub side_from_u8 : ℕ → TradeSide
side_from_u8 value = if value == 1 then buy else if value == 2 then sell else unknown

unfoldable pub side_to_u8 : TradeSide → ℕ
side_to_u8 unknown = 0
side_to_u8 buy = 1
side_to_u8 sell = 2

-- The fields stand in the order of the source: venue, market, outcome, sequence number and time,
-- where the variant has them, then its own.
pub data FeedEvent : Type 0 where
  snapshot : ℕ → ℕ → ℕ → ℕ → ℕ → List Level → ℕ → FeedEvent
  delta : ℕ → ℕ → ℕ → ℕ → ℕ → Level → Bool → FeedEvent
  trade : ℕ → ℕ → ℕ → ℕ → ℕ → Prob → ℤ → TradeSide → FeedEvent
  heartbeat : ℕ → ℕ → FeedEvent
  halt : ℕ → ℕ → Option ℕ → ℕ → ℕ → FeedEvent

unfoldable pub timestamp_ns : FeedEvent → ℕ
timestamp_ns (snapshot venue market outcome seq time levels num_levels) = time
timestamp_ns (delta venue market outcome seq time level is_delete) = time
timestamp_ns (trade venue market outcome seq time price size side) = time
timestamp_ns (heartbeat venue time) = time
timestamp_ns (halt venue market outcome time reason) = time

unfoldable pub venue_id : FeedEvent → ℕ
venue_id (snapshot venue market outcome seq time levels num_levels) = venue
venue_id (delta venue market outcome seq time level is_delete) = venue
venue_id (trade venue market outcome seq time price size side) = venue
venue_id (heartbeat venue time) = venue
venue_id (halt venue market outcome time reason) = venue

unfoldable pub market_id : FeedEvent → Option ℕ
market_id (snapshot venue market outcome seq time levels num_levels) = some market
market_id (delta venue market outcome seq time level is_delete) = some market
market_id (trade venue market outcome seq time price size side) = some market
market_id (heartbeat venue time) = none
market_id (halt venue market outcome time reason) = some market

unfoldable pub outcome_id : FeedEvent → Option ℕ
outcome_id (snapshot venue market outcome seq time levels num_levels) = some outcome
outcome_id (delta venue market outcome seq time level is_delete) = some outcome
outcome_id (trade venue market outcome seq time price size side) = some outcome
outcome_id (heartbeat venue time) = none
outcome_id (halt venue market outcome time reason) = outcome

-- A slice of levels in the array of the event, blank past its end.
abbrev pub level_buffer : List Level → List Level
level_buffer levels =
    take max_levels levels ++ replicate (max_levels - min (length levels) max_levels) blank_level

-- `FeedEvent::snapshot`
unfoldable pub make_snapshot : ℕ → ℕ → ℕ → ℕ → ℕ → List Level → FeedEvent
make_snapshot venue market outcome seq time levels =
    snapshot venue market outcome seq time (level_buffer levels) (min (length levels) max_levels)

pub data Corruption : Type 0 where
  empty_record : Corruption
  truncated_snapshot_header : Corruption
  truncated_snapshot_levels : Corruption
  truncated_delta : Corruption
  truncated_trade : Corruption
  truncated_heartbeat : Corruption
  truncated_halt : Corruption
  unknown_tag : Corruption

pub data HeaderFault : Type 0 where
  header_too_short : HeaderFault
  magic_mismatch : HeaderFault

pub data FeedError : Type 0 where
  invalid_price : ArbError → FeedError
  invalid_tape_header : HeaderFault → FeedError
  unsupported_tape_version : ℕ → ℕ → FeedError
  tape_corrupted : Corruption → FeedError
  buffer_overflow : ℕ → FeedError
  unexpected_eof : FeedError

-- A level that the types of the source can hold.
abbrev pub IsLevel : Level → Type 0
IsLevel l = IsProb l.price × IsI64 l.size

-- The place of an event: a u16, two u32 and two u64.
abbrev pub IsPlace : ℕ → ℕ → ℕ → ℕ → ℕ → Type 0
IsPlace venue market outcome seq time =
    (venue < 2 ^ 16) × (market < 2 ^ 32) × (outcome < 2 ^ 32) × (seq < 2 ^ 64) × (time < 2 ^ 64)

-- An event that the types of the source can hold.
abbrev pub IsEvent : FeedEvent → Type 0
IsEvent (snapshot venue market outcome seq time levels num_levels) =
    IsPlace venue market outcome seq time × All IsLevel levels × (length levels ≡ max_levels)
IsEvent (delta venue market outcome seq time level is_delete) =
    IsPlace venue market outcome seq time × IsLevel level
IsEvent (trade venue market outcome seq time price size side) =
    IsPlace venue market outcome seq time × IsProb price × IsI64 size
IsEvent (heartbeat venue time) = (venue < 2 ^ 16) × (time < 2 ^ 64)
IsEvent (halt venue market none time reason) =
    (venue < 2 ^ 16) × (market < 2 ^ 32) × (time < 2 ^ 64) × (reason < 2 ^ 8)
IsEvent (halt venue market (some outcome) time reason) =
    (venue < 2 ^ 16) × (market < 2 ^ 32) × (outcome < 2 ^ 32) × (time < 2 ^ 64) × (reason < 2 ^ 8)
