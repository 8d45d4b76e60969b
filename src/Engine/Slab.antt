-- ===== src/Engine/Slab.antt =====
-- crates/arbkit-engine/src/slab.rs: the flat arrays of the engine, with a book for each market,
-- outcome and venue, a configuration and the time of the last signal for each market. A write
-- through `get_book_mut` or `get_config_mut` is `set_book` or `set_config`.
pub mod Index
pub mod Cooldown
use arbkit.Prelude.{
  ℕ, ◌+◌, ◌-◌, ◌*◌, Bool, true, false, not, ◌&&◌, ◌||◌, Option, none, some, List, [], ◌∷◌, Checked,
  accepted, rejected, length, get_or, set, replicate, map, ltb, leb, ◌==◌, if◌then◌else◌,
}
use arbkit.Prelude.Int.{ℤ, pos}
use arbkit.Core.Error.{ArbError, leg_count_out_of_range}
use arbkit.Core.Fee.{Fee, free}
use arbkit.Core.Book.{OutcomeBook, new}
use arbkit.Core.Arb.{max_legs}

-- The errors that the slab returns.
pub data EngineError : Type 0 where
  core : ArbError → EngineError
  market_out_of_range : ℕ → ℕ → EngineError

abbrev pub max_outcomes : ℕ
max_outcomes = 4

abbrev pub max_venues : ℕ
max_venues = 8

pub record MarketConfig : Type 0 where
  pub outcome_count : ℕ
  pub venue_fees : List Fee
  pub venue_increments : List ℤ
  pub venue_survival_bps : List ℕ
  pub signal_cooldown_ns : ℕ
  pub budget : ℤ
  pub active : Bool

abbrev pub default_market : MarketConfig
default_market = record {
  outcome_count = 2;
  venue_fees = replicate 8 free;
  venue_increments = replicate 8 (pos 1);
  venue_survival_bps = replicate 8 10_000;
  signal_cooldown_ns = 0;
  budget = pos 100_000;
  active = false;
}

pub record EngineSlab : Type 0 where
  pub books : List OutcomeBook
  pub configs : List MarketConfig
  pub last_emit_ns : List ℕ
  pub max_markets : ℕ

unfoldable pub new_slab : ℕ → EngineSlab
new_slab max_markets = record {
  books = replicate (max_markets * max_outcomes * max_venues) new;
  configs = replicate max_markets default_market;
  last_emit_ns = replicate max_markets 0;
  max_markets = max_markets;
}

unfoldable pub flat_index : ℕ → ℕ → ℕ → ℕ → Option ℕ
flat_index max_markets m o v =
    if leb max_markets m || leb max_outcomes o || leb max_venues v
    then none
    else some ((m * max_outcomes + o) * max_venues + v)

unfoldable pub register_market : ℕ → MarketConfig → EngineSlab → Checked EngineError EngineSlab
register_market m config slab =
    if leb slab.max_markets m
    then rejected (market_out_of_range m slab.max_markets)
    else if not (leb 2 config.outcome_count && leb config.outcome_count 4)
    then rejected (core (leg_count_out_of_range config.outcome_count))
    else accepted (record slab { configs = set slab.configs m config })

unfoldable pub get_book : ℕ → ℕ → ℕ → EngineSlab → Option OutcomeBook
get_book m o v slab = elim (flat_index slab.max_markets m o v) [
  | none ↦ none
  | some i ↦ some (get_or slab.books i new)
]

unfoldable pub set_book : ℕ → ℕ → ℕ → OutcomeBook → EngineSlab → Option EngineSlab
set_book m o v book slab = elim (flat_index slab.max_markets m o v) [
  | none ↦ none
  | some i ↦ some (record slab { books = set slab.books i book })
]

unfoldable pub get_config : ℕ → EngineSlab → Option MarketConfig
get_config m slab =
    if ltb m slab.max_markets then some (get_or slab.configs m default_market) else none

unfoldable pub set_config : ℕ → MarketConfig → EngineSlab → Option EngineSlab
set_config m config slab =
    if ltb m slab.max_markets
    then some (record slab { configs = set slab.configs m config })
    else none

unfoldable pub emit_admitted : ℕ → ℕ → EngineSlab → Bool
emit_admitted m now_ns slab =
    let cooldown = (get_or slab.configs m default_market).signal_cooldown_ns in
    let last = get_or slab.last_emit_ns m 0 in
    if leb slab.max_markets m
    then false
    else if cooldown == 0
    then true
    else not (not (last == 0) && ltb (now_ns - last) cooldown)

unfoldable pub note_emit : ℕ → ℕ → EngineSlab → EngineSlab
note_emit m now_ns slab =
    if ltb m slab.max_markets && not (now_ns == 0)
    then record slab { last_emit_ns = set slab.last_emit_ns m now_ns }
    else slab

unfoldable pub reset : EngineSlab → EngineSlab
reset slab = record slab {
  books = map (λ book. new) slab.books;
  configs = map (λ config. default_market) slab.configs;
  last_emit_ns = map (λ last. 0) slab.last_emit_ns;
}
