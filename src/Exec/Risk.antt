-- ===== src/Exec/Risk.antt =====
-- crates/arbkit-exec/src/lib.rs, `RiskConfig` and `RiskGate`: the limits before any order, the
-- reservation of capital with its rollback, and the release.
--
-- The bankroll is a function: a venue that the hash map does not hold has the balance zero, as
-- `entry(..).or_default()` gives it. Balances and stakes are integers; the i64 range is not
-- exceeded where sums only give back what a reservation took.
pub mod Reserve
pub mod Stop
use arbkit.Prelude.{
  ℕ, suc, ◌-◌, ◌^◌, Bool, true, false, ◌||◌, Option, none, some, List, [], ◌∷◌, ◌++◌, ltb, leb,
  ◌==◌, if◌then◌else◌,
}
use arbkit.Prelude.Int.{ℤ, pos, ◌+ℤ◌, ◌-ℤ◌, leb_ℤ, ltb_ℤ, min_ℤ, i64_max, saturating_add}
use arbkit.Core.Price.{Prob}

-- The bytes of a string.
abbrev pub Text : Type 0
Text = List ℕ

pub data VenueInstrumentRef : Type 0 where
  kalshi : Text → VenueInstrumentRef
  polymarket : List ℕ → VenueInstrumentRef

pub record ExecLeg : Type 0 where
  pub venue : ℕ
  pub instrument : VenueInstrumentRef
  pub limit_price : Prob
  pub stake_cents : ℤ
  pub client_order_id : List ℕ

pub record RiskConfig : Type 0 where
  pub max_stake_per_leg_cents : ℤ
  pub max_daily_loss_cents : ℤ
  pub max_open_trades : ℕ
  pub min_edge_bps : ℕ
  pub kill_switch : Bool

abbrev pub default_config : RiskConfig
default_config = record {
  max_stake_per_leg_cents = pos 5_000;
  max_daily_loss_cents = pos 50_000;
  max_open_trades = 1;
  min_edge_bps = 50;
  kill_switch = true;
}

abbrev pub micro_max_stake_per_leg_cents : ℤ
micro_max_stake_per_leg_cents = pos 200

unfoldable pub micro_live_config : RiskConfig → RiskConfig
micro_live_config env = record env {
  max_stake_per_leg_cents = min_ℤ env.max_stake_per_leg_cents micro_max_stake_per_leg_cents;
  max_daily_loss_cents = min_ℤ env.max_daily_loss_cents micro_max_stake_per_leg_cents;
}

pub data RiskRejection : Type 0 where
  kill_switch_on : RiskRejection
  edge_too_small : RiskRejection
  stake_cap : RiskRejection
  daily_loss : RiskRejection
  too_many_open_trades : RiskRejection
  insufficient_capital : RiskRejection

abbrev pub Balances : Type 0
Balances = ℕ → ℤ

pub record RiskGate : Type 0 where
  pub config : RiskConfig
  pub daily_loss_cents : ℤ
  pub open_trades : ℕ
  pub bankroll : Balances

unfoldable pub new_gate : RiskConfig → Balances → RiskGate
new_gate config balances = record {
  config = config;
  daily_loss_cents = pos 0;
  open_trades = 0;
  bankroll = balances;
}

abbrev pub credit : ℕ → ℤ → Balances → Balances
credit venue cents bankroll v = if v == venue then bankroll v +ℤ cents else bankroll v

abbrev pub debit : ℕ → ℤ → Balances → Balances
debit venue cents bankroll v = if v == venue then bankroll v -ℤ cents else bankroll v

unfoldable pub release : List (ℕ × ℤ) → Balances → Balances
release [] bankroll = bankroll
release (r ∷ reserved) bankroll = release reserved (credit r.0 r.1 bankroll)

-- The loop of `preflight`: the rejection, if any, and the bankroll that it leaves.
unfoldable pub reserve_legs :
    RiskConfig → List ExecLeg → List (ℕ × ℤ) → Balances → Option RiskRejection × Balances
reserve_legs config [] reserved bankroll = (none, bankroll)
reserve_legs config (leg ∷ legs) reserved bankroll =
    if leb_ℤ leg.stake_cents (pos 0) || ltb_ℤ config.max_stake_per_leg_cents leg.stake_cents
    then (some stake_cap, release reserved bankroll)
    else if ltb_ℤ (bankroll leg.venue) leg.stake_cents
    then (some insufficient_capital, release reserved bankroll)
    else reserve_legs config legs (reserved ++ ((leg.venue, leg.stake_cents) ∷ []))
        (debit leg.venue leg.stake_cents bankroll)

-- What `preflight` does once its loop has run.
abbrev pub open_trade : RiskGate → Option RiskRejection × Balances → Option RiskRejection × RiskGate
open_trade gate (none, bankroll) =
    (none, record gate { open_trades = suc gate.open_trades; bankroll = bankroll })
open_trade gate (some r, bankroll) = (some r, record gate { bankroll = bankroll })

-- `none` for `Ok(())`.
unfoldable pub preflight : ℕ → List ExecLeg → RiskGate → Option RiskRejection × RiskGate
preflight edge_bps legs gate =
    if gate.config.kill_switch
    then (some kill_switch_on, gate)
    else if ltb edge_bps gate.config.min_edge_bps
    then (some edge_too_small, gate)
    else if leb_ℤ gate.config.max_daily_loss_cents gate.daily_loss_cents
    then (some daily_loss, gate)
    else if leb gate.config.max_open_trades gate.open_trades
    then (some too_many_open_trades, gate)
    else open_trade gate (reserve_legs gate.config legs [] gate.bankroll)

unfoldable pub release_legs : List ExecLeg → Balances → Balances
release_legs [] bankroll = bankroll
release_legs (leg ∷ legs) bankroll = release_legs legs (credit leg.venue leg.stake_cents bankroll)

unfoldable pub release_trade : List ExecLeg → RiskGate → RiskGate
unfolding release_legs
release_trade legs gate = record gate {
  bankroll = release_legs legs gate.bankroll;
  open_trades = gate.open_trades - 1;
}

-- The negation of an i64, which wraps around at the least of them.
unfoldable pub neg_i64 : ℤ → ℤ
neg_i64 a = if ltb_ℤ (pos i64_max) (pos 0 -ℤ a) then (pos 0 -ℤ a) -ℤ pos (2 ^ 64) else pos 0 -ℤ a

unfoldable pub settle : ℤ → RiskGate → RiskGate
unfolding neg_i64
settle realized_profit_cents gate = record gate {
  daily_loss_cents =
      if ltb_ℤ realized_profit_cents (pos 0)
      then saturating_add gate.daily_loss_cents (neg_i64 realized_profit_cents)
      else gate.daily_loss_cents;
  open_trades = gate.open_trades - 1;
}
