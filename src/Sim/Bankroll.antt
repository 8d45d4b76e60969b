-- ===== src/Sim/Bankroll.antt =====
-- crates/arbkit-sim/src/bankroll.rs: what each venue holds, free and locked, in two arrays of
-- thirty-two integers of cents. Sums saturate at the bounds of i64, as in the source.
pub mod Conserved
pub mod Moves
use arbkit.Prelude.{
  ℕ, suc, ◌-◌, Bool, true, false, Option, none, some, List, [], ◌∷◌, ◌++◌, Checked, accepted,
  rejected, length, get_or, set, replicate, ltb, ◌==◌, if◌then◌else◌,
}
use arbkit.Prelude.Int.{ℤ, pos, ◌-ℤ◌, leb_ℤ, ltb_ℤ, min_ℤ, max_ℤ, saturating_add, tdiv, scale}

abbrev pub max_bankroll_venues : ℕ
max_bankroll_venues = 32

abbrev pub transfer_friction_bps : ℕ
transfer_friction_bps = 0

pub record Bankroll : Type 0 where
  pub available : List ℤ
  pub locked : List ℤ

pub data BankrollError : Type 0 where
  too_many_venues : ℕ → BankrollError
  negative_initial_balance : ℕ → ℤ → BankrollError

unfoldable pub first_negative : ℕ → List ℤ → Option BankrollError
first_negative i [] = none
first_negative i (b ∷ bs) =
    if ltb_ℤ b (pos 0) then some (negative_initial_balance i b) else first_negative (suc i) bs

unfoldable pub new_bankroll : List ℤ → Checked BankrollError Bankroll
new_bankroll initial =
    if ltb max_bankroll_venues (length initial)
    then rejected (too_many_venues (length initial))
    else elim (first_negative 0 initial) [
      | some e ↦ rejected e
      | none ↦ accepted (record {
        available = initial ++ replicate (max_bankroll_venues - length initial) (pos 0);
        locked = replicate max_bankroll_venues (pos 0);
      })
    ]

unfoldable pub index : ℕ → Option ℕ
index venue = if ltb venue max_bankroll_venues then some venue else none

unfoldable pub available_at : ℕ → Bankroll → ℤ
available_at venue b = elim (index venue) [ none ↦ pos 0 | some i ↦ get_or b.available i (pos 0) ]

unfoldable pub locked_at : ℕ → Bankroll → ℤ
locked_at venue b = elim (index venue) [ none ↦ pos 0 | some i ↦ get_or b.locked i (pos 0) ]

abbrev pub write : ℕ → ℤ → ℤ → Bankroll → Bankroll
write i available locked b = record {
  available = set b.available i available;
  locked = set b.locked i locked;
}

-- The arithmetic of each operation on the two balances of a venue.
abbrev pub reserved : ℤ → ℤ → ℤ → ℤ × ℤ
reserved amount a l = (a -ℤ amount, saturating_add l amount)

abbrev pub refunded : ℤ → ℤ → ℤ → ℤ × ℤ
refunded unfilled a l =
    let refund = min_ℤ (max_ℤ unfilled (pos 0)) l in (saturating_add a refund, l -ℤ refund)

abbrev pub spent : ℤ → ℤ → ℤ
spent locked l = l -ℤ min_ℤ (max_ℤ locked (pos 0)) l

unfoldable pub reserve : ℕ → ℤ → Bankroll → Bankroll × Bool
reserve venue amount b = elim (index venue) [
  | none ↦ (b, false)
  | some i ↦
      let (a, l) = reserved amount (get_or b.available i (pos 0)) (get_or b.locked i (pos 0)) in
      if leb_ℤ amount (pos 0)
      then (b, true)
      else if ltb_ℤ (get_or b.available i (pos 0)) amount
      then (b, false)
      else (write i a l b, true)
]

unfoldable pub commit_fill : ℕ → ℤ → ℤ → Bankroll → Bankroll
commit_fill venue filled unfilled b = elim (index venue) [
  | none ↦ b
  | some i ↦
      let (a, l) = refunded unfilled (get_or b.available i (pos 0)) (get_or b.locked i (pos 0)) in
      write i a l b
]

unfoldable pub settle_loss : ℕ → ℤ → Bankroll → Bankroll
settle_loss venue locked b = elim (index venue) [
  | none ↦ b
  | some i ↦ record b { locked = set b.locked i (spent locked (get_or b.locked i (pos 0))) }
]

unfoldable pub apply_transfer_friction : ℤ → ℤ
apply_transfer_friction payout =
    if transfer_friction_bps == 0
    then payout
    else tdiv (scale payout (10_000 - transfer_friction_bps)) 10_000

unfoldable pub settle_win : ℕ → ℤ → ℤ → Bankroll → Bankroll
unfolding apply_transfer_friction
settle_win venue locked payout b = elim (index venue) [
  | none ↦ b
  | some i ↦
      write i
        (saturating_add (get_or b.available i (pos 0))
          (apply_transfer_friction (max_ℤ payout (pos 0))))
        (spent locked (get_or b.locked i (pos 0))) b
]

unfoldable pub saturating_total : List ℤ → ℤ → ℤ
saturating_total [] sum = sum
saturating_total (c ∷ cs) sum = saturating_total cs (saturating_add sum c)

abbrev pub total_available : Bankroll → ℤ
total_available b = saturating_total b.available (pos 0)

abbrev pub total_locked : Bankroll → ℤ
total_locked b = saturating_total b.locked (pos 0)
