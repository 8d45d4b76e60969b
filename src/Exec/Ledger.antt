-- ===== src/Exec/Ledger.antt =====
-- crates/arbkit-exec/src/state.rs, `ReconciliationLedger`: the fills that venues report, folded into the
-- orders and the money. The map of orders is a list of its entries in the order of iteration, with each
-- key once, so that the entry that is found is the one that `get_mut` returns. The fingerprint of a fill
-- is the record of the fields that the source joins with bars; only the venue's order ID can hold a bar,
-- so that two texts are equal exactly when all the fields are.
pub mod Found
pub mod Replayed
use arbkit.Prelude.{
  ℕ, ◌+◌, ◌/◌, ◌%◌, Bool, true, false, ◌&&◌, ◌||◌, Option, none, some, List, [], ◌∷◌, ◌++◌, Checked,
  accepted, rejected, replicate, ltb, ◌==◌, if◌then◌else◌,
}
use arbkit.Prelude.Int.{ℤ, pos, leb_ℤ, saturating_add}
use arbkit.Exec.Risk.{Text, VenueInstrumentRef}

pub record PersistedExecLeg : Type 0 where
  pub venue : ℕ
  pub instrument : VenueInstrumentRef
  pub limit_price_ppm : ℕ
  pub stake_cents : ℤ
  pub client_order_id : List ℕ

pub record InFlightOrder : Type 0 where
  pub client_order_id : List ℕ
  pub leg : PersistedExecLeg
  pub created_at_ms : ℕ
  pub venue_order_id : Option Text

pub record ReconciledOrder : Type 0 where
  pub client_order_id : List ℕ
  pub venue_order_id : Option Text
  pub requested_stake_cents : ℤ
  pub filled_stake_cents : ℤ
  pub status : Text

pub record FillEvent : Type 0 where
  pub client_order_id : Option (List ℕ)
  pub venue_order_id : Text
  pub filled_stake_cents : ℤ
  pub fee_cents : ℤ
  pub realized_profit_cents : Option ℤ
  pub status : Text

pub record Fingerprint : Type 0 where
  pub key : Text
  pub client : Text
  pub venue : Text
  pub stake : ℤ
  pub fee : ℤ
  pub profit : Option ℤ

pub record ReconciliationLedger : Type 0 where
  pub orders : List (Text × ReconciledOrder)
  pub realized_profit_cents : ℤ
  pub fees_paid_cents : ℤ
  pub applied_fills : List Fingerprint

abbrev pub hex_digit : ℕ → ℕ
hex_digit n = if ltb n 10 then 48 + n else 87 + n

-- Two hexadecimal digits for each byte.
unfoldable pub hex_id : List ℕ → Text
hex_id [] = []
hex_id (b ∷ bs) = hex_digit (b / 16) ∷ hex_digit (b % 16) ∷ hex_id bs

unfoldable pub same_text : Text → Text → Bool
same_text [] [] = true
same_text [] (b ∷ bs) = false
same_text (a ∷ as_) [] = false
same_text (a ∷ as_) (b ∷ bs) = if a == b then same_text as_ bs else false

abbrev pub same_cents : ℤ → ℤ → Bool
same_cents a b = leb_ℤ a b && leb_ℤ b a

abbrev pub same_profit : Option ℤ → Option ℤ → Bool
same_profit none none = true
same_profit none (some b) = false
same_profit (some a) none = false
same_profit (some a) (some b) = same_cents a b

unfoldable pub same_fill : Fingerprint → Fingerprint → Bool
same_fill a b =
    same_text a.key b.key
    && same_text a.client b.client
    && same_text a.venue b.venue
    && same_cents a.stake b.stake
    && same_cents a.fee b.fee
    && same_profit a.profit b.profit

-- `HashSet::contains`
unfoldable pub is_applied : Fingerprint → List Fingerprint → Bool
is_applied p [] = false
is_applied p (q ∷ qs) = same_fill p q || is_applied p qs

-- `open`
abbrev pub open_status : Text
open_status = 111 ∷ 112 ∷ 101 ∷ 110 ∷ []

abbrev pub registered_order : InFlightOrder → ReconciledOrder
registered_order order = record {
  client_order_id = order.client_order_id;
  venue_order_id = order.venue_order_id;
  requested_stake_cents = order.leg.stake_cents;
  filled_stake_cents = pos 0;
  status = open_status;
}

-- `HashMap::insert`
unfoldable pub insert_order :
    Text → ReconciledOrder → List (Text × ReconciledOrder) → List (Text × ReconciledOrder)
insert_order key order [] = (key, order) ∷ []
insert_order key order (entry ∷ entries) =
    let rest = insert_order key order entries in
    if same_text entry.0 key then (key, order) ∷ entries else entry ∷ rest

unfoldable pub register_order : InFlightOrder → ReconciliationLedger → ReconciliationLedger
register_order order ledger = record ledger {
  orders = insert_order (hex_id order.client_order_id) (registered_order order) ledger.orders;
}

abbrev pub is_text : Option Text → Text → Bool
is_text none text = false
is_text (some found) text = same_text found text

-- Is the fill about the order, by either of its IDs?
unfoldable pub is_about : FillEvent → ReconciledOrder → Bool
is_about fill order =
    is_text order.venue_order_id fill.venue_order_id
    || is_text fill.client_order_id order.client_order_id

unfoldable pub find_order : FillEvent → List (Text × ReconciledOrder) → Option Text
find_order fill [] = none
find_order fill (entry ∷ entries) =
    let rest = find_order fill entries in if is_about fill entry.1 then some entry.0 else rest

unfoldable pub filled_order : FillEvent → ReconciledOrder → ReconciledOrder
filled_order fill order = record order {
  venue_order_id = some fill.venue_order_id;
  filled_stake_cents = fill.filled_stake_cents;
  status = fill.status;
}

-- The order that `find_order` finds, filled.
unfoldable pub fill_order :
    FillEvent → List (Text × ReconciledOrder) → List (Text × ReconciledOrder)
fill_order fill [] = []
fill_order fill (entry ∷ entries) =
    let rest = fill_order fill entries in
    if is_about fill entry.1 then (entry.0, filled_order fill entry.1) ∷ entries else entry ∷ rest

-- `unwrap_or_default` of sixteen bytes.
abbrev pub id_or_default : Option (List ℕ) → List ℕ
id_or_default none = replicate 16 0
id_or_default (some id) = id

unfoldable pub fingerprint : Text → FillEvent → Fingerprint
fingerprint key fill = record {
  key = key;
  client = hex_id (id_or_default fill.client_order_id);
  venue = fill.venue_order_id;
  stake = fill.filled_stake_cents;
  fee = fill.fee_cents;
  profit = fill.realized_profit_cents;
}

abbrev pub add_profit : Option ℤ → ℤ → ℤ
add_profit none total = total
add_profit (some profit) total = saturating_add total profit

-- The ledger with a fill that it has not seen.
unfoldable pub fold_fill : Fingerprint → FillEvent → ReconciliationLedger → ReconciliationLedger
fold_fill print fill ledger = record {
  orders = fill_order fill ledger.orders;
  realized_profit_cents = add_profit fill.realized_profit_cents ledger.realized_profit_cents;
  fees_paid_cents = saturating_add ledger.fees_paid_cents fill.fee_cents;
  applied_fills = print ∷ ledger.applied_fills;
}

-- The error names the order that is not known.
unfoldable pub apply_fill : FillEvent → ReconciliationLedger → Checked Text ReconciliationLedger
unfolding fold_fill
apply_fill fill ledger = elim (find_order fill ledger.orders) [
  | none ↦ rejected fill.venue_order_id
  | some key ↦
      if is_applied (fingerprint key fill) ledger.applied_fills
      then accepted ledger
      else accepted (fold_fill (fingerprint key fill) fill ledger)
]
