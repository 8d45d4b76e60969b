-- ===== src/Exec/Reconcile.antt =====
-- crates/arbkit-exec/src/reconcile.rs: the orders in flight, polled and settled. The source of settlements is
-- a parameter: what it answers for an order, an error included.
pub mod Accounts
use arbkit.Prelude.{
  ℕ, ◌+◌, Bool, true, false, not, ◌&&◌, ◌||◌, Option, none, some, List, [], ◌∷◌, ◌++◌, Checked,
  accepted, rejected, leb, if◌then◌else◌,
}
use arbkit.Prelude.Int.{ℤ}
use arbkit.Exec.Risk.{Text}
use arbkit.Exec.Ledger.{
  InFlightOrder, ReconciledOrder, FillEvent, ReconciliationLedger, hex_id, same_text,
  register_order, apply_fill,
}

pub record Settlement : Type 0 where
  pub client_order_id : List ℕ
  pub venue_order_id : Text
  pub filled_stake_cents : ℤ
  pub realized_profit_cents : Option ℤ
  pub fees_paid_cents : ℤ
  pub status : Text

-- `SettlementSource::poll`
abbrev pub SettlementSource : Type 0
SettlementSource = InFlightOrder → Checked Text (Option FillEvent)

abbrev pub lower : ℕ → ℕ
lower c = if leb 65 c && leb c 90 then c + 32 else c

abbrev pub lower_text : Text → Text
lower_text [] = []
lower_text (c ∷ cs) = lower c ∷ lower_text cs

-- `eq_ignore_ascii_case`
abbrev pub same_word : Text → Text → Bool
same_word a b = same_text (lower_text a) (lower_text b)

-- `settled`, `unwound` and `canceled`
abbrev pub settled_status : Text
settled_status = 115 ∷ 101 ∷ 116 ∷ 116 ∷ 108 ∷ 101 ∷ 100 ∷ []

abbrev pub unwound_status : Text
unwound_status = 117 ∷ 110 ∷ 119 ∷ 111 ∷ 117 ∷ 110 ∷ 100 ∷ []

abbrev pub canceled_status : Text
canceled_status = 99 ∷ 97 ∷ 110 ∷ 99 ∷ 101 ∷ 108 ∷ 101 ∷ 100 ∷ []

unfoldable pub is_terminal_status : Text → Bool
is_terminal_status status =
    same_word status settled_status
    || same_word status unwound_status
    || same_word status canceled_status

pub record Reconciler : Type 0 where
  pub ledger : ReconciliationLedger
  pub in_flight : List InFlightOrder

unfoldable pub new_reconciler : ReconciliationLedger → Reconciler
new_reconciler ledger = record { ledger = ledger; in_flight = [] }

unfoldable pub register_all : List InFlightOrder → ReconciliationLedger → ReconciliationLedger
register_all [] ledger = ledger
register_all (order ∷ orders) ledger = register_all orders (register_order order ledger)

unfoldable pub seed_in_flight : List InFlightOrder → Reconciler → Reconciler
seed_in_flight orders r = record { ledger = register_all orders r.ledger; in_flight = orders }

-- `retain` of the orders with another client ID.
unfoldable pub without_order : List ℕ → List InFlightOrder → List InFlightOrder
without_order id [] = []
without_order id (order ∷ orders) =
    let rest = without_order id orders in
    if same_text order.client_order_id id then rest else order ∷ rest

unfoldable pub register_in_flight : InFlightOrder → Reconciler → Reconciler
register_in_flight order r = record {
  ledger = register_order order r.ledger;
  in_flight = without_order order.client_order_id r.in_flight ++ (order ∷ []);
}

unfoldable pub acknowledge_orders : List ℕ → Text → List InFlightOrder → List InFlightOrder
acknowledge_orders id venue_order_id [] = []
acknowledge_orders id venue_order_id (order ∷ orders) =
    (if same_text order.client_order_id id
      then record order { venue_order_id = some venue_order_id }
      else order)
    ∷ acknowledge_orders id venue_order_id orders

unfoldable pub acknowledge_entries :
    Text → Text → List (Text × ReconciledOrder) → List (Text × ReconciledOrder)
acknowledge_entries key venue_order_id [] = []
acknowledge_entries key venue_order_id (entry ∷ entries) =
    let rest = acknowledge_entries key venue_order_id entries in
    if same_text entry.0 key
    then (entry.0, record entry.1 { venue_order_id = some venue_order_id }) ∷ entries
    else entry ∷ rest

unfoldable pub acknowledge : List ℕ → Text → Reconciler → Reconciler
acknowledge id venue_order_id r = record {
  ledger = record r.ledger {
    orders = acknowledge_entries (hex_id id) venue_order_id r.ledger.orders;
  };
  in_flight = acknowledge_orders id venue_order_id r.in_flight;
}

abbrev pub settlement_of : InFlightOrder → FillEvent → Settlement
settlement_of order fill = record {
  client_order_id = order.client_order_id;
  venue_order_id = fill.venue_order_id;
  filled_stake_cents = fill.filled_stake_cents;
  realized_profit_cents = fill.realized_profit_cents;
  fees_paid_cents = fill.fee_cents;
  status = fill.status;
}

-- Has the venue acknowledged the order? An ID that is empty does not count.
abbrev pub is_acknowledged : Option Text → Bool
is_acknowledged none = false
is_acknowledged (some []) = false
is_acknowledged (some (c ∷ cs)) = true

-- What a pass over the orders leaves: those that remain, those that are settled, and the ledger.
pub record Pass : Type 0 where
  pub remaining : List InFlightOrder
  pub settled : List Settlement
  pub ledger : ReconciliationLedger

abbrev pub keeping : InFlightOrder → Pass → Pass
keeping order p = record p { remaining = order ∷ p.remaining }

abbrev pub settling : InFlightOrder → FillEvent → Pass → Pass
settling order fill p = record p { settled = settlement_of order fill ∷ p.settled }

-- An error with the ledger as the loop has it then.
abbrev pub after {ℓ} :
    {A : Type ℓ}
    → (A → A)
    → Checked (Text × ReconciliationLedger) A
    → Checked (Text × ReconciliationLedger) A
after f (rejected e) = rejected e
after f (accepted p) = accepted (f p)

unfoldable pub reconcile_orders :
    SettlementSource
    → List InFlightOrder
    → ReconciliationLedger
    → Checked (Text × ReconciliationLedger) Pass
reconcile_orders source [] ledger =
    accepted (record { remaining = []; settled = []; ledger = ledger })
reconcile_orders source (order ∷ orders) ledger = elim (is_acknowledged order.venue_order_id) [
  | false ↦ after (keeping order) (reconcile_orders source orders ledger)
  | true ↦ elim (source order) [
    | rejected e ↦ after (keeping order) (reconcile_orders source orders ledger)
    | accepted none ↦ after (keeping order) (reconcile_orders source orders ledger)
    | accepted (some fill) ↦ elim (apply_fill fill ledger) [
      | rejected e ↦ rejected (e, ledger)
      | accepted ledger' ↦ elim (is_terminal_status fill.status) [
        | true ↦ after (settling order fill) (reconcile_orders source orders ledger')
        | false ↦ after (keeping order) (reconcile_orders source orders ledger')
      ]
    ]
  ]
]

-- The orders are drained before the loop: when it stops with an error, none is in flight any more.
unfoldable pub reconcile :
    SettlementSource → Reconciler → Checked Text (List Settlement) × Reconciler
reconcile source r = elim (reconcile_orders source r.in_flight r.ledger) [
  | rejected (e, ledger) ↦ (rejected e, record { ledger = ledger; in_flight = [] })
  | accepted p ↦ (accepted p.settled, record { ledger = p.ledger; in_flight = p.remaining })
]
