-- ===== src/Tests/LedgerTests.antt =====
-- Tests of the ledger of fills and the reconciler (crates/arbkit-exec/src/state.rs and reconcile.rs): two orders
-- in flight, one of them acknowledged, and an application of each theorem that has hypotheses.
use arbkit.Prelude.{ℕ, ◌≡◌, refl, Option, none, some, List, [], ◌∷◌, accepted, inl}
use arbkit.Prelude.Int.{pos}
use arbkit.Exec.Risk.{Text, kalshi}
use arbkit.Exec.Ledger.{
  InFlightOrder, FillEvent, ReconciliationLedger, apply_fill, find_order, is_about, hex_id,
  same_text, is_applied, insert_order, register_order, open_status, fill_order, filled_order,
  same_fill, fingerprint, fold_fill,
}
use arbkit.Exec.Ledger.Found.{IsFirst}
use arbkit.Exec.Ledger.Replayed.{report_fill, report_fills, apply_fill_again}
use arbkit.Exec.Reconcile.{
  SettlementSource, Reconciler, settled_status, is_terminal_status, new_reconciler, register_all,
  seed_in_flight, reconcile_orders, reconcile, settlement_of,
}
use arbkit.Exec.Reconcile.Accounts.{Reconciled, reconcile-Reconciled}

abbrev empty_ledger : ReconciliationLedger
empty_ledger = record {
  orders = [];
  realized_profit_cents = pos 0;
  fees_paid_cents = pos 0;
  applied_fills = [];
}

abbrev sent_order : ℕ → Option Text → InFlightOrder
sent_order id venue_order_id = record {
  client_order_id = id ∷ [];
  leg = record {
    venue = 0;
    instrument = kalshi [];
    limit_price_ppm = 480_000;
    stake_cents = pos 100;
    client_order_id = id ∷ [];
  };
  created_at_ms = 5;
  venue_order_id = venue_order_id;
}

abbrev known_order : InFlightOrder
known_order = sent_order 1 (some (77 ∷ []))

abbrev two_in_flight : List InFlightOrder
two_in_flight = known_order ∷ sent_order 2 none ∷ []

abbrev final_fill : FillEvent
final_fill = record {
  client_order_id = some (1 ∷ []);
  venue_order_id = 77 ∷ [];
  filled_stake_cents = pos 100;
  fee_cents = pos 3;
  realized_profit_cents = some (pos 20);
  status = settled_status;
}

abbrev venue_source : SettlementSource
venue_source order = accepted (some final_fill)

abbrev seeded : Reconciler
seeded = seed_in_flight two_in_flight (new_reconciler empty_ledger)

abbrev partial_fill : FillEvent
partial_fill = record final_fill {
  filled_stake_cents = pos 40;
  realized_profit_cents = none;
  status = open_status;
}

abbrev stray_fill : FillEvent
stray_fill = record final_fill { client_order_id = none; venue_order_id = 78 ∷ [] }

abbrev after_partial : ReconciliationLedger
after_partial = report_fill partial_fill seeded.ledger

partly_filled : apply_fill partial_fill seeded.ledger ≡ accepted after_partial
unfolding seed_in_flight new_reconciler register_all register_order insert_order apply_fill
    find_order is_about is_applied same_text hex_id
partly_filled = refl

known-IsFirst : IsFirst partial_fill (48 ∷ 49 ∷ []) seeded.ledger.orders
unfolding seed_in_flight new_reconciler register_all register_order insert_order same_text hex_id
known-IsFirst = inl (inl refl, refl)

still-IsFirst :
    IsFirst partial_fill
      (48 ∷ 49 ∷ [])
      (report_fills (final_fill ∷ stray_fill ∷ []) after_partial).orders
unfolding seed_in_flight new_reconciler register_all register_order insert_order apply_fill
    find_order is_about is_applied same_text hex_id fill_order filled_order same_fill fingerprint
    fold_fill
still-IsFirst = inl (inl refl, refl)

-- The partial fill is reported again after the final one and one that is refused.
apply_fill_again_example :
    apply_fill partial_fill (report_fills (final_fill ∷ stray_fill ∷ []) after_partial)
    ≡ accepted (report_fills (final_fill ∷ stray_fill ∷ []) after_partial)
apply_fill_again_example =
    apply_fill_again partial_fill seeded.ledger after_partial (final_fill ∷ stray_fill ∷ [])
      (48 ∷ 49 ∷ []) partly_filled known-IsFirst still-IsFirst

reconcile-Reconciled_example :
    Reconciled venue_source seeded.in_flight (reconcile venue_source seeded)
reconcile-Reconciled_example = reconcile-Reconciled venue_source seeded

one_settled :
    (reconcile venue_source seeded).0 ≡ accepted (settlement_of known_order final_fill ∷ [])
unfolding reconcile reconcile_orders seed_in_flight new_reconciler register_all register_order
    insert_order apply_fill find_order is_about is_applied is_terminal_status same_text hex_id
one_settled = refl

one_left : (reconcile venue_source seeded).1.in_flight ≡ sent_order 2 none ∷ []
unfolding reconcile reconcile_orders seed_in_flight new_reconciler register_all register_order
    insert_order apply_fill find_order is_about is_applied is_terminal_status same_text hex_id
one_left = refl

-- A fill about an order that the ledger does not know: both orders are gone.
abbrev orphaned : Reconciler
orphaned = record { ledger = empty_ledger; in_flight = two_in_flight }

none_left : (reconcile venue_source orphaned).1.in_flight ≡ []
unfolding reconcile reconcile_orders apply_fill find_order
none_left = refl
