-- ===== src/Exec/Reconcile/Accounts.antt =====
-- Where the orders in flight go (crates/arbkit-exec/src/reconcile.rs, `reconcile`).
use arbkit.Prelude.{
  ℕ, zero, suc, ◌≡◌, refl, true, false, Option, none, some, List, [], ◌∷◌, Checked, accepted,
  rejected, get_elem?, All, Bool-cases, inl, inr, ◌⊎◌,
}
use arbkit.Exec.Risk.{Text}
use arbkit.Exec.Ledger.{InFlightOrder, FillEvent, ReconciliationLedger, apply_fill}
use arbkit.Exec.Ledger.Found.{IsForeign}
use arbkit.Exec.Ledger.Replayed.{apply_fill-rejected}
use arbkit.Exec.Reconcile.{
  Settlement, SettlementSource, is_terminal_status, Reconciler, settlement_of, is_acknowledged,
  Pass, keeping, settling, after, reconcile_orders, reconcile,
}

-- An order that is not settled: it is not acknowledged, or the source fails, says nothing, or tells of no end.
abbrev pub IsPending : SettlementSource → InFlightOrder → Type 0
IsPending source order =
    (is_acknowledged order.venue_order_id ≡ false)
    ⊎ ((e : Text) × (source order ≡ rejected e))
    ⊎ (source order ≡ accepted none)
    ⊎ ((fill : FillEvent) × (source order ≡ accepted (some fill))
        × (is_terminal_status fill.status ≡ false))

-- The orders, those of them that stay in flight, and the settlements of the others, in order.
pub data Accounted (source : SettlementSource)
    : List InFlightOrder → List InFlightOrder → List Settlement → Type 0 where
  done : Accounted source [] [] []
  keeps :
      {os ks : List InFlightOrder} {ss : List Settlement} (order : InFlightOrder)
      → IsPending source order
      → Accounted source os ks ss
      → Accounted source (order ∷ os) (order ∷ ks) ss
  settles :
      {os ks : List InFlightOrder} {ss : List Settlement} (order : InFlightOrder) (fill : FillEvent)
      → is_acknowledged order.venue_order_id ≡ true
      → source order ≡ accepted (some fill)
      → is_terminal_status fill.status ≡ true
      → Accounted source os ks ss
      → Accounted source (order ∷ os) ks (settlement_of order fill ∷ ss)

-- The order is acknowledged and the source has a fill for it that is about no order of the ledger; this is
-- the venue's ID in it.
abbrev pub IsOrphan : SettlementSource → InFlightOrder → ReconciliationLedger → Text → Type 0
IsOrphan source order ledger e =
    (fill : FillEvent) × (is_acknowledged order.venue_order_id ≡ true)
    × (source order ≡ accepted (some fill))
    × (e ≡ fill.venue_order_id)
    × All (λ entry. IsForeign fill entry.1) ledger.orders

-- One of the orders is such.
abbrev pub IsUnknown : SettlementSource → List InFlightOrder → ReconciliationLedger → Text → Type 0
IsUnknown source orders ledger e =
    (i : ℕ) × (order : InFlightOrder) × (get_elem? orders i ≡ some order)
    × IsOrphan source order ledger e

abbrev Passed :
    SettlementSource → List InFlightOrder → Checked (Text × ReconciliationLedger) Pass → Type 0
Passed source orders (accepted p) = Accounted source orders p.remaining p.settled
Passed source orders (rejected (e, ledger)) = IsUnknown source orders ledger e

keeping-Passed :
    (source : SettlementSource) (order : InFlightOrder) (os : List InFlightOrder)
    (c : Checked (Text × ReconciliationLedger) Pass)
    → IsPending source order
    → Passed source os c
    → Passed source (order ∷ os) (after (keeping order) c)
keeping-Passed source order os (accepted p) h k = keeps order h k
keeping-Passed source order os (rejected (e, ledger)) h (i, o, at, found) = (suc i, o, at, found)

settling-Passed :
    (source : SettlementSource) (order : InFlightOrder) (fill : FillEvent) (os : List InFlightOrder)
    (c : Checked (Text × ReconciliationLedger) Pass)
    → is_acknowledged order.venue_order_id ≡ true
    → source order ≡ accepted (some fill)
    → is_terminal_status fill.status ≡ true
    → Passed source os c
    → Passed source (order ∷ os) (after (settling order fill) c)
settling-Passed source order fill os (accepted p) a s t k = settles order fill a s t k
settling-Passed source order fill os (rejected (e, ledger)) a s t (i, o, at, found) =
    (suc i, o, at, found)

answer-cases :
    (c : Checked Text (Option FillEvent))
    → ((e : Text) × (c ≡ rejected e))
      ⊎ (c ≡ accepted none)
      ⊎ ((fill : FillEvent) × (c ≡ accepted (some fill)))
answer-cases (rejected e) = inl (e, refl)
answer-cases (accepted none) = inr (inl refl)
answer-cases (accepted (some fill)) = inr (inr (fill, refl))

ledger-cases :
    (c : Checked Text ReconciliationLedger)
    → ((e : Text) × (c ≡ rejected e)) ⊎ ((l : ReconciliationLedger) × (c ≡ accepted l))
ledger-cases (rejected e) = inl (e, refl)
ledger-cases (accepted l) = inr (l, refl)

reconcile_orders-Passed :
    (source : SettlementSource) (os : List InFlightOrder) (l : ReconciliationLedger)
    → Passed source os (reconcile_orders source os l)
unfolding reconcile_orders
reconcile_orders-Passed source [] l = done
reconcile_orders-Passed source (o ∷ os) l = elim (Bool-cases (is_acknowledged o.venue_order_id)) [
  | inr no_ ↦
      rw (no_, reconcile_orders)
        (keeping-Passed source o os (reconcile_orders source os l) (inl no_)
          (reconcile_orders-Passed source os l))
  | inl yes_ ↦ elim (answer-cases (source o)) [
    | inl (e, failed_) ↦
        rw (yes_, reconcile_orders, failed_)
          (keeping-Passed source o os (reconcile_orders source os l) (inr (inl (e, failed_)))
            (reconcile_orders-Passed source os l))
    | inr rest ↦ elim rest [
      | inl silent ↦
          rw (yes_, reconcile_orders, silent)
            (keeping-Passed source o os (reconcile_orders source os l) (inr (inr (inl silent)))
              (reconcile_orders-Passed source os l))
      | inr (fill, told) ↦ elim (ledger-cases (apply_fill fill l)) [
        | inl (e, unknown_) ↦
            rw (yes_, reconcile_orders, told, unknown_)
              let (same, foreign) = apply_fill-rejected fill l e unknown_ in
                (zero, o, refl, (fill, yes_, told, same, foreign))
        | inr (l', folded) ↦ elim (Bool-cases (is_terminal_status fill.status)) [
          | inl end_ ↦
              rw (yes_, reconcile_orders, told, folded, end_)
                (settling-Passed source o fill os (reconcile_orders source os l') yes_ told end_
                  (reconcile_orders-Passed source os l'))
          | inr open_ ↦
              rw (yes_, reconcile_orders, told, folded, open_)
                (keeping-Passed source o os (reconcile_orders source os l')
                  (inr (inr (inr (fill, told, open_)))) (reconcile_orders-Passed source os l'))
        ]
      ]
    ]
  ]
]

-- What `reconcile` returns, and what it leaves in flight.
abbrev pub Reconciled :
    SettlementSource → List InFlightOrder → Checked Text (List Settlement) × Reconciler → Type 0
Reconciled source orders (accepted settled, r) = Accounted source orders r.in_flight settled
Reconciled source orders (rejected e, r) = (r.in_flight ≡ []) × IsUnknown source orders r.ledger e

-- When `reconcile` succeeds, each order in flight is settled, with the fill that the source reports for it,
-- exactly if it is acknowledged and that fill is terminal, and stays in flight otherwise; nothing else comes
-- into either list, and the order is kept. When it fails, the fill of one of the acknowledged orders
-- carries neither ID of any order of the ledger that is left, the error is the venue's ID in that fill, and
-- no order is in flight any more.
pub reconcile-Reconciled :
    (source : SettlementSource) (r : Reconciler)
    → Reconciled source r.in_flight (reconcile source r)
unfolding reconcile
reconcile-Reconciled source r =
    go (reconcile_orders source r.in_flight r.ledger)
      (reconcile_orders-Passed source r.in_flight r.ledger)
  where
    go :
        (c : Checked (Text × ReconciliationLedger) Pass)
        → Passed source r.in_flight c
        → Reconciled source r.in_flight (elim c [
          | rejected (e, ledger) ↦ (rejected e, record { ledger = ledger; in_flight = [] })
          | accepted p ↦ (accepted p.settled, record { ledger = p.ledger; in_flight = p.remaining })
        ])
    go (rejected (e, ledger)) h = (refl, h)
    go (accepted p) h = h
