-- ===== src/Exec/Ledger/Replayed.antt =====
-- Fills that are reported again (crates/arbkit-exec/src/state.rs, `apply_fill`).
use arbkit.Prelude.{
  ◌≡◌, refl, sym, ap, ◌∙◌, subst, All, true, some, List, [], ◌∷◌, Checked, accepted, rejected,
  Bool-cases, Option-cases, inl, inr,
}
use arbkit.Exec.Risk.{Text}
use arbkit.Exec.Ledger.{
  FillEvent, Fingerprint, ReconciliationLedger, same_fill, is_applied, find_order, fingerprint,
  fold_fill, apply_fill,
}
use arbkit.Exec.Ledger.Found.{same_fill_self, IsForeign, IsFirst, find_order-first, find_order-none}

accepted_inj :
    (a b : ReconciliationLedger)
    → Path (Checked Text ReconciliationLedger) (accepted a) (accepted b)
    → a ≡ b
accepted_inj a b h = cc

rejected_inj :
    (a b : Text) → Path (Checked Text ReconciliationLedger) (rejected a) (rejected b) → a ≡ b
rejected_inj a b h = cc

-- What `apply_fill` does, by what it finds.
pub apply_fill-rejected :
    (fill : FillEvent) (l : ReconciliationLedger) (text : Text)
    → apply_fill fill l ≡ rejected text
    → (text ≡ fill.venue_order_id) × All (λ e. IsForeign fill e.1) l.orders
unfolding apply_fill
apply_fill-rejected fill l text e = elim (Option-cases (find_order fill l.orders)) [
  | inl unknown_ ↦ (
    rejected_inj text fill.venue_order_id (sym e ∙ rw (unknown_, apply_fill) refl),
    find_order-none fill l.orders unknown_,
  )
  | inr (key, found) ↦ elim (Bool-cases (is_applied (fingerprint key fill) l.applied_fills)) [
    | inl seen ↦ cc (rw (found, apply_fill, seen) at e)
    | inr new_ ↦ cc (rw (found, apply_fill, new_) at e)
  ]
]

-- A fill that was accepted has its fingerprint in the ledger.
record Known (fill : FillEvent) (before after_ : ReconciliationLedger) : Type 0 where
  key : Text
  found : find_order fill before.orders ≡ some key
  applied : is_applied (fingerprint key fill) after_.applied_fills ≡ true

apply_fill-Known :
    (fill : FillEvent) (l l' : ReconciliationLedger)
    → apply_fill fill l ≡ accepted l'
    → Known fill l l'
unfolding apply_fill is_applied fold_fill
apply_fill-Known fill l l' e = elim (Option-cases (find_order fill l.orders)) [
  | inl unknown_ ↦ cc (rw (unknown_, apply_fill) at e)
  | inr (key, found) ↦ elim (Bool-cases (is_applied (fingerprint key fill) l.applied_fills)) [
    | inl seen ↦
        let q : l ≡ l' = accepted_inj l l' (rw (found, apply_fill, seen) at e) in
        record {
          key = key;
          found = found;
          applied = subst (λ x. is_applied (fingerprint key fill) x.applied_fills ≡ true) q seen;
        }
    | inr new_ ↦
        let q : fold_fill (fingerprint key fill) fill l ≡ l' =
          accepted_inj (fold_fill (fingerprint key fill) fill l) l'
            (rw (found, apply_fill, new_) at e) in
        record {
          key = key;
          found = found;
          applied =
              subst (λ x. is_applied (fingerprint key fill) x.applied_fills ≡ true) q
                (rw (same_fill_self (fingerprint key fill)) refl);
        }
  ]
]

abbrev pub ledger_of :
    ReconciliationLedger → Checked Text ReconciliationLedger → ReconciliationLedger
ledger_of l (rejected e) = l
ledger_of l (accepted l') = l'

-- The ledger after a report: that of before, when the report is refused.
abbrev pub report_fill : FillEvent → ReconciliationLedger → ReconciliationLedger
report_fill fill l = ledger_of l (apply_fill fill l)

-- The ledger after these reports, one after the other.
abbrev pub report_fills : List FillEvent → ReconciliationLedger → ReconciliationLedger
report_fills [] l = l
report_fills (fill ∷ fills) l = report_fills fills (report_fill fill l)

-- No report forgets a fingerprint.
apply_fill-is_applied :
    (print : Fingerprint) (fill : FillEvent) (l l' : ReconciliationLedger)
    → apply_fill fill l ≡ accepted l'
    → is_applied print l.applied_fills ≡ true
    → is_applied print l'.applied_fills ≡ true
unfolding apply_fill is_applied fold_fill
apply_fill-is_applied print fill l l' e h = elim (Option-cases (find_order fill l.orders)) [
  | inl unknown_ ↦ cc (rw (unknown_, apply_fill) at e)
  | inr (key, found) ↦ elim (Bool-cases (is_applied (fingerprint key fill) l.applied_fills)) [
    | inl seen ↦
        let q : l ≡ l' = accepted_inj l l' (rw (found, apply_fill, seen) at e) in
        subst (λ x. is_applied print x.applied_fills ≡ true) q h
    | inr new_ ↦
        let q : fold_fill (fingerprint key fill) fill l ≡ l' =
          accepted_inj (fold_fill (fingerprint key fill) fill l) l'
            (rw (found, apply_fill, new_) at e) in
        subst (λ x. is_applied print x.applied_fills ≡ true) q
          (elim (Bool-cases (same_fill print (fingerprint key fill))) [
            | inl same ↦ rw same refl
            | inr other ↦ rw other h
          ])
  ]
]

report_fill-is_applied :
    (print : Fingerprint) (fill : FillEvent) (l : ReconciliationLedger)
    → is_applied print l.applied_fills ≡ true
    → is_applied print (report_fill fill l).applied_fills ≡ true
report_fill-is_applied print fill l h = go (apply_fill fill l) refl
  where
    go :
        (c : Checked Text ReconciliationLedger)
        → apply_fill fill l ≡ c
        → is_applied print (ledger_of l c).applied_fills ≡ true
    go (rejected e) q = h
    go (accepted l') q = apply_fill-is_applied print fill l l' q h

report_fills-is_applied :
    (print : Fingerprint) (fills : List FillEvent) (l : ReconciliationLedger)
    → is_applied print l.applied_fills ≡ true
    → is_applied print (report_fills fills l).applied_fills ≡ true
report_fills-is_applied print [] l h = h
report_fills-is_applied print (fill ∷ fills) l h =
    report_fills-is_applied print fills (report_fill fill l) (report_fill-is_applied print fill l h)

-- A fill that the ledger has accepted can be reported again, after any other reports, accepted or
-- refused: as long as the first order that has one of its two IDs is the same, it is accepted, and
-- changes nothing, neither the orders nor the profit nor the fees.
pub apply_fill_again :
    (fill : FillEvent) (l l' : ReconciliationLedger) (fills : List FillEvent) (key : Text)
    → apply_fill fill l ≡ accepted l'
    → IsFirst fill key l.orders
    → IsFirst fill key (report_fills fills l').orders
    → apply_fill fill (report_fills fills l') ≡ accepted (report_fills fills l')
unfolding apply_fill
apply_fill_again fill l l' fills key e before again =
    let k = apply_fill-Known fill l l' e in
    let q : some k.key ≡ some key = sym k.found ∙ find_order-first fill key l.orders before in
    let r : key ≡ k.key = cc in
    let found : find_order fill (report_fills fills l').orders ≡ some k.key =
      find_order-first fill key (report_fills fills l').orders again ∙ ap some r in
    rw (found, apply_fill, report_fills-is_applied (fingerprint k.key fill) fills l' k.applied) refl
