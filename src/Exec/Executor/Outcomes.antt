-- ===== src/Exec/Executor/Outcomes.antt =====
-- How an execution can end (Exec/Executor.antt, crates/arbkit-exec/src/lib.rs), and what is left of
-- the capital that was reserved for it.
use arbkit.Prelude.{
  ℕ, ◌≡◌, ◌⊎◌, refl, Bool, true, false, ◌&&◌, Option, none, some, List, [], ◌∷◌, Checked, accepted,
  rejected, arith, Bool-cases, Option-cases, inl, inr,
}
use arbkit.Prelude.Int.{eq_of_parts}
use arbkit.Exec.Risk.{Text, ExecLeg, RiskGate, RiskRejection, preflight}
use arbkit.Exec.Risk.Reserve.{SameGate, Passed, preflight-Outcome, release_trade-Passed}
use arbkit.Exec.Executor.{
  ExecError, risk, OrderResult, VenueAdapter, ReconciledLeg, Execution, is_filled, unwind_order,
  report_of, conclude, submit_both, execute_reconciled,
}

-- A submit that filled its leg completely.
pub record Filled (leg : ExecLeg) (r : Checked Text OrderResult) : Type 0 where
  pub order : OrderResult
  pub took : r ≡ accepted order
  pub all : order.filled_stake_cents ≡ leg.stake_cents

-- The ways an execution of two legs ends, with the gate before it and what it leaves.
pub data Ended (edge_bps : ℕ) (a b : ExecLeg) (first second : VenueAdapter) (g : RiskGate)
    : Execution → Type 0 where
  -- refused before any order, with nothing taken
  refused :
      (r : RiskRejection) (x : Execution)
      → x.result ≡ rejected (risk r)
      → SameGate g x.gate
      → Ended edge_bps a b first second g x
  -- filled on both venues, with the stakes taken
  hedged :
      (x : Execution) (ls : List ReconciledLeg) (ids : List Text)
      → x.result ≡ accepted (report_of true a b ids, ls)
      → Filled a (first.submit a)
      → Filled b (second.submit b)
      → Passed edge_bps (a ∷ b ∷ []) g x.gate
      → Ended edge_bps a b first second g x
  -- not filled on both, everything accepted unwound, with the stakes given back
  flattened :
      (x : Execution) (ls : List ReconciledLeg) (ids : List Text)
      → x.result ≡ accepted (report_of false a b ids, ls)
      → unwind_order first a (first.submit a) ≡ none
      → unwind_order second b (second.submit b) ≡ none
      → SameGate g x.gate
      → Ended edge_bps a b first second g x
  -- an unwind failed: the stakes stay taken, and if it was the first, the second order is not
  -- unwound at all
  stranded :
      (x : Execution) (e : ExecError)
      → x.result ≡ rejected e
      → ((unwind_order first a (first.submit a) ≡ some e) × (x.unwinding ≡ 1))
        ⊎ ((unwind_order second b (second.submit b) ≡ some e) × (x.unwinding ≡ 2))
      → Passed edge_bps (a ∷ b ∷ []) g x.gate
      → Ended edge_bps a b first second g x

is_filled-Filled :
    (leg : ExecLeg) (r : Checked Text OrderResult) → is_filled leg r ≡ true → Filled leg r
unfolding is_filled
is_filled-Filled leg (rejected m) e = cc
is_filled-Filled leg (accepted r) e = record {
  order = r;
  took = refl;
  all = eq_of_parts _ _ (ground arith);
}

both_true : (p q : Bool) → (p && q) ≡ true → (p ≡ true) × (q ≡ true)
both_true true true e = (refl, refl)
both_true true false e = cc
both_true false q e = cc

conclude-Ended :
    (edge_bps : ℕ) (a b : ExecLeg) (first second : VenueAdapter) (g h : RiskGate)
    → Passed edge_bps (a ∷ b ∷ []) g h
    → Ended edge_bps a b first second g
        (conclude a b first second (first.submit a) (second.submit b) h)
unfolding conclude
conclude-Ended edge a b first second g h p =
    let ra = first.submit a in
    let rb = second.submit b in
    elim (Bool-cases (is_filled a ra && is_filled b rb)) [
      | inl filled ↦
          let (fa, fb) = both_true (is_filled a ra) (is_filled b rb) filled in
          rw (filled, conclude)
            (hedged _ _ _ refl (is_filled-Filled a ra fa) (is_filled-Filled b rb fb) p)
      | inr missed ↦ elim (Option-cases (unwind_order first a ra)) [
        | inr (e, stuck) ↦ rw (missed, stuck, conclude) (stranded _ e refl (inl (stuck, refl)) p)
        | inl clear ↦ elim (Option-cases (unwind_order second b rb)) [
          | inr (e, stuck) ↦
              rw (missed, clear, stuck, conclude) (stranded _ e refl (inr (stuck, refl)) p)
          | inl clear_too ↦
              rw (missed, clear, clear_too, conclude)
                (flattened _ _ _ refl clear clear_too
                  (release_trade-Passed edge (a ∷ b ∷ []) g h p))
        ]
      ]
    ]

submit_both-Ended :
    (edge_bps : ℕ) (a b : ExecLeg) (first second : VenueAdapter) (g : RiskGate)
    (r : Option RiskRejection × RiskGate)
    → ((x : RiskRejection) → r.0 ≡ some x → SameGate g r.1)
      × (r.0 ≡ none → Passed edge_bps (a ∷ b ∷ []) g r.1)
    → Ended edge_bps a b first second g (submit_both a b first second r)
unfolding submit_both
submit_both-Ended edge a b first second g (some x, h) (same, passed) =
    refused x _ refl (same x refl)
submit_both-Ended edge a b first second g (none, h) (same, passed) =
    conclude-Ended edge a b first second g h (passed refl)

-- Whatever the venues answer, an execution of two legs ends in one of four ways: refused, with the
-- gate as it was; hedged, with both legs filled whole and exactly the stakes taken; flattened, with
-- every accepted order unwound and the gate as it was; or stranded by an unwind that failed, with
-- the stakes still taken, and with the second order never unwound if the first unwind failed.
pub execute-Ended :
    (edge_bps : ℕ) (a b : ExecLeg) (first second : VenueAdapter) (g : RiskGate)
    → Ended edge_bps a b first second g (execute_reconciled edge_bps (a ∷ b ∷ []) first second g)
unfolding execute_reconciled
execute-Ended edge a b first second g =
    submit_both-Ended edge a b first second g (preflight edge (a ∷ b ∷ []) g)
      (preflight-Outcome edge (a ∷ b ∷ []) g)
