-- ===== src/Exec/Executor.antt =====
-- crates/arbkit-exec/src/lib.rs, `HedgedExecutor`: both legs of a hedge are submitted, and unless
-- both fill completely what was accepted is unwound.
--
-- The venue adapters are parameters: what `submit` and `unwind` return. Each is called once for
-- its leg, so that the two threads of the source are two values here; a thread that panics is a
-- submit that fails. Strings that the executor makes up itself are constructors.
pub mod Outcomes
use arbkit.Prelude.{
  ℕ, Bool, true, false, ◌&&◌, Option, none, some, List, [], ◌∷◌, ◌++◌, Checked, accepted, rejected,
  leb, if◌then◌else◌,
}
use arbkit.Prelude.Int.{ℤ, pos, ◌+ℤ◌, leb_ℤ}
use arbkit.Exec.Risk.{Text, ExecLeg, RiskGate, RiskRejection, preflight, release_trade}

pub data Message : Type 0 where
  two_legs_required : Message
  from_venue : Text → Message

pub data ExecError : Type 0 where
  risk : RiskRejection → ExecError
  venue_error : ℕ → Message → ExecError
  unwind_error : ℕ → Message → ExecError

pub record OrderResult : Type 0 where
  pub order_id : Text
  pub filled_stake_cents : ℤ

pub record VenueAdapter : Type 0 where
  pub submit : ExecLeg → Checked Text OrderResult
  pub unwind : OrderResult → Option Text

pub data ExecutionClassification : Type 0 where
  live_fill : ExecutionClassification
  live_phantom : ExecutionClassification

-- `settlement_status`, and the `status` of a leg.
pub data Status : Type 0 where
  open_status : Status
  unwound : Status

pub data Reason : Type 0 where
  legs_rejected_or_partially_filled : Reason

pub record ExecutionReport : Type 0 where
  pub classification : ExecutionClassification
  pub venue_order_ids : List Text
  pub requested_stake_cents : ℤ
  pub filled_stake_cents : ℤ
  pub realized_profit_cents : Option ℤ
  pub settlement_status : Status
  pub reason : Option Reason

pub record ReconciledLeg : Type 0 where
  pub client_order_id : List ℕ
  pub venue : ℕ
  pub venue_order_id : Option Text
  pub requested_stake_cents : ℤ
  pub filled_stake_cents : ℤ
  pub status : Status

abbrev pub eqb_ℤ : ℤ → ℤ → Bool
eqb_ℤ a b = leb_ℤ a b && leb_ℤ b a

unfoldable pub order_id_of : Checked Text OrderResult → Option Text
order_id_of (accepted r) = some r.order_id
order_id_of (rejected m) = none

unfoldable pub ids_of : Option Text → List Text
ids_of none = []
ids_of (some id) = id ∷ []

unfoldable pub is_filled : ExecLeg → Checked Text OrderResult → Bool
is_filled leg (accepted r) = eqb_ℤ r.filled_stake_cents leg.stake_cents
is_filled leg (rejected m) = false

unfoldable pub reconciled_leg : Bool → ExecLeg → Option Text → ReconciledLeg
reconciled_leg filled leg id = record {
  client_order_id = leg.client_order_id;
  venue = leg.venue;
  venue_order_id = id;
  requested_stake_cents = leg.stake_cents;
  filled_stake_cents = if filled then leg.stake_cents else pos 0;
  status = if filled then open_status else unwound;
}

-- The unwinding of a leg's order, if there is one: the error, if it fails.
unfoldable pub unwind_order : VenueAdapter → ExecLeg → Checked Text OrderResult → Option ExecError
unwind_order adapter leg (rejected m) = none
unwind_order adapter leg (accepted r) = elim (adapter.unwind r) [
  | none ↦ none
  | some m ↦ some (unwind_error leg.venue (from_venue m))
]

unfoldable pub report_of : Bool → ExecLeg → ExecLeg → List Text → ExecutionReport
report_of success a b ids = record {
  classification = if success then live_fill else live_phantom;
  venue_order_ids = ids;
  requested_stake_cents = a.stake_cents +ℤ b.stake_cents;
  filled_stake_cents = if success then a.stake_cents +ℤ b.stake_cents else pos 0;
  realized_profit_cents = none;
  settlement_status = if success then open_status else unwound;
  reason = if success then none else some legs_rejected_or_partially_filled;
}

-- What the executor returns, the gate it leaves, and at how many of the legs it has seen to the
-- unwinding of an order.
pub record Execution : Type 0 where
  pub result : Checked ExecError (ExecutionReport × List ReconciledLeg)
  pub gate : RiskGate
  pub unwinding : ℕ

-- After the submits.
unfoldable pub conclude :
    ExecLeg
    → ExecLeg
    → VenueAdapter
    → VenueAdapter
    → Checked Text OrderResult
    → Checked Text OrderResult
    → RiskGate
    → Execution
conclude a b first second ra rb gate =
    let success = is_filled a ra && is_filled b rb in
    let ids = ids_of (order_id_of ra) ++ ids_of (order_id_of rb) in
    let legs =
      reconciled_leg success a (order_id_of ra) ∷ reconciled_leg success b (order_id_of rb) ∷ [] in
    if success
    then record { result = accepted (report_of true a b ids, legs); gate = gate; unwinding = 0 }
    else elim (unwind_order first a ra) [
      | some e ↦ record { result = rejected e; gate = gate; unwinding = 1 }
      | none ↦ elim (unwind_order second b rb) [
        | some e ↦ record { result = rejected e; gate = gate; unwinding = 2 }
        | none ↦ record {
          result = accepted (report_of false a b ids, legs);
          gate = release_trade (a ∷ b ∷ []) gate;
          unwinding = 2;
        }
      ]
    ]

-- After the preflight.
unfoldable pub submit_both :
    ExecLeg → ExecLeg → VenueAdapter → VenueAdapter → Option RiskRejection × RiskGate → Execution
submit_both a b first second (some r, gate) = record {
  result = rejected (risk r);
  gate = gate;
  unwinding = 0;
}
submit_both a b first second (none, gate) =
    conclude a b first second (first.submit a) (second.submit b) gate

unfoldable pub execute_reconciled :
    ℕ → List ExecLeg → VenueAdapter → VenueAdapter → RiskGate → Execution
execute_reconciled edge_bps (a ∷ b ∷ []) first second gate =
    submit_both a b first second (preflight edge_bps (a ∷ b ∷ []) gate)
execute_reconciled edge_bps other first second gate = record {
  result = rejected (venue_error 0 two_legs_required);
  gate = gate;
  unwinding = 0;
}

-- The adapter that takes every order whole.
unfoldable pub dry_run : (ExecLeg → Text) → VenueAdapter
dry_run id_of = record {
  submit = λ leg. accepted (record { order_id = id_of leg; filled_stake_cents = leg.stake_cents });
  unwind = λ order. none;
}
