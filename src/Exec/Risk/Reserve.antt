-- ===== src/Exec/Risk/Reserve.antt =====
-- The reservation of capital and its rollback (crates/arbkit-exec/src/lib.rs, `RiskGate`).
use arbkit.Prelude.{
  ℕ, suc, ◌≤◌, ◌<◌, ◌≡◌, refl, sym, ap, ◌∙◌, Bool, true, false, ◌||◌, Option, none, some, List, [],
  ◌∷◌, ◌++◌, All, arith, ltb, ltb-false, leb, leb-false, ◌==◌, ==→eq, Bool-cases, inl, inr,
  if◌then◌else◌,
}
use arbkit.Prelude.Int.{
  ℤ, pos, pos_part, neg_part, ◌+ℤ◌, ◌-ℤ◌, ◌≤ℤ◌, ◌<ℤ◌, leb_ℤ, ltb_ℤ, int_laws, eq_of_parts,
}
use arbkit.Exec.Risk.{
  ExecLeg, RiskConfig, RiskGate, RiskRejection, Balances, credit, debit, release, reserve_legs,
  open_trade, preflight, release_legs, release_trade,
}

-- What a list of reservations holds at a venue.
abbrev held_at : ℕ → List (ℕ × ℤ) → ℤ
held_at v [] = pos 0
held_at v (r ∷ rs) = (if v == r.0 then r.1 else pos 0) +ℤ held_at v rs

-- What the legs stake at a venue.
abbrev pub staked_at : ℕ → List ExecLeg → ℤ
staked_at v [] = pos 0
staked_at v (leg ∷ legs) = (if v == leg.venue then leg.stake_cents else pos 0) +ℤ staked_at v legs

abbrev InCap : RiskConfig → ExecLeg → Type 0
InCap config leg = (pos 0 <ℤ leg.stake_cents) × (leg.stake_cents ≤ℤ config.max_stake_per_leg_cents)

+ℤ_zero : (a : ℤ) → a +ℤ pos 0 ≡ a
+ℤ_zero a = eq_of_parts (a +ℤ pos 0) a (omega int_laws)

credit_lem :
    (b : Bool) (a c d : ℤ) → (if b then a +ℤ c else a) +ℤ d ≡ a +ℤ ((if b then c else pos 0) +ℤ d)
credit_lem true a c d = eq_of_parts _ _ (omega int_laws)
credit_lem false a c d = eq_of_parts _ _ (omega int_laws)

release_lem :
    (rs : List (ℕ × ℤ)) (bank : Balances) (v : ℕ) → release rs bank v ≡ bank v +ℤ held_at v rs
unfolding release
release_lem [] bank v = sym (+ℤ_zero (bank v))
release_lem (r ∷ rs) bank v =
    release_lem rs (credit r.0 r.1 bank) v ∙ credit_lem (v == r.0) (bank v) r.1 (held_at v rs)

release_legs_lem :
    (legs : List ExecLeg) (bank : Balances) (v : ℕ)
    → release_legs legs bank v ≡ bank v +ℤ staked_at v legs
unfolding release_legs
release_legs_lem [] bank v = sym (+ℤ_zero (bank v))
release_legs_lem (l ∷ legs) bank v =
    release_legs_lem legs (credit l.venue l.stake_cents bank) v
    ∙ credit_lem (v == l.venue) (bank v) l.stake_cents (staked_at v legs)

held_at-snoc :
    (rs : List (ℕ × ℤ)) (r : ℕ × ℤ) (v : ℕ)
    → held_at v (rs ++ (r ∷ [])) ≡ held_at v rs +ℤ (if v == r.0 then r.1 else pos 0)
held_at-snoc [] r v = eq_of_parts _ _ (omega int_laws)
held_at-snoc (x ∷ rs) r v = rw (held_at-snoc rs r v) (eq_of_parts _ _ (omega int_laws))

-- A debit, with its reservation noted, gives back the same on release.
debit_lem :
    (b : Bool) (a c h : ℤ) → (if b then a -ℤ c else a) +ℤ (h +ℤ (if b then c else pos 0)) ≡ a +ℤ h
debit_lem true a c h = eq_of_parts _ _ (omega int_laws)
debit_lem false a c h = eq_of_parts _ _ (omega int_laws)

noted :
    (rs : List (ℕ × ℤ)) (venue : ℕ) (c : ℤ) (bank : Balances) (v : ℕ)
    → release (rs ++ ((venue, c) ∷ [])) (debit venue c bank) v ≡ release rs bank v
noted rs venue c bank v =
    release_lem (rs ++ ((venue, c) ∷ [])) (debit venue c bank) v
    ∙ (rw (held_at-snoc rs (venue, c) v) (debit_lem (v == venue) (bank v) c (held_at v rs))
        ∙ sym (release_lem rs bank v))

-- A failed loop has released everything that was reserved.
reserve_legs-failed :
    (config : RiskConfig) (legs : List ExecLeg) (rs : List (ℕ × ℤ)) (bank : Balances)
    (r : RiskRejection) (v : ℕ)
    → (reserve_legs config legs rs bank).0 ≡ some r
    → (reserve_legs config legs rs bank).1 v ≡ release rs bank v
unfolding reserve_legs
reserve_legs-failed config [] rs bank r v e = cc
reserve_legs-failed config (leg ∷ legs) rs bank r v e =
    elim (Bool-cases
      (leb_ℤ leg.stake_cents (pos 0) || ltb_ℤ config.max_stake_per_leg_cents leg.stake_cents)) [
        | inl out ↦ rw out refl
        | inr fits ↦ elim (Bool-cases (ltb_ℤ (bank leg.venue) leg.stake_cents)) [
          | inl short ↦ rw (fits, short) refl
          | inr funded ↦
              rw (fits, funded, reserve_legs)
                (reserve_legs-failed config legs (rs ++ ((leg.venue, leg.stake_cents) ∷ []))
                    (debit leg.venue leg.stake_cents bank) r v
                    (rw (fits, funded, reserve_legs) at e)
                  ∙ noted rs leg.venue leg.stake_cents bank v)
        ]
      ]

-- What a loop that went through leaves.
record Taken (config : RiskConfig) (legs : List ExecLeg) (bank after : Balances) : Type 0 where
  capped : All (InCap config) legs
  exact : (v : ℕ) → after v +ℤ staked_at v legs ≡ bank v
  solvent : (v : ℕ) → pos 0 ≤ℤ bank v → pos 0 ≤ℤ after v

undo_debit :
    (b : Bool) (a c x s : ℤ)
    → x +ℤ s ≡ (if b then a -ℤ c else a)
    → x +ℤ ((if b then c else pos 0) +ℤ s) ≡ a
undo_debit true a c x s e =
    eq_of_parts _ _ (omega (int_laws, ap (λ z. pos_part z) e, ap (λ z. neg_part z) e))
undo_debit false a c x s e =
    eq_of_parts _ _ (omega (int_laws, ap (λ z. pos_part z) e, ap (λ z. neg_part z) e))

debit-solvent :
    (bank : Balances) (venue : ℕ) (c : ℤ) (v : ℕ)
    → ltb_ℤ (bank venue) c ≡ false
    → pos 0 ≤ℤ bank v
    → pos 0 ≤ℤ debit venue c bank v
debit-solvent bank venue c v funded h = elim (Bool-cases (v == venue)) [
  | inl same ↦
      let q : v ≡ venue = ==→eq v venue same in
      rw (same, q) (omega (int_laws, ltb-false _ _ funded))
  | inr other ↦ rw other h
]

reserve_legs-Taken :
    (config : RiskConfig) (legs : List ExecLeg) (rs : List (ℕ × ℤ)) (bank : Balances)
    → (reserve_legs config legs rs bank).0 ≡ none
    → Taken config legs bank (reserve_legs config legs rs bank).1
unfolding reserve_legs
reserve_legs-Taken config [] rs bank e = record {
  capped = tt;
  exact = λ v. +ℤ_zero (bank v);
  solvent = λ v h. h;
}
reserve_legs-Taken config (leg ∷ legs) rs bank e =
    elim (Bool-cases
      (leb_ℤ leg.stake_cents (pos 0) || ltb_ℤ config.max_stake_per_leg_cents leg.stake_cents)) [
        | inl out ↦ cc (rw (out, reserve_legs) at e)
        | inr fits ↦ elim (Bool-cases (ltb_ℤ (bank leg.venue) leg.stake_cents)) [
          | inl short ↦ cc (rw (fits, short, reserve_legs) at e)
          | inr funded ↦
              let rest = debit leg.venue leg.stake_cents bank in
              let noted_too = rs ++ ((leg.venue, leg.stake_cents) ∷ []) in
              let t =
                reserve_legs-Taken config legs noted_too rest
                  (rw (fits, funded, reserve_legs) at e) in
              let after = (reserve_legs config legs noted_too rest).1 in
              rw (fits, funded, reserve_legs)
                (record {
                  capped = (ground arith, t.capped);
                  exact = λ v.
                      undo_debit (v == leg.venue) (bank v) leg.stake_cents (after v)
                        (staked_at v legs) (t.exact v);
                  solvent =
                      λ v h. t.solvent v (debit-solvent bank leg.venue leg.stake_cents v funded h);
                })
        ]
      ]

-- The same gate, balance by balance.
pub record SameGate (g h : RiskGate) : Type 0 where
  pub config : h.config ≡ g.config
  pub loss : h.daily_loss_cents ≡ g.daily_loss_cents
  pub trades : h.open_trades ≡ g.open_trades
  pub balance : (v : ℕ) → h.bankroll v ≡ g.bankroll v

SameGate-refl : (g : RiskGate) → SameGate g g
SameGate-refl g = record { config = refl; loss = refl; trades = refl; balance = λ v. refl }

-- What a preflight that passed has found and done.
pub record Passed (edge_bps : ℕ) (legs : List ExecLeg) (g h : RiskGate) : Type 0 where
  pub armed : g.config.kill_switch ≡ false
  pub edge : g.config.min_edge_bps ≤ edge_bps
  pub loss_left : g.daily_loss_cents <ℤ g.config.max_daily_loss_cents
  pub capped : All (InCap g.config) legs
  pub config : h.config ≡ g.config
  pub loss : h.daily_loss_cents ≡ g.daily_loss_cents
  pub trades : h.open_trades ≡ suc g.open_trades
  pub within : h.open_trades ≤ g.config.max_open_trades
  pub exact : (v : ℕ) → h.bankroll v +ℤ staked_at v legs ≡ g.bankroll v
  pub solvent : (v : ℕ) → pos 0 ≤ℤ g.bankroll v → pos 0 ≤ℤ h.bankroll v

reserve_legs-start :
    (g : RiskGate) (legs : List ExecLeg) (x : RiskRejection)
    → (reserve_legs g.config legs [] g.bankroll).0 ≡ some x
    → (v : ℕ) → (reserve_legs g.config legs [] g.bankroll).1 v ≡ g.bankroll v
unfolding release
reserve_legs-start g legs x bad v = reserve_legs-failed g.config legs [] g.bankroll x v bad

open_trade-cases :
    (g : RiskGate) (r : Option RiskRejection × Balances)
    → ((open_trade g r).0 ≡ r.0)
      × ((x : RiskRejection) → r.0 ≡ some x → (open_trade g r).1 ≡ record g { bankroll = r.1 })
      × (r.0 ≡ none
          → (open_trade g r).1 ≡ record g { open_trades = suc g.open_trades; bankroll = r.1 })
open_trade-cases g (none, bank) = (refl, (λ x e. cc), (λ e. refl))
open_trade-cases g (some x, bank) = (refl, (λ y e. refl), (λ e. cc))

abbrev pub Outcome : ℕ → List ExecLeg → RiskGate → Option RiskRejection × RiskGate → Type 0
Outcome edge_bps legs g r =
    ((x : RiskRejection) → r.0 ≡ some x → SameGate g r.1)
    × (r.0 ≡ none → Passed edge_bps legs g r.1)

Outcome-refused :
    (edge_bps : ℕ) (legs : List ExecLeg) (g : RiskGate) (x : RiskRejection)
    → Outcome edge_bps legs g (some x, g)
Outcome-refused edge legs g x = ((λ y e. SameGate-refl g), (λ e. cc))

Outcome-if :
    (edge_bps : ℕ) (legs : List ExecLeg) (g : RiskGate) (b : Bool)
    (t f : Option RiskRejection × RiskGate)
    → (b ≡ true → Outcome edge_bps legs g t)
    → (b ≡ false → Outcome edge_bps legs g f)
    → Outcome edge_bps legs g (if b then t else f)
Outcome-if edge legs g true t f h k = h refl
Outcome-if edge legs g false t f h k = k refl

open_trade-Outcome :
    (edge_bps : ℕ) (legs : List ExecLeg) (g : RiskGate)
    → g.config.kill_switch ≡ false
    → g.config.min_edge_bps ≤ edge_bps
    → g.daily_loss_cents <ℤ g.config.max_daily_loss_cents
    → g.open_trades < g.config.max_open_trades
    → Outcome edge_bps legs g (open_trade g (reserve_legs g.config legs [] g.bankroll))
open_trade-Outcome edge legs g armed wide left free =
    let r = reserve_legs g.config legs [] g.bankroll in
    let (same, failed, passed) = open_trade-cases g r in
    (
      (λ x e.
          let bad : r.0 ≡ some x = sym same ∙ e in
          rw (failed x bad) (record {
            config = refl;
            loss = refl;
            trades = refl;
            balance = reserve_legs-start g legs x bad;
          })),
      (λ e.
          let good : r.0 ≡ none = sym same ∙ e in
          let t = reserve_legs-Taken g.config legs [] g.bankroll good in
          rw (passed good) (record {
            armed = armed;
            edge = wide;
            loss_left = left;
            capped = t.capped;
            config = refl;
            loss = refl;
            trades = refl;
            within = omega arith;
            exact = t.exact;
            solvent = t.solvent;
          })),
    )

-- A preflight that is refused, for whatever reason, leaves the gate as it was: the configuration,
-- the loss, the open trades and every venue's balance. One that passes found the kill switch off,
-- the edge, the loss and the open trades within their limits and every stake positive and within the
-- cap; it took exactly the stakes from the balances and made no balance negative.
pub preflight-Outcome :
    (edge_bps : ℕ) (legs : List ExecLeg) (g : RiskGate)
    → Outcome edge_bps legs g (preflight edge_bps legs g)
unfolding preflight
preflight-Outcome edge legs g =
    Outcome-if edge legs g g.config.kill_switch _ _ (λ off. Outcome-refused edge legs g _)
      (λ armed.
        Outcome-if edge legs g (ltb edge g.config.min_edge_bps) _ _
          (λ thin. Outcome-refused edge legs g _)
          (λ wide.
            Outcome-if edge legs g (leb_ℤ g.config.max_daily_loss_cents g.daily_loss_cents) _ _
              (λ lost. Outcome-refused edge legs g _)
              (λ left.
                Outcome-if edge legs g (leb g.config.max_open_trades g.open_trades) _ _
                  (λ busy. Outcome-refused edge legs g _)
                  (λ free.
                    open_trade-Outcome edge legs g armed (ltb-false _ _ wide) (leb-false _ _ left)
                      (leb-false _ _ free)))))

-- Releasing a trade that passed its preflight gives back the gate as it was before.
pub release_trade-Passed :
    (edge_bps : ℕ) (legs : List ExecLeg) (g h : RiskGate)
    → Passed edge_bps legs g h
    → SameGate g (release_trade legs h)
unfolding release_trade
release_trade-Passed edge legs g h p = record {
  config = p.config;
  loss = p.loss;
  trades = omega (arith, p.trades);
  balance = λ v. release_legs_lem legs h.bankroll v ∙ p.exact v;
}
