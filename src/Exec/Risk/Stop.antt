-- ===== src/Exec/Risk/Stop.antt =====
-- The daily stop (crates/arbkit-exec/src/lib.rs, `RiskGate::settle` and `preflight`).
use arbkit.Prelude.{ℕ, ◌≡◌, ◌≢◌, refl, none, List, arith}
use arbkit.Prelude.Int.{
  ℤ, pos, ◌-ℤ◌, ◌≤ℤ◌, ◌<ℤ◌, ◌+ℤ◌, clamp_i64, saturating_add, i64_max, int_laws,
}
use arbkit.Exec.Risk.{ExecLeg, RiskGate, preflight, neg_i64, settle}
use arbkit.Exec.Risk.Reserve.{preflight-Outcome}

clamp_le : (top c : ℤ) → top ≤ℤ pos i64_max → top ≤ℤ c → top ≤ℤ clamp_i64 c
clamp_le top c p q = ground arith

stopped :
    (top loss profit : ℤ)
    → profit <ℤ pos 0
    → top ≤ℤ pos i64_max
    → top ≤ℤ loss -ℤ profit
    → top ≤ℤ saturating_add loss (pos 0 -ℤ profit)
stopped top loss profit neg small reached =
    clamp_le top (loss +ℤ (pos 0 -ℤ profit)) small (omega (int_laws, reached))

neg_i64-exact : (a : ℤ) → pos 0 -ℤ a ≤ℤ pos i64_max → neg_i64 a ≡ pos 0 -ℤ a
unfolding neg_i64
neg_i64-exact a h = ground arith

settle_loss-daily :
    (profit : ℤ) (g : RiskGate)
    → profit <ℤ pos 0
    → pos 0 -ℤ profit ≤ℤ pos i64_max
    → ((settle profit g).daily_loss_cents ≡ saturating_add g.daily_loss_cents (pos 0 -ℤ profit))
      × ((settle profit g).config ≡ g.config)
unfolding settle
settle_loss-daily profit g h k = (rw (neg_i64-exact profit k) (ground arith), refl)

-- Once a settled loss brings the day's losses to the limit, no preflight passes, whatever the edge
-- and the legs, when the limit and the loss are each within the largest i64: the least i64 is no
-- such loss.
pub preflight-settle :
    (edge_bps : ℕ) (legs : List ExecLeg) (g : RiskGate) (profit : ℤ)
    → profit <ℤ pos 0
    → pos 0 -ℤ profit ≤ℤ pos i64_max
    → g.config.max_daily_loss_cents ≤ℤ pos i64_max
    → g.config.max_daily_loss_cents ≤ℤ g.daily_loss_cents -ℤ profit
    → (preflight edge_bps legs (settle profit g)).0 ≢ none
preflight-settle edge legs g profit neg held small reached passed =
    let p = (preflight-Outcome edge legs (settle profit g)).1 passed in
    let (loss, same) = settle_loss-daily profit g neg held in
    let left = p.loss_left in
    let left' : saturating_add g.daily_loss_cents (pos 0 -ℤ profit)
        <ℤ g.config.max_daily_loss_cents =
      rw (loss, same) at left in
    absurd (
      omega (
        arith,
        stopped g.config.max_daily_loss_cents g.daily_loss_cents profit neg small reached,
        left',
      ))
