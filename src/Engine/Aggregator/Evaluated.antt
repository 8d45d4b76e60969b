-- ===== src/Engine/Aggregator/Evaluated.antt =====
-- `evaluate_market` as a whole (crates/arbkit-engine/src/aggregator.rs).
use arbkit.Prelude.{
  ℕ, zero, suc, ◌+◌, ◌-◌, ◌<◌, ◌≡◌, refl, sym, ap, ◌∙◌, subst, Bool, true, Option, none, some, List,
  [], ◌∷◌, ◌++◌, Checked, accepted, length, take, get_elem?, get_or, All, All-append, All-get_elem?,
  take-append, arith, Bool-cases, Option-cases, inl, inr, ◌⊎◌, if◌then◌else◌,
}
use arbkit.Prelude.Int.{pos, ◌≤ℤ◌, i64_max, ltb_ℤ}
use arbkit.Core.Error.{Result, ArbError, ok, err}
use arbkit.Core.Arb.{Leg, Signal, allocations, max_chunks}
use arbkit.Core.Arb.Detect.{detect_book}
use arbkit.Engine.Slab.{EngineError, EngineSlab, MarketConfig, get_config}
use arbkit.Engine.Aggregator.{
  ChunkCandidate, ChunkPick, outcome_candidates, fair_plan, shop, legs_of, prefer_single,
  keep_better, blank_pick, execution_plan, evaluate_plan, evaluate_active, evaluate_market,
}
use arbkit.Engine.Aggregator.Found.{Quoted, outcome_candidates-Quoted}
use arbkit.Engine.Aggregator.Chosen.{IsPick}
use arbkit.Engine.Aggregator.Shopped.{Covers, Covers-IsPick, IsPlan, fair_plan-IsPlan}
use arbkit.Engine.Aggregator.Legs.{IsPriced}
use arbkit.Engine.Aggregator.Sound.{IsSound, picks-IsSound}

get_or-get {ℓ} :
    {A : Type ℓ} (xs : List A) (i : ℕ) (d x : A) → get_elem? xs i ≡ some x → get_or xs i d ≡ x
get_or-get [] i d x e = cc
get_or-get (y ∷ xs) zero d x e = cc
get_or-get (y ∷ xs) (suc i) d x e = get_or-get xs i d x e

get-append {ℓ} :
    {A : Type ℓ} (xs ys : List A) (i : ℕ) (x : A)
    → get_elem? xs i ≡ some x
    → get_elem? (xs ++ ys) i ≡ some x
get-append [] ys i x e = cc
get-append (y ∷ xs) ys zero x e = e
get-append (y ∷ xs) ys (suc i) x e = get-append xs ys i x e

Covers-get :
    (cs : List ChunkCandidate) (k : ℕ) (ps : List ChunkPick) (o : ℕ)
    → Covers cs k ps
    → o < length ps
    → (p : ChunkPick) × (get_elem? ps o ≡ some p) × (p.1.outcome ≡ k + o)
Covers-get cs k [] o c lt = absurd (omega arith)
Covers-get cs k (p ∷ ps) zero (b, c) lt = (p, refl, b.for_outcome ∙ omega arith)
Covers-get cs k (p ∷ ps) (suc o) (b, c) lt =
    let (q, at, for_o) = Covers-get cs (suc k) ps o c (omega arith) in (q, at, for_o ∙ omega arith)

-- The signal that is kept is one of the two, and no other gains more.
pub record IsBetter (shopped single : Option Signal) (s : Signal) : Type 0 where
  pub one_of : (shopped ≡ some s) ⊎ (single ≡ some s)
  pub shopped_least : (t : Signal) → shopped ≡ some t → t.worst_case_profit ≤ℤ s.worst_case_profit
  pub single_least : (t : Signal) → single ≡ some t → t.worst_case_profit ≤ℤ s.worst_case_profit

keep_better-IsBetter :
    (shopped single : Option Signal) (s : Signal)
    → keep_better shopped single ≡ some s
    → IsBetter shopped single s
unfolding keep_better prefer_single
keep_better-IsBetter none none s e = cc
keep_better-IsBetter none (some b) s e =
    let q : b ≡ s = cc in
    rw (← q) (record {
      one_of = inr refl;
      shopped_least = λ t h. cc;
      single_least = λ t h. let r : b ≡ t = cc in rw (← r) (omega arith);
    })
keep_better-IsBetter (some a) none s e =
    let q : a ≡ s = cc in
    rw (← q) (record {
      one_of = inl refl;
      shopped_least = λ t h. let r : a ≡ t = cc in rw (← r) (omega arith);
      single_least = λ t h. cc;
    })
keep_better-IsBetter (some a) (some b) s e =
    elim (Bool-cases (ltb_ℤ a.worst_case_profit b.worst_case_profit)) [
      | inl more ↦
          let k : some b ≡ some s = rw (more, keep_better) at e in
          let q : b ≡ s = cc in
          rw (← q) (record {
            one_of = inr refl;
            shopped_least = λ t h. let r : a ≡ t = cc in rw (← r) (ground arith);
            single_least = λ t h. let r : b ≡ t = cc in rw (← r) (omega arith);
          })
      | inr less ↦
          let k : some a ≡ some s = rw (less, keep_better) at e in
          let q : a ≡ s = cc in
          rw (← q) (record {
            one_of = inl refl;
            shopped_least = λ t h. let r : a ≡ t = cc in rw (← r) (omega arith);
            single_least = λ t h. let r : b ≡ t = cc in rw (← r) (ground arith);
          })
    ]

-- Where a signal of `evaluate_market` comes from: the plan of the market, and the better of what the
-- detector finds in the whole plan and in its part for fair coverage.
pub record Evaluated (slab : EngineSlab) (market : ℕ) (s : Signal) (legs : List Leg) : Type 0 where
  pub config : MarketConfig
  pub registered : get_config market slab ≡ some config
  pub active : config.active ≡ true
  pub fair : List ChunkPick
  pub plan : List ChunkPick
  pub chosen :
      IsPlan
        (outcome_candidates slab config market config.outcome_count 0)
        config.outcome_count
        fair
        plan
  pub shopped : Option Signal
  pub single : Option Signal
  pub whole : detect_book (legs_of config plan) config.budget ≡ ok shopped
  pub part : detect_book (legs_of config fair) config.budget ≡ ok single
  pub better : IsBetter shopped single s
  pub mirrored : legs ≡ execution_plan config plan (allocations s)

detect-cases :
    (r : Result (Option Signal))
    → ((e : ArbError) × (r ≡ err e)) ⊎ ((o : Option Signal) × (r ≡ ok o))
detect-cases (err e) = inl (e, refl)
detect-cases (ok o) = inr (o, refl)

accepted_inj :
    (a b : Option (Signal × List Leg))
    → Path (Checked EngineError (Option (Signal × List Leg))) (accepted a) (accepted b)
    → a ≡ b
accepted_inj a b h = cc

module _ (config : MarketConfig) (plan : List ChunkPick) (s : Signal) (legs : List Leg) where
  -- The two runs of the detector behind a signal.
  record Ran : Type 0 where
    shopped : Option Signal
    single : Option Signal
    whole : detect_book (legs_of config plan) config.budget ≡ ok shopped
    part : detect_book (legs_of config (take config.outcome_count plan)) config.budget ≡ ok single
    better : IsBetter shopped single s
    mirrored : legs ≡ execution_plan config plan (allocations s)

  evaluate_plan-Ran : evaluate_plan config plan ≡ accepted (some (s, legs)) → Ran
  unfolding evaluate_plan
  evaluate_plan-Ran e = elim (detect-cases (detect_book (legs_of config plan) config.budget)) [
    | inl (x, bad) ↦ cc (rw (bad, evaluate_plan) at e)
    | inr (shopped, whole) ↦
        elim (detect-cases
          (detect_book (legs_of config (take config.outcome_count plan)) config.budget)) [
            | inl (x, bad) ↦ cc (rw (whole, bad, evaluate_plan) at e)
            | inr (single, part) ↦ elim (Option-cases (keep_better shopped single)) [
              | inl none_ ↦ cc (rw (whole, part, none_, evaluate_plan) at e)
              | inr (t, kept) ↦
                  let r =
                    accepted_inj (some (t, execution_plan config plan (allocations t)))
                      (some (s, legs)) (rw (whole, part, kept, evaluate_plan) at e) in
                  let q : t ≡ s = cc in
                  let m : execution_plan config plan (allocations t) ≡ legs = cc in
                  record {
                    shopped = shopped;
                    single = single;
                    whole = whole;
                    part = part;
                    better = keep_better-IsBetter shopped single s (rw (q) at kept);
                    mirrored = sym m ∙ ap (λ x. execution_plan config plan (allocations x)) q;
                  }
            ]
          ]
  ]

-- When `evaluate_market` returns a signal, the market is registered and active, its plan is fair coverage
-- and then line shopping, the detector ran on the whole plan and on the fair part alone, and the signal is
-- the one of the two with the higher worst-case profit, with an execution plan that has an entry for each
-- of its allocations.
pub evaluate_market-Evaluated :
    (slab : EngineSlab) (market : ℕ) (s : Signal) (legs : List Leg)
    → evaluate_market slab market ≡ accepted (some (s, legs))
    → Evaluated slab market s legs
unfolding evaluate_market evaluate_active
evaluate_market-Evaluated slab market s legs e = elim (Option-cases (get_config market slab)) [
  | inl absent ↦ cc (rw (absent, evaluate_market) at e)
  | inr (config, registered) ↦
      let e' : (if config.active then evaluate_active slab market config else accepted none)
          ≡ accepted (some (s, legs)) =
        rw (registered, evaluate_market) at e in
      let running : Bool → Checked EngineError (Option (Signal × List Leg)) =
        (λ b. if b then evaluate_active slab market config else accepted none) in
      elim (Bool-cases config.active) [
        | inr idle ↦ cc (ap running (sym idle) ∙ e')
        | inl active ↦
            let e'' : evaluate_active slab market config ≡ accepted (some (s, legs)) =
              ap running (sym active) ∙ e' in
            let cs = outcome_candidates slab config market config.outcome_count 0 in
            elim (Option-cases (fair_plan config.outcome_count 0 cs)) [
              | inl missing ↦ cc (rw (missing, evaluate_active) at e'')
              | inr (fair, found) ↦
                  let plan = shop (max_chunks - length fair) cs fair in
                  let chosen = fair_plan-IsPlan config.outcome_count cs fair found in
                  let r =
                    evaluate_plan-Ran config plan s legs (rw (found, evaluate_active) at e'') in
                  let start : take config.outcome_count plan ≡ fair =
                    ap (take config.outcome_count) chosen.shopped.appended
                    ∙ take-append config.outcome_count fair chosen.shopped.extra chosen.sized in
                  record {
                    config = config;
                    registered = registered;
                    active = active;
                    fair = fair;
                    plan = plan;
                    chosen = chosen;
                    shopped = r.shopped;
                    single = r.single;
                    whole = r.whole;
                    part =
                        ap (λ ps. detect_book (legs_of config ps) config.budget) (sym start)
                        ∙ r.part;
                    better = r.better;
                    mirrored = r.mirrored;
                  }
            ]
      ]
]

picks-Quoted :
    (slab : EngineSlab) (config : MarketConfig) (market : ℕ) (cs : List ChunkCandidate)
    (ps : List ChunkPick)
    → All (Quoted slab config market) cs
    → All (IsPick cs) ps
    → All (λ p. Quoted slab config market p.1) ps
picks-Quoted slab config market cs [] h k = tt
picks-Quoted slab config market cs (p ∷ ps) h (at, k) = (
  All-get_elem? (Quoted slab config market) cs p.0 h at,
  picks-Quoted slab config market cs ps h k,
)

-- A signal of `evaluate_market`, from a slab whose levels carry valid prices and for a market with a
-- 64-bit budget: it gains; its total stake is the sum of the stakes and within the budget of the
-- market; whichever outcome of the market settles, the allocations that the execution plan puts on it
-- return at least the total stake and the worst-case profit; and each allocation can be executed on
-- the live level of the book that its entry of the execution plan quotes.
pub evaluate_market-IsSound :
    (slab : EngineSlab) (market : ℕ) (config : MarketConfig) (s : Signal) (legs : List Leg)
    → IsPriced slab
    → get_config market slab ≡ some config
    → config.budget ≤ℤ pos i64_max
    → evaluate_market slab market ≡ accepted (some (s, legs))
    → IsSound slab config market s legs
evaluate_market-IsSound slab market config s legs priced registered small e =
    let ev = evaluate_market-Evaluated slab market s legs e in
    let same : ev.config ≡ config = cc in
    let cs = outcome_candidates slab ev.config market ev.config.outcome_count 0 in
    let all = outcome_candidates-Quoted slab ev.config market ev.config.outcome_count 0 in
    let c = ev.chosen in
    let fair_picks = Covers-IsPick cs 0 ev.fair c.covers in
    let fair_quoted = picks-Quoted slab ev.config market cs ev.fair all fair_picks in
    let picks =
      subst (All (IsPick cs)) (sym c.shopped.appended)
        (All-append (IsPick cs) ev.fair c.shopped.extra fair_picks c.shopped.picked) in
    let quoted = picks-Quoted slab ev.config market cs ev.plan all picks in
    let in_plan : (i : ℕ) (p : ChunkPick)
        → get_elem? ev.fair i ≡ some p
        → get_elem? ev.plan i ≡ some p =
      λ i p at.
        subst (λ ps. get_elem? ps i ≡ some p) (sym c.shopped.appended)
          (get-append ev.fair c.shopped.extra i p at) in
    let covers : (o : ℕ)
        → o < ev.config.outcome_count
        → (i : ℕ) × (p : ChunkPick) × (get_elem? ev.fair i ≡ some p) × (p.1.outcome ≡ o) =
      λ o lt.
        let (p, at, for_o) = Covers-get cs 0 ev.fair o c.covers (omega (arith, c.sized)) in
        (o, p, at, for_o ∙ omega arith) in
    let small' : ev.config.budget ≤ℤ pos i64_max =
      subst (λ x. x.budget ≤ℤ pos i64_max) (sym same) small in
    subst (λ x. IsSound slab x market s legs) same
      (subst (IsSound slab ev.config market s) (sym ev.mirrored) (elim ev.better.one_of [
        | inl from_plan ↦
            picks-IsSound slab ev.config market ev.plan ev.plan quoted
              (λ i p at. get_or-get ev.plan i blank_pick p at) s priced small'
              (λ o lt. let (i, p, at, for_o) = covers o lt in (i, p, in_plan i p at, for_o))
              (ev.whole ∙ ap ok from_plan)
        | inr from_part ↦
            picks-IsSound slab ev.config market ev.fair ev.plan fair_quoted
              (λ i p at. get_or-get ev.plan i blank_pick p (in_plan i p at)) s priced small' covers
              (ev.part ∙ ap ok from_part)
      ]))
