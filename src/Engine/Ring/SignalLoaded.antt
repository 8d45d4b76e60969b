-- ===== src/Engine/Ring/SignalLoaded.antt =====
-- A signal with its execution plan, stored in a slot of the ring, is the signal that is loaded from it
-- (crates/arbkit-engine/src/event.rs, `SignalEventSlot`).
use arbkit.Prelude.{
  ℕ, zero, suc, ◌+◌, ◌-◌, ◌%◌, ◌≤◌, ◌<◌, ◌≡◌, refl, sym, ap, ap₂, ◌∙◌, subst, some, List, [], ◌∷◌,
  ◌++◌, map, length, take, drop, get_elem?, get_or, replicate, min, ltb, All, All-get_elem?, arith,
  length-take, if◌then◌else◌,
}
use arbkit.Prelude.Int.{pos}
use arbkit.Core.Price.{IsProb}
use arbkit.Core.Fee.{Fee, free, commission_bps, stake_fee_bps, maker_rebate_bps}
use arbkit.Core.Arb.{Leg, Allocation, allocations, from_raw_parts, max_chunks}
use arbkit.Core.Arb.Detect.{blank_allocation}
use arbkit.Engine.Loop.{SignalEvent}
use arbkit.Engine.Ring.FeedSlot.{load_price, load_price_back, overwrite}
use arbkit.Engine.Ring.SignalSlot.{
  encode_fee, decode_fee, SignalEventSlot, store_signal, load_allocation, load_leg, load_all,
  load_signal,
}

-- A signal as the detector leaves it, with legs of the plan and prices that the types of the source can hold.
pub record IsSignal (item : SignalEvent) : Type 0 where
  pub fits : item.signal.len ≤ max_chunks
  pub filled : item.signal.len ≤ length item.signal.slots
  pub padded :
      item.signal.slots
      ≡ allocations item.signal ++ replicate (max_chunks - item.signal.len) blank_allocation
  pub legs : All (λ a. a.leg < 256) (allocations item.signal)
  pub short : length item.plan ≤ max_chunks
  pub prices : All (λ l. IsProb l.quoted) item.plan

module _ {ℓ κ} {A : Type ℓ} {B : Type κ} where
  overwrite_at :
      (f : A → B) (xs : List A) (old : List B) (i : ℕ) (d : B) (x : A)
      → get_elem? xs i ≡ some x
      → get_or (overwrite (map f xs) old) i d ≡ f x
  overwrite_at f xs old i d x e = go xs i (drop (length (map f xs)) old) e
    where
      go :
          (ys : List A) (j : ℕ) (rest : List B)
          → get_elem? ys j ≡ some x
          → get_or (map f ys ++ rest) j d ≡ f x
      go [] j rest q = cc
      go (y ∷ ys) zero rest q = let r : y ≡ x = cc in ap f r
      go (y ∷ ys) (suc j) rest q = go ys j rest q

load_all_back {ℓ} :
    {A : Type ℓ} (entry : ℕ → A) (i : ℕ) (ys : List A)
    → ((k : ℕ) (x : A) → get_elem? ys k ≡ some x → entry (i + k) ≡ x)
    → load_all entry i (length ys) ≡ ys
load_all_back entry i [] h = refl
load_all_back entry i (y ∷ ys) h =
    let z : i ≡ i + 0 = omega arith in
    ap₂ (λ a as_. a ∷ as_) (ap entry z ∙ h 0 y refl)
      (load_all_back entry (suc i) ys
        (λ k x e. let s : suc i + k ≡ i + suc k = omega arith in ap entry s ∙ h (suc k) x e))

take_all {ℓ} : {A : Type ℓ} (n : ℕ) (xs : List A) → length xs ≤ n → take n xs ≡ xs
take_all zero [] h = refl
take_all zero (x ∷ xs) h = absurd (omega arith)
take_all (suc n) [] h = refl
take_all (suc n) (x ∷ xs) h = ap (◌∷◌ x) (take_all n xs (omega arith))

fee_back : (fee : Fee) → decode_fee (encode_fee fee).0 (encode_fee fee).1 ≡ fee
unfolding encode_fee decode_fee
fee_back free = refl
fee_back (commission_bps bps) = refl
fee_back (stake_fee_bps bps) = refl
fee_back (maker_rebate_bps bps) = refl

module _ (item : SignalEvent) (slot : SignalEventSlot) (h : IsSignal item) where
  count_len : Path ℕ (length (allocations item.signal)) item.signal.len
  unfolding allocations
  count_len = omega (arith, length-take item.signal.len item.signal.slots, h.filled)

  kept_allocations :
      take (min (length (allocations item.signal)) max_chunks) (allocations item.signal)
      ≡ allocations item.signal
  kept_allocations =
      take_all (min (length (allocations item.signal)) max_chunks) (allocations item.signal)
        (omega (arith, count_len, h.fits))

  kept_legs : take (min (length item.plan) max_chunks) item.plan ≡ item.plan
  kept_legs = take_all (min (length item.plan) max_chunks) item.plan (omega (arith, h.short))

  allocation_back :
      (k : ℕ) (a : Allocation)
      → get_elem? (allocations item.signal) k ≡ some a
      → load_allocation (store_signal item slot) k ≡ a
  unfolding store_signal
  allocation_back k a at =
      let at' = subst (λ as_. get_elem? as_ k ≡ some a) (sym kept_allocations) at in
      let kept =
        take (min (length (allocations item.signal)) max_chunks) (allocations item.signal) in
      let small : a.leg < 256 =
        All-get_elem? (λ x. x.leg < 256) (allocations item.signal) k h.legs at in
      ap
        (λ n. record {
          leg = n;
          stake = get_or (overwrite (map (λ x. x.stake) kept) slot.alloc_stake) k 0;
          payout = get_or (overwrite (map (λ x. x.payout) kept) slot.alloc_payout) k 0;
        })
        (overwrite_at (λ x. x.leg % 256) kept slot.alloc_leg k 0 a at' ∙ omega (arith, small))
      ∙ ap₂ (λ n m. record { leg = a.leg; stake = n; payout = m })
          (overwrite_at (λ x. x.stake) kept slot.alloc_stake k 0 a at')
          (overwrite_at (λ x. x.payout) kept slot.alloc_payout k 0 a at')

  leg_back :
      (k : ℕ) (l : Leg) → get_elem? item.plan k ≡ some l → load_leg (store_signal item slot) k ≡ l
  unfolding store_signal load_leg
  leg_back k l at =
      let at' = subst (λ ls. get_elem? ls k ≡ some l) (sym kept_legs) at in
      let legs = take (min (length item.plan) max_chunks) item.plan in
      let price = All-get_elem? (λ x. IsProb x.quoted) item.plan k h.prices at in
      let s = store_signal item slot in
      ap₂
        (λ v o. record {
          venue = v;
          outcome = o;
          quoted = load_price (get_or s.plan_quoted_ppm k 0);
          fee = decode_fee (get_or s.plan_fee_tag k 0) (get_or s.plan_fee_arg_bps k 0);
          capacity = get_or s.plan_capacity k (pos 0);
          increment = get_or s.plan_increment k (pos 0);
        })
        (overwrite_at (λ x. x.venue) legs slot.plan_venue k 0 l at')
        (overwrite_at (λ x. x.outcome) legs slot.plan_outcome k 0 l at')
      ∙ ap₂
          (λ t b. record {
            venue = l.venue;
            outcome = l.outcome;
            quoted = load_price (get_or s.plan_quoted_ppm k 0);
            fee = decode_fee t b;
            capacity = get_or s.plan_capacity k (pos 0);
            increment = get_or s.plan_increment k (pos 0);
          })
          (overwrite_at (λ x. (encode_fee x.fee).0) legs slot.plan_fee_tag k 0 l at')
          (overwrite_at (λ x. (encode_fee x.fee).1) legs slot.plan_fee_arg_bps k 0 l at')
      ∙ ap₂
          (λ p f. record {
            venue = l.venue;
            outcome = l.outcome;
            quoted = p;
            fee = f;
            capacity = get_or s.plan_capacity k (pos 0);
            increment = get_or s.plan_increment k (pos 0);
          })
          (ap load_price (overwrite_at (λ x. x.quoted.ppm) legs slot.plan_quoted_ppm k 0 l at')
            ∙ load_price_back l.quoted price)
          (fee_back l.fee)
      ∙ ap₂
          (λ c i. record {
            venue = l.venue;
            outcome = l.outcome;
            quoted = l.quoted;
            fee = l.fee;
            capacity = c;
            increment = i;
          })
          (overwrite_at (λ x. x.capacity) legs slot.plan_capacity k (pos 0) l at')
          (overwrite_at (λ x. x.increment) legs slot.plan_increment k (pos 0) l at')

  -- A signal as the detector leaves it, with its plan, stored in a slot whatever the slot held before, is what is
  -- loaded from it: the whole width of the allocations and of the plan crosses the ring.
  pub load_signal-store_signal : load_signal (store_signal item slot) ≡ item
  unfolding load_signal store_signal from_raw_parts
  load_signal-store_signal =
      let s = store_signal item slot in
      let x = item.signal in
      let allocs = allocations x in
      let len : min (length allocs) max_chunks ≡ x.len = omega (arith, count_len, h.fits) in
      let twice : min (min (length allocs) max_chunks) max_chunks ≡ length allocs =
        omega (arith, count_len, h.fits) in
      let same : length allocs ≡ x.len = count_len in
      let plan_len : min (length item.plan) max_chunks ≡ length item.plan =
        omega (arith, h.short) in
      let with : List Allocation → ℕ → List Leg → SignalEvent =
        λ slots n plan. record item { signal = record x { slots = slots; len = n }; plan = plan } in
      let clamp : (if ltb max_chunks (min (length allocs) max_chunks)
            then max_chunks
            else min (length allocs) max_chunks)
          ≡ x.len =
        ground (arith, len) in
      let plan : load_all (load_leg s) 0 (min (length item.plan) max_chunks) ≡ item.plan =
        ap (load_all (load_leg s) 0) plan_len
        ∙ load_all_back (load_leg s) 0 item.plan
            (λ k l at. let z : 0 + k ≡ k = omega arith in ap (load_leg s) z ∙ leg_back k l at) in
      let loaded : load_all (load_allocation s) 0 (length allocs) ≡ allocs =
        load_all_back (load_allocation s) 0 allocs (λ k a at.
          let z : 0 + k ≡ k = omega arith in ap (load_allocation s) z ∙ allocation_back k a at) in
      ap
        (λ n.
          with (load_all (load_allocation s) 0 n ++ replicate (max_chunks - n) blank_allocation)
            (if ltb max_chunks (min (length allocs) max_chunks)
              then max_chunks
              else min (length allocs) max_chunks)
            (load_all (load_leg s) 0 (min (length item.plan) max_chunks)))
        twice
      ∙ ap₂
          (λ as_ n.
            with (as_ ++ replicate (max_chunks - length allocs) blank_allocation) n
              (load_all (load_leg s) 0 (min (length item.plan) max_chunks)))
          loaded clamp
      ∙ ap₂ (λ n ls. with (allocs ++ replicate (max_chunks - n) blank_allocation) x.len ls) same
          plan
      ∙ ap (λ slots. with slots x.len item.plan) (sym h.padded)
