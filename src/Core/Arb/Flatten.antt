-- ===== src/Core/Arb/Flatten.antt =====
-- Flattening (Core/Arb/Detect.antt, crates/arbkit-core/src/arb.rs, the two passes of `plan`): every
-- chunk stands for a level of one of the legs, and the first chunk of each group is its own.
use arbkit.Prelude.{
  ℕ, zero, suc, ◌+◌, ◌≤◌, ◌<◌, ◌≡◌, refl, subst, Option, none, some, List, [], ◌∷◌, length, take,
  get_or, get_elem?, All, arith, ltb, ◌==◌, ==→eq, Bool-cases, Option-cases, inl, inr, All-append,
  length-append,
}
use arbkit.Core.Book.{Level}
use arbkit.Core.Arb.{BookLeg, Chunk, max_chunks}
use arbkit.Core.Arb.Candidates.{overround_of}
use arbkit.Core.Arb.Detect.{
  usable_levels, usable_capacity, chunk_of, Pick, better_pick, pick_levels, pick_legs, Flat,
  add_chunk, pass_one, is_taken, take_level, take_levels, pass_two,
}
use arbkit.Core.Arb.Fits.{IsChunk}
use arbkit.Core.Arb.Backed.{IsLeg, Backs, Backs-IsChunk, chunk_of-group, chunk_of-Backs}

-- A list from an index on.
abbrev Suffix {ℓ} : {A : Type ℓ} → List A → ℕ → List A → Type ℓ
Suffix {A = A} full n rest =
    (k : ℕ) (x : A) → get_elem? rest k ≡ some x → get_elem? full (n + k) ≡ some x

module _ {ℓ} {A : Type ℓ} where
  suffix_start : (xs : List A) → Suffix xs 0 xs
  suffix_start xs k x e = let q : 0 + k ≡ k = omega arith in rw q e

  suffix_head :
      (full : List A) (n : ℕ) (x : A) (xs : List A)
      → Suffix full n (x ∷ xs)
      → get_elem? full n ≡ some x
  suffix_head full n x xs h = let q : n + zero ≡ n = omega arith in rw q at (h zero x refl)

  suffix_tail :
      (full : List A) (n : ℕ) (x : A) (xs : List A)
      → Suffix full n (x ∷ xs)
      → Suffix full (suc n) xs
  suffix_tail full n x xs h k y e =
      let q : n + suc k ≡ suc n + k = omega arith in rw q at (h (suc k) y e)

module _ (legs : List BookLeg) (group_of : List ℕ) where
  abbrev PickOk : ℕ → Option Pick → Type 0
  PickOk g none = Unit
  PickOk g (some p) = Backs legs group_of p.chunk × (p.chunk.group ≡ g)

  better_pick-PickOk :
      (g : ℕ) (o : Option Pick) (p : Pick)
      → PickOk g o
      → PickOk g (some p)
      → PickOk g (better_pick o p)
  unfolding better_pick
  better_pick-PickOk g none p h k = k
  better_pick-PickOk g (some b) p h k = elim (Bool-cases (ltb p.chunk.price b.chunk.price)) [
    | inl e ↦ rw e k
    | inr e ↦ rw e h
  ]

  pick_levels-PickOk :
      (g i : ℕ) (leg : BookLeg) (l : ℕ) (levels : List Level) (o : Option Pick)
      → get_or group_of i 0 ≡ g
      → get_elem? legs i ≡ some leg
      → Suffix (take (usable_levels leg) leg.levels) l levels
      → PickOk g o
      → PickOk g (pick_levels g i leg l levels o)
  unfolding pick_levels
  pick_levels-PickOk g i leg l [] o eg at suf h = h
  pick_levels-PickOk g i leg l (level ∷ levels) o eg at suf h =
      elim (Option-cases (usable_capacity leg level)) [
        | inl unusable ↦
            rw (unusable, pick_levels)
              (pick_levels-PickOk g i leg (suc l) levels o eg at
                (suffix_tail (take (usable_levels leg) leg.levels) l level levels suf) h)
        | inr (capacity, usable) ↦
            let p : Pick = record { at = (i, l); chunk = chunk_of i g leg level capacity } in
            let b =
              chunk_of-Backs legs group_of i l leg level capacity at
                (suffix_head (take (usable_levels leg) leg.levels) l level levels suf) usable in
            let p_ok : PickOk g (some p) = (rw eg at b, chunk_of-group i g leg level capacity) in
            rw (usable, pick_levels)
              (pick_levels-PickOk g i leg (suc l) levels (better_pick o p) eg at
                (suffix_tail (take (usable_levels leg) leg.levels) l level levels suf)
                (better_pick-PickOk g o p h p_ok))
      ]

  pick_legs-PickOk :
      (g i : ℕ) (rest : List BookLeg) (o : Option Pick)
      → Suffix legs i rest
      → PickOk g o
      → PickOk g (pick_legs group_of g i rest o)
  unfolding pick_legs
  pick_legs-PickOk g i [] o suf h = h
  pick_legs-PickOk g i (leg ∷ rest) o suf h = elim (Bool-cases (get_or group_of i 0 == g)) [
    | inl mine ↦
        rw (mine, pick_legs)
          (pick_legs-PickOk g (suc i) rest _ (suffix_tail legs i leg rest suf) (
            pick_levels-PickOk g i leg 0 (take (usable_levels leg) leg.levels) o (==→eq _ g mine)
              (suffix_head legs i leg rest suf) (suffix_start (take (usable_levels leg) leg.levels))
              h))
    | inr other ↦
        rw (other, pick_legs)
          (pick_legs-PickOk g (suc i) rest o (suffix_tail legs i leg rest suf) h)
  ]

  -- Every chunk stands for a level, and there are at least so many.
  abbrev pub FlatOk : ℕ → Flat → Type 0
  FlatOk n flat = All (Backs legs group_of) flat.chunks × (n ≤ length flat.chunks)

  add_chunk-FlatOk :
      (n : ℕ) (flat : Flat) (at : ℕ × ℕ) (c : Chunk)
      → FlatOk n flat
      → Backs legs group_of c
      → FlatOk (suc n) (add_chunk flat at c)
  add_chunk-FlatOk n flat at c h b = (
    All-append (Backs legs group_of) flat.chunks (c ∷ []) h.0 (b, tt),
    omega (arith, length-append flat.chunks (c ∷ [])),
  )

  pub pass_one-FlatOk :
      (n g m : ℕ) (flat flat' : Flat)
      → FlatOk m flat
      → pass_one legs group_of n g flat ≡ some flat'
      → FlatOk (m + n) flat'
  unfolding pass_one
  pass_one-FlatOk zero g m flat flat' h e = let q : flat ≡ flat' = cc in rw (← q) (h.0, omega arith)
  pass_one-FlatOk (suc n) g m flat flat' h e =
      elim (Option-cases (pick_legs group_of g 0 legs none)) [
        | inl missing ↦ cc (rw (missing, pass_one) at e)
        | inr (p, found) ↦
            let b : PickOk g (some p) =
              subst (PickOk g) found (pick_legs-PickOk g 0 legs none (suffix_start legs) tt) in
            let r =
              pass_one-FlatOk n (suc g) (suc m) (add_chunk flat p.at p.chunk) flat'
                (add_chunk-FlatOk m flat p.at p.chunk h b.0) (rw (found, pass_one) at e) in
            (r.0, omega (arith, r.1))
      ]

  take_level-FlatOk :
      (m i l : ℕ) (leg : BookLeg) (level : Level) (flat : Flat)
      → get_elem? legs i ≡ some leg
      → get_elem? (take (usable_levels leg) leg.levels) l ≡ some level
      → FlatOk m flat
      → FlatOk m (take_level (get_or group_of i 0) i leg l level flat)
  unfolding take_level
  take_level-FlatOk m i l leg level flat at listed h =
      elim (Bool-cases (length flat.chunks == max_chunks)) [
        | inl full ↦ rw full h
        | inr room ↦ elim (Bool-cases (is_taken i l flat.taken)) [
          | inl seen ↦ rw (room, seen) h
          | inr fresh ↦ elim (Option-cases (usable_capacity leg level)) [
            | inl unusable ↦ rw (room, fresh, unusable, take_level) h
            | inr (capacity, usable) ↦
                let c = chunk_of i (get_or group_of i 0) leg level capacity in
                let r =
                  add_chunk-FlatOk m flat (i, l) c h
                    (chunk_of-Backs legs group_of i l leg level capacity at listed usable) in
                rw (room, fresh, usable, take_level) (r.0, omega (arith, r.1))
          ]
        ]
      ]

  take_levels-FlatOk :
      (m i : ℕ) (leg : BookLeg) (l : ℕ) (levels : List Level) (flat : Flat)
      → get_elem? legs i ≡ some leg
      → Suffix (take (usable_levels leg) leg.levels) l levels
      → FlatOk m flat
      → FlatOk m (take_levels (get_or group_of i 0) i leg l levels flat)
  unfolding take_levels
  take_levels-FlatOk m i leg l [] flat at suf h = h
  take_levels-FlatOk m i leg l (level ∷ levels) flat at suf h =
      let full = take (usable_levels leg) leg.levels in
      take_levels-FlatOk m i leg (suc l) levels _ at (suffix_tail full l level levels suf)
        (take_level-FlatOk m i l leg level flat at (suffix_head full l level levels suf) h)

  pass_two_from :
      (m i : ℕ) (rest : List BookLeg) (flat : Flat)
      → Suffix legs i rest
      → FlatOk m flat
      → FlatOk m (pass_two group_of i rest flat)
  unfolding pass_two
  pass_two_from m i [] flat suf h = h
  pass_two_from m i (leg ∷ rest) flat suf h =
      let full = take (usable_levels leg) leg.levels in
      let at = suffix_head legs i leg rest suf in
      pass_two_from m (suc i) rest _ (suffix_tail legs i leg rest suf)
        (take_levels-FlatOk m i leg 0 full flat at (suffix_start full) h)

  pub pass_two-FlatOk :
      (m : ℕ) (flat : Flat) → FlatOk m flat → FlatOk m (pass_two group_of 0 legs flat)
  pass_two-FlatOk m flat h = pass_two_from m 0 legs flat (suffix_start legs) h

-- Chunks with prices make a positive overround.
pub overround_of-pos :
    (n : ℕ) (cs : List Chunk) → 1 ≤ n → 1 ≤ length cs → All IsChunk cs → 0 < overround_of n cs
unfolding overround_of
overround_of-pos zero cs h k a = absurd (omega arith)
overround_of-pos (suc n) [] h k a = absurd (omega arith)
overround_of-pos (suc n) (c ∷ cs) h k a = omega (arith, a.0.priced)

pub All-Backs-IsChunk :
    (legs : List BookLeg) (group_of : List ℕ) (cs : List Chunk)
    → All IsLeg legs
    → All (Backs legs group_of) cs
    → All IsChunk cs
All-Backs-IsChunk legs group_of [] h b = tt
All-Backs-IsChunk legs group_of (c ∷ cs) h b =
    (Backs-IsChunk legs group_of c h b.0, All-Backs-IsChunk legs group_of cs h b.1)
