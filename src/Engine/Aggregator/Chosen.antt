-- ===== src/Engine/Aggregator/Chosen.antt =====
-- The choice of chunks (crates/arbkit-engine/src/aggregator.rs): the scan for the best candidate, fair
-- coverage and line shopping.
use arbkit.Prelude.{
  ℕ, zero, suc, ◌+◌, ◌≤◌, ◌≡◌, refl, ap, ◌∙◌, subst, Bool, true, Option, none, some, List, [], ◌∷◌,
  get_elem?, arith, ltb, if◌then◌else◌, Bool-cases, inl, inr,
}
use arbkit.Engine.Aggregator.{ChunkCandidate, ChunkPick, better, scan}

-- A pick of these candidates.
abbrev pub IsPick : List ChunkCandidate → ChunkPick → Type 0
IsPick candidates p = get_elem? candidates p.0 ≡ some p.1

-- A pick was made, and its price is at most this.
abbrev pub AtMost : Option ChunkPick → ℕ → Type 0
AtMost none n = ⊥
AtMost (some p) n = p.1.eff_ppm ≤ n

AtMost-le : (r : Option ChunkPick) (m n : ℕ) → AtMost r m → m ≤ n → AtMost r n
AtMost-le none m n h k = h
AtMost-le (some p) m n h k = omega arith

module _ (test : ℕ → ChunkCandidate → Bool) where
  -- One step of the scan.
  abbrev next_best : ℕ → ChunkCandidate → Option ChunkPick → Option ChunkPick
  next_best i c best = if test i c then (if better best c then some (i, c) else best) else best

  -- A bound on what the step leaves is a bound on what it was given and on the candidate.
  next_best-AtMost :
      (r : Option ChunkPick) (i : ℕ) (c : ChunkCandidate) (best : Option ChunkPick)
      → ((b : ChunkPick) → next_best i c best ≡ some b → AtMost r b.1.eff_ppm)
      → ((b : ChunkPick) → best ≡ some b → AtMost r b.1.eff_ppm)
        × (test i c ≡ true → AtMost r c.eff_ppm)
  next_best-AtMost r i c none h = ((λ b e. cc), (λ t. h (i, c) (rw t refl)))
  next_best-AtMost r i c (some b) h = elim (Bool-cases (test i c)) [
    | inr no_ ↦ ((λ x e. h x (rw no_ e)), (λ t. cc))
    | inl yes_ ↦ elim (Bool-cases (ltb c.eff_ppm b.1.eff_ppm)) [
      | inl lower ↦
          let k : AtMost r c.eff_ppm = h (i, c) (rw (yes_, lower) refl) in
          (
            (λ x e.
                let q : b ≡ x = cc in
                AtMost-le r c.eff_ppm x.1.eff_ppm k (rw (← q) (ground arith))),
            (λ t. k),
          )
      | inr same ↦
          let k : AtMost r b.1.eff_ppm = h b (rw (yes_, same) refl) in
          (
            (λ x e. let q : b ≡ x = cc in subst (λ y. AtMost r y.1.eff_ppm) q k),
            (λ t. AtMost-le r b.1.eff_ppm c.eff_ppm k (ground arith)),
          )
    ]
  ]

  pub scan-AtMost :
      (i : ℕ) (cs : List ChunkCandidate) (best : Option ChunkPick)
      → ((b : ChunkPick) → best ≡ some b → AtMost (scan test i cs best) b.1.eff_ppm)
        × ((j : ℕ) (c : ChunkCandidate)
            → get_elem? cs j ≡ some c
            → test (i + j) c ≡ true
            → AtMost (scan test i cs best) c.eff_ppm)
  unfolding scan
  scan-AtMost i [] best = ((λ b e. rw e (omega arith)), (λ j c e t. cc))
  scan-AtMost i (c ∷ cs) best =
      let (old, new) = scan-AtMost (suc i) cs (next_best i c best) in
      let (kept, here) =
        next_best-AtMost (scan test (suc i) cs (next_best i c best)) i c best old in
      (kept, go here new)
    where
      go :
          (test i c ≡ true → AtMost (scan test (suc i) cs (next_best i c best)) c.eff_ppm)
          → ((j : ℕ) (x : ChunkCandidate)
              → get_elem? cs j ≡ some x
              → test (suc i + j) x ≡ true
              → AtMost (scan test (suc i) cs (next_best i c best)) x.eff_ppm)
          → (j : ℕ) (x : ChunkCandidate) → get_elem? (c ∷ cs) j ≡ some x
          → test (i + j) x ≡ true
          → AtMost (scan test (suc i) cs (next_best i c best)) x.eff_ppm
      go here new zero x e t =
          let q : c ≡ x = cc in
          let z : i + 0 ≡ i = omega arith in
          subst (λ y. AtMost (scan test (suc i) cs (next_best i c best)) y.eff_ppm) q
            (here (rw (q) (rw z at t)))
      go here new (suc j) x e t =
          let z : i + suc j ≡ suc i + j = omega arith in new j x e (rw z at t)

  pub scan-IsPick :
      (all : List ChunkCandidate) (i : ℕ) (cs : List ChunkCandidate) (best : Option ChunkPick)
      → ((j : ℕ) (c : ChunkCandidate) → get_elem? cs j ≡ some c → get_elem? all (i + j) ≡ some c)
      → ((b : ChunkPick) → best ≡ some b → IsPick all b × (test b.0 b.1 ≡ true))
      → (p : ChunkPick) → scan test i cs best ≡ some p
      → IsPick all p × (test p.0 p.1 ≡ true)
  unfolding scan
  scan-IsPick all i [] best sub good p e = good p e
  scan-IsPick all i (c ∷ cs) best sub good p e =
      scan-IsPick all (suc i) cs (next_best i c best)
        (λ j x q. ap (get_elem? all) (omega arith) ∙ sub (suc j) x q) stepped p e
    where
      stepped : (b : ChunkPick) → next_best i c best ≡ some b → IsPick all b × (test b.0 b.1 ≡ true)
      stepped b q = elim (Bool-cases (test i c)) [
        | inr no_ ↦ good b (rw no_ at q)
        | inl yes_ ↦ elim (Bool-cases (better best c)) [
          | inr kept ↦ good b (rw (yes_, kept) at q)
          | inl taken ↦
              let s : some (i, c) ≡ some b = rw (yes_, taken) at q in
              let r : (i, c) ≡ b = cc in
              subst (λ y. IsPick all y × (test y.0 y.1 ≡ true)) r
                (ap (get_elem? all) (omega arith) ∙ sub 0 c refl, yes_)
        ]
      ]
