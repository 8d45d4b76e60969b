-- ===== src/Engine/Slab/Cooldown.antt =====
-- The signal cooldown (crates/arbkit-engine/src/slab.rs, `emit_admitted` and `note_emit`).
use arbkit.Prelude.{
  ℕ, ◌+◌, ◌≤◌, ◌<◌, ◌≡◌, ◌≢◌, refl, sym, ap, ◌∙◌, subst, true, false, List, [], ◌∷◌, get_or, All,
  arith, leb, lt→ltb, ◌==◌, Bool-cases, inl, inr, length-set, get_or-set_self, get_or-set_ne,
}
use arbkit.Engine.Slab.{EngineSlab, default_market, emit_admitted, note_emit}
use arbkit.Engine.Slab.Index.{IsSlab}

abbrev pub cooldown_of : ℕ → EngineSlab → ℕ
cooldown_of m s = (get_or s.configs m default_market).signal_cooldown_ns

abbrev pub last_of : ℕ → EngineSlab → ℕ
last_of m s = get_or s.last_emit_ns m 0

-- Asks to emit at each of the times, and notes each emission that is admitted.
unfoldable pub emit_all : ℕ → List ℕ → EngineSlab → List ℕ
emit_all m [] s = []
emit_all m (t ∷ ts) s = elim (emit_admitted m t s) [
  | true ↦ t ∷ emit_all m ts (note_emit m t s)
  | false ↦ emit_all m ts s
]

-- Each time is a cooldown or more after the one before it, the first one after `last` if that is
-- not the mark of no emission.
abbrev pub Spaced : ℕ → ℕ → List ℕ → Type 0
Spaced cooldown last [] = Unit
Spaced cooldown last (t ∷ ts) = (last ≢ 0 → last + cooldown ≤ t) × Spaced cooldown t ts

admitted_after :
    (m t : ℕ) (s : EngineSlab)
    → cooldown_of m s ≢ 0
    → emit_admitted m t s ≡ true
    → (m < s.max_markets) × (last_of m s ≢ 0 → last_of m s + cooldown_of m s ≤ t)
unfolding emit_admitted
admitted_after m t s c e = (ground arith, (λ n. ground arith))

-- What noting an emission leaves.
record Noted (m t : ℕ) (s s' : EngineSlab) : Type 0 where
  slab : IsSlab s'
  same_size : s'.max_markets ≡ s.max_markets
  same_configs : s'.configs ≡ s.configs
  here : last_of m s' ≡ t
  elsewhere : (k : ℕ) → m ≢ k → last_of k s' ≡ last_of k s

note_emit-Noted :
    (m t : ℕ) (s : EngineSlab)
    → IsSlab s
    → m < s.max_markets
    → t ≢ 0
    → Noted m t s (note_emit m t s)
unfolding note_emit
note_emit-Noted m t s h lt nz =
    let in_range = lt→ltb m s.max_markets lt in
    let running : (t == 0) ≡ false = ground arith in
    rw (in_range, running)
      (record {
        slab = record {
          books = h.books;
          configs = h.configs;
          emits = length-set s.last_emit_ns m t ∙ h.emits;
        };
        same_size = refl;
        same_configs = refl;
        here = get_or-set_self s.last_emit_ns m t 0 (omega (arith, h.emits));
        elsewhere = λ k ne. get_or-set_ne s.last_emit_ns m k t 0 ne;
      })

-- Of any attempts to emit a signal for a market with a cooldown, at clock readings that are not
-- zero but in any order, those that are admitted are at least the cooldown apart, and the first is
-- as far from the last emission before them.
pub emit_all-Spaced :
    (m : ℕ) (ts : List ℕ) (s : EngineSlab)
    → IsSlab s
    → cooldown_of m s ≢ 0
    → All (λ t. t ≢ 0) ts
    → Spaced (cooldown_of m s) (last_of m s) (emit_all m ts s)
unfolding emit_all
emit_all-Spaced m [] s h c nz = tt
emit_all-Spaced m (t ∷ ts) s h c nz = elim (Bool-cases (emit_admitted m t s)) [
  | inl yes_ ↦
      let (lt, apart) = admitted_after m t s c yes_ in
      let n = note_emit-Noted m t s h lt nz.0 in
      let same : cooldown_of m (note_emit m t s) ≡ cooldown_of m s =
        ap (λ cs. (get_or cs m default_market).signal_cooldown_ns) n.same_configs in
      let r = emit_all-Spaced m ts (note_emit m t s) n.slab (λ z. c (sym same ∙ z)) nz.1 in
      let r' : Spaced (cooldown_of m s) t (emit_all m ts (note_emit m t s)) =
        subst (λ k. Spaced k t (emit_all m ts (note_emit m t s))) same
          (subst (λ l. Spaced (cooldown_of m (note_emit m t s)) l (emit_all m ts (note_emit m t s)))
            n.here r) in
      rw (yes_, emit_all) (apart, r')
  | inr no_ ↦ rw (no_, emit_all) (emit_all-Spaced m ts s h c nz.1)
]

-- After an emission at a clock reading that is not zero, a market of the slab with a cooldown
-- admits the next signal exactly from the end of the cooldown on, and no other market is affected.
pub emit_admitted-note_emit :
    (m t : ℕ) (s : EngineSlab)
    → IsSlab s
    → m < s.max_markets
    → t ≢ 0
    → cooldown_of m s ≢ 0
    → ((now : ℕ) → emit_admitted m now (note_emit m t s) ≡ leb (t + cooldown_of m s) now)
      × ((k now : ℕ) → m ≢ k → emit_admitted k now (note_emit m t s) ≡ emit_admitted k now s)
unfolding emit_admitted
emit_admitted-note_emit m t s h lt nz c =
    let n = note_emit-Noted m t s h lt nz in
    let out : leb s.max_markets m ≡ false = ground arith in
    (
      (λ now. rw (n.same_size, n.same_configs, n.here, out) (ground arith)),
      (λ k now ne. rw (n.same_size, n.same_configs, n.elsewhere k ne) refl),
    )
