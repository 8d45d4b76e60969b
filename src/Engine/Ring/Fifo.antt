-- ===== src/Engine/Ring/Fifo.antt =====
-- What the slots of the ring hold at every step of the two threads (crates/arbkit-engine/src/ring.rs).
use native.Mathlib.Nat.{mod-lt, add-mod_right}
use arbkit.Prelude.{
  ℕ, suc, ◌+◌, ◌%◌, ◌≤◌, ◌<◌, ◌≡◌, sym, ap, ◌∙◌, subst, some, List, [], ◌∷◌, ◌++◌, take, get_elem?,
  get_or, set, arith, ◌==◌, ==→eq, Bool-cases, inl, inr, length-set, length-append, get_or-set_self,
  get_or-set_ne,
}
use arbkit.Engine.Ring.{
  ProducerAt, resting, storing, stored, ConsumerAt, waiting, loading, loaded, Ring, store_payload,
  publish, load_payload, release_slot, Reachable, created, starts_push, stores, publishes,
  starts_pop, loads, releases,
}
use arbkit.Engine.Ring.Slots.{
  apart, get_elem?-set_self, get_elem?-set_ne, get_elem?-bound, get_elem?-snoc, get_elem?-append,
  get_elem?-at, get_or-at, take-snoc, take-append_le,
}
use arbkit.Engine.Ring.Held.{
  Producing, Consuming, Holds, new_ring-Holds, start_push-Holds, start_pop-Holds,
}

module _ {ℓ} {A : Type ℓ} (blank : A) (c : ℕ) where
  store_payload-Holds :
      (r : Ring A) (ps qs : List A) (x : A)
      → 2 ≤ c
      → Holds blank c r ps qs
      → r.producer ≡ storing x
      → Holds blank c (store_payload x r) ps qs
  unfolding store_payload
  store_payload-Holds r ps qs x two h e =
      let (lt, u) = subst (Producing r) e h.producing in
      let slot : r.head % r.capacity < r.capacity = mod-lt r.head (omega (arith, two, h.sized)) in
      record {
        sized = h.sized;
        turns = h.turns;
        payloads = length-set r.payloads (r.head % r.capacity) x ∙ h.payloads;
        pushed = h.pushed;
        popped = h.popped;
        order = h.order;
        room = h.room;
        full = h.full;
        free = h.free;
        kept = λ n y lo at.
            let bound : n < r.head = omega (arith, get_elem?-bound ps n y at, h.pushed) in
            get_elem?-set_ne r.payloads (r.head % r.capacity) (n % r.capacity) x
              (λ q. apart r.capacity n r.head bound (omega arith) (sym q))
            ∙ h.kept n y lo at;
        producing = (
          lt,
          get_elem?-set_self r.payloads (r.head % r.capacity) x (omega (arith, slot, h.payloads)),
        );
        consuming = h.consuming;
      }

  load_payload-Holds :
      (r : Ring A) (ps qs : List A)
      → Holds blank c r ps qs
      → r.consumer ≡ loading
      → Holds blank c (load_payload r) ps qs
  unfolding load_payload
  load_payload-Holds r ps qs h e =
      let (lt, u) = subst (Consuming r ps) e h.consuming in
      let (y, at) = get_elem?-at ps r.tail (omega (arith, lt, h.pushed)) in
      let seen : get_or r.payloads (r.tail % r.capacity) r.blank ≡ y =
        get_or-at r.payloads (r.tail % r.capacity) r.blank y (h.kept r.tail y (omega arith) at) in
      record {
        sized = h.sized;
        turns = h.turns;
        payloads = h.payloads;
        pushed = h.pushed;
        popped = h.popped;
        order = h.order;
        room = h.room;
        full = h.full;
        free = h.free;
        kept = h.kept;
        producing = h.producing;
        consuming = (lt, at ∙ ap some (sym seen));
      }

  publish-Holds :
      (r : Ring A) (ps qs : List A) (x : A)
      → 2 ≤ c
      → Holds blank c r ps qs
      → r.producer ≡ stored x
      → Holds blank c (publish r) (ps ++ (x ∷ [])) qs
  unfolding publish
  publish-Holds r ps qs x two h e =
      let (lt, at_head) = subst (Producing r) e h.producing in
      let slot : r.head % r.capacity < r.capacity = mod-lt r.head (omega (arith, two, h.sized)) in
      let i = r.head % r.capacity in
      record {
        sized = h.sized;
        turns = length-set r.turns i (r.head + 1) ∙ h.turns;
        payloads = h.payloads;
        pushed = omega (arith, length-append ps (x ∷ []), h.pushed);
        popped =
            h.popped ∙ sym (take-append_le r.tail ps (x ∷ []) (omega (arith, h.pushed, h.order)));
        order = omega (arith, h.order);
        room = omega (arith, lt);
        full = λ n lo hi. elim (Bool-cases (n == r.head)) [
          | inl last ↦
              let q : n ≡ r.head = ==→eq n r.head last in
              subst (λ k. get_or (set r.turns i (r.head + 1)) (k % r.capacity) 0 ≡ k + 1) (sym q)
                (get_or-set_self r.turns i (r.head + 1) 0 (omega (arith, slot, h.turns)))
          | inr older ↦
              let before : n < r.head = ground arith in
              get_or-set_ne r.turns i (n % r.capacity) (r.head + 1) 0
                (λ q. apart r.capacity n r.head before (omega arith) (sym q))
              ∙ h.full n lo before
        ];
        free = λ n lo hi.
            get_or-set_ne r.turns i (n % r.capacity) (r.head + 1) 0
              (apart r.capacity r.head n (omega arith) (omega (arith, h.order)))
            ∙ h.free n (omega arith) hi;
        kept = λ n y lo at. elim (get_elem?-snoc ps x n y at) [
          | inl old ↦ h.kept n y lo old
          | inr (last, same) ↦
              let q : n ≡ r.head = last ∙ h.pushed in
              subst (λ k. get_elem? r.payloads (k % r.capacity) ≡ some y) (sym q)
                (at_head ∙ ap some same)
        ];
        producing = tt;
        consuming = go r.consumer h.consuming;
      }
    where
      go : (k : ConsumerAt A) → Consuming r ps k → Consuming (publish r) (ps ++ (x ∷ [])) k
      go waiting u = tt
      go loading (lt, u) = (omega arith, tt)
      go (loaded y) (lt, at) = (omega arith, get_elem?-append ps (x ∷ []) r.tail y at)

  release_slot-Holds :
      (r : Ring A) (ps qs : List A) (x : A)
      → 2 ≤ c
      → Holds blank c r ps qs
      → r.consumer ≡ loaded x
      → Holds blank c (release_slot r) ps (qs ++ (x ∷ []))
  unfolding release_slot
  release_slot-Holds r ps qs x two h e =
      let (lt, at) = subst (Consuming r ps) e h.consuming in
      let slot : r.tail % r.capacity < r.capacity = mod-lt r.tail (omega (arith, two, h.sized)) in
      let i = r.tail % r.capacity in
      let more : r.tail + 1 ≡ suc r.tail = omega arith in
      record {
        sized = h.sized;
        turns = length-set r.turns i (r.tail + r.capacity) ∙ h.turns;
        payloads = h.payloads;
        pushed = h.pushed;
        popped =
            ap (λ l. l ++ (x ∷ [])) h.popped
            ∙ sym (take-snoc ps r.tail x at)
            ∙ ap (λ k. take k ps) (sym more);
        order = omega (arith, lt);
        room = omega (arith, h.room);
        full = λ n lo hi.
            get_or-set_ne r.turns i (n % r.capacity) (r.tail + r.capacity) 0
              (apart r.capacity r.tail n (omega arith) (omega (arith, h.room)))
            ∙ h.full n (omega arith) hi;
        free = λ n lo hi. elim (Bool-cases (n == r.tail + r.capacity)) [
          | inl next ↦
              let q : n ≡ r.tail + r.capacity = ==→eq n (r.tail + r.capacity) next in
              let same : n % r.capacity ≡ i =
                ap (λ k. k % r.capacity) q ∙ add-mod_right r.tail r.capacity in
              ap (λ k. get_or (set r.turns i (r.tail + r.capacity)) k 0) same
              ∙ get_or-set_self r.turns i (r.tail + r.capacity) 0 (omega (arith, slot, h.turns))
              ∙ sym q
          | inr older ↦
              let before : n < r.tail + r.capacity = ground arith in
              get_or-set_ne r.turns i (n % r.capacity) (r.tail + r.capacity) 0
                (apart r.capacity r.tail n (omega (arith, lt)) before)
              ∙ h.free n lo before
        ];
        kept = λ n y lo found. h.kept n y (omega arith) found;
        producing = go r.producer h.producing;
        consuming = tt;
      }
    where
      go : (k : ProducerAt A) → Producing r k → Producing (release_slot r) k
      go resting u = tt
      go (storing y) (lt, u) = (omega arith, tt)
      go (stored y) (lt, found) = (omega arith, found)

  pub Reachable-Holds :
      {r : Ring A} {ps qs : List A} → 2 ≤ c → Reachable blank c r ps qs → Holds blank c r ps qs
  Reachable-Holds two created = new_ring-Holds blank c two
  Reachable-Holds two (starts_push x s e) =
      start_push-Holds blank c _ _ _ x two (Reachable-Holds two s)
  Reachable-Holds two (stores x s e) = store_payload-Holds _ _ _ x two (Reachable-Holds two s) e
  Reachable-Holds two (publishes x s e) = publish-Holds _ _ _ x two (Reachable-Holds two s) e
  Reachable-Holds two (starts_pop s e) = start_pop-Holds blank c _ _ _ two (Reachable-Holds two s)
  Reachable-Holds two (loads s e) = load_payload-Holds _ _ _ (Reachable-Holds two s) e
  Reachable-Holds two (releases x s e) = release_slot-Holds _ _ _ x two (Reachable-Holds two s) e
