-- ===== src/Engine/Ring/Held.antt =====
-- What holds of the ring between steps, and that the looks of the two threads keep it
-- (crates/arbkit-engine/src/ring.rs).
use native.Mathlib.Nat.{add-mod_right, mod-eq_of_lt}
use arbkit.Prelude.{
  ℕ, ◌+◌, ◌%◌, ◌≤◌, ◌<◌, ◌≡◌, refl, ap, ◌∙◌, some, List, [], length, take, get_elem?, get_or, arith,
  ◌==◌, ==→eq, Bool-cases, inl, inr, length-replicate,
}
use arbkit.Engine.Ring.{
  ProducerAt, resting, storing, stored, ConsumerAt, waiting, loading, loaded, Ring, new_ring,
  turn_at, start_push, start_pop,
}
use arbkit.Engine.Ring.Slots.{length-turns_from, get_or-turns_from}

-- What holds while the producer is at work: its slot is free, and carries the item once it is stored.
abbrev pub Producing {ℓ} : {A : Type ℓ} → Ring A → ProducerAt A → Type ℓ
Producing r resting = Unit
Producing r (storing x) = (r.head < r.tail + r.capacity) × Unit {ℓ}
Producing r (stored x) =
    (r.head < r.tail + r.capacity) × (get_elem? r.payloads (r.head % r.capacity) ≡ some x)

-- What holds while the consumer is at work: there is an item, and it is the one that was loaded.
abbrev pub Consuming {ℓ} : {A : Type ℓ} → Ring A → List A → ConsumerAt A → Type ℓ
Consuming r ps waiting = Unit
Consuming r ps loading = (r.tail < r.head) × Unit {ℓ}
Consuming r ps (loaded x) = (r.tail < r.head) × (get_elem? ps r.tail ≡ some x)

-- The positions from `tail` up to `head` hold the items that are pushed and not popped, in order, and
-- those from `head` up to a capacity past `tail` are free.
pub record Holds {ℓ} {A : Type ℓ} (blank : A) (capacity : ℕ) (r : Ring A) (ps qs : List A)
    : Type ℓ where
  pub sized : r.capacity ≡ capacity
  pub turns : length r.turns ≡ r.capacity
  pub payloads : length r.payloads ≡ r.capacity
  pub pushed : length ps ≡ r.head
  pub popped : qs ≡ take r.tail ps
  pub order : r.tail ≤ r.head
  pub room : r.head ≤ r.tail + r.capacity
  pub full : (n : ℕ) → r.tail ≤ n → n < r.head → get_or r.turns (n % r.capacity) 0 ≡ n + 1
  pub free : (n : ℕ) → r.head ≤ n → n < r.tail + r.capacity → get_or r.turns (n % r.capacity) 0 ≡ n
  pub kept :
      (n : ℕ) (x : A)
      → r.tail ≤ n
      → get_elem? ps n ≡ some x
      → get_elem? r.payloads (n % r.capacity) ≡ some x
  pub producing : Producing r r.producer
  pub consuming : Consuming r ps r.consumer

module _ {ℓ} {A : Type ℓ} (blank : A) (c : ℕ) where
  pub new_ring-Holds : 2 ≤ c → Holds blank c (new_ring blank c) [] []
  unfolding new_ring
  new_ring-Holds two = record {
    sized = refl;
    turns = length-turns_from 0 c;
    payloads = length-replicate c blank;
    pushed = omega arith;
    popped = refl;
    order = omega arith;
    room = omega arith;
    full = λ n lo hi. absurd (omega arith);
    free = λ n lo hi.
        let e : n % c ≡ n = mod-eq_of_lt (omega arith) in
        rw e (get_or-turns_from 0 c n (omega arith) ∙ omega arith);
    kept = λ n x lo e. cc;
    producing = tt;
    consuming = tt;
  }

  -- The producer sees its turn only when there is room: in a ring of two slots or more.
  pub sees_room :
      (r : Ring A) (ps qs : List A)
      → 2 ≤ c
      → Holds blank c r ps qs
      → turn_at r.head r ≡ r.head
      → r.head < r.tail + r.capacity
  sees_room r ps qs two h e = elim (Bool-cases (r.head == r.tail + r.capacity)) [
    | inr more ↦ ground (arith, h.room)
    | inl none_ ↦
        let q : r.head ≡ r.tail + r.capacity = ==→eq r.head (r.tail + r.capacity) none_ in
        let slot : r.head % r.capacity ≡ r.tail % r.capacity =
          ap (λ k. k % r.capacity) q ∙ add-mod_right r.tail r.capacity in
        let oldest : get_or r.turns (r.tail % r.capacity) 0 ≡ r.tail + 1 =
          h.full r.tail (omega arith) (omega (arith, q, two, h.sized)) in
        let same : turn_at r.head r ≡ r.tail + 1 = ap (λ k. get_or r.turns k 0) slot ∙ oldest in
        absurd (omega (arith, e, same, q, two, h.sized))
  ]

  pub sees_item :
      (r : Ring A) (ps qs : List A)
      → 2 ≤ c
      → Holds blank c r ps qs
      → turn_at r.tail r ≡ r.tail + 1
      → r.tail < r.head
  sees_item r ps qs two h e = elim (Bool-cases (r.head == r.tail)) [
    | inr more ↦ ground (arith, h.order)
    | inl none_ ↦
        let q : r.head ≡ r.tail = ==→eq r.head r.tail none_ in
        let next : turn_at r.tail r ≡ r.tail =
          h.free r.tail (omega (arith, q)) (omega (arith, two, h.sized)) in
        absurd (omega (arith, e, next))
  ]

  pub start_push-Holds :
      (r : Ring A) (ps qs : List A) (x : A)
      → 2 ≤ c
      → Holds blank c r ps qs
      → Holds blank c (start_push x r) ps qs
  unfolding start_push
  start_push-Holds r ps qs x two h = elim (Bool-cases (turn_at r.head r == r.head)) [
    | inr no_ ↦ rw no_ h
    | inl yes_ ↦ rw yes_ (record {
      sized = h.sized;
      turns = h.turns;
      payloads = h.payloads;
      pushed = h.pushed;
      popped = h.popped;
      order = h.order;
      room = h.room;
      full = h.full;
      free = h.free;
      kept = h.kept;
      producing = (sees_room r ps qs two h (==→eq (turn_at r.head r) r.head yes_), tt);
      consuming = h.consuming;
    })
  ]

  pub start_pop-Holds :
      (r : Ring A) (ps qs : List A)
      → 2 ≤ c
      → Holds blank c r ps qs
      → Holds blank c (start_pop r) ps qs
  unfolding start_pop
  start_pop-Holds r ps qs two h = elim (Bool-cases (turn_at r.tail r == r.tail + 1)) [
    | inr no_ ↦ rw no_ h
    | inl yes_ ↦ rw yes_ (record {
      sized = h.sized;
      turns = h.turns;
      payloads = h.payloads;
      pushed = h.pushed;
      popped = h.popped;
      order = h.order;
      room = h.room;
      full = h.full;
      free = h.free;
      kept = h.kept;
      producing = h.producing;
      consuming = (sees_item r ps qs two h (==→eq (turn_at r.tail r) (r.tail + 1) yes_), tt);
    })
  ]
