-- ===== src/Engine/Ring/Queue.antt =====
-- The ring between its two threads as a queue (crates/arbkit-engine/src/ring.rs).
use arbkit.Prelude.{
  ℕ, zero, suc, ◌+◌, ◌-◌, ◌%◌, ◌≤◌, ◌≡◌, ◌≢◌, refl, sym, ap, ◌∙◌, subst, none, some, List, [], ◌∷◌,
  ◌++◌, length, take, drop, get_elem?, arith, ◌==◌, ==→eq, ltb, Bool-cases, inl, inr, length-drop,
}
use arbkit.Engine.Ring.{storing, loading, Ring, turn_at, is_full, is_empty, try_pop, Reachable}
use arbkit.Engine.Ring.Slots.{apart, get_elem?-at, get_or-at}
use arbkit.Engine.Ring.Held.{Producing, Consuming, Holds, sees_room, sees_item}
use arbkit.Engine.Ring.Fifo.{Reachable-Holds}

-- The ring as a bounded queue: what is pushed is what is popped and then the queue, which is never longer
-- than the capacity; the two tests and `try_pop` tell of the queue; and while one thread stores a payload
-- and the other loads one, they are in different slots.
pub record IsQueue {ℓ} {A : Type ℓ} (capacity : ℕ) (r : Ring A) (ps qs : List A) : Type ℓ where
  pub queue : List A
  pub in_order : ps ≡ qs ++ queue
  pub fits : length queue ≤ capacity
  pub full : is_full r ≡ (length queue == capacity)
  pub empty : is_empty r ≡ (length queue == 0)
  pub oldest : (try_pop r).0 ≡ get_elem? queue 0
  pub exclusive :
      (x : A)
      → r.producer ≡ storing x
      → r.consumer ≡ loading
      → r.head % capacity ≢ r.tail % capacity

take-drop {ℓ} : {A : Type ℓ} (n : ℕ) (xs : List A) → xs ≡ take n xs ++ drop n xs
take-drop zero xs = refl
take-drop (suc n) [] = refl
take-drop (suc n) (x ∷ xs) = ap (◌∷◌ x) (take-drop n xs)

get_elem?-drop {ℓ} : {A : Type ℓ} (n : ℕ) (xs : List A) → get_elem? (drop n xs) 0 ≡ get_elem? xs n
get_elem?-drop zero xs = refl
get_elem?-drop (suc n) [] = refl
get_elem?-drop (suc n) (x ∷ xs) = get_elem?-drop n xs

get_elem?-past {ℓ} : {A : Type ℓ} (xs : List A) (n : ℕ) → length xs ≤ n → get_elem? xs n ≡ none
get_elem?-past [] n h = refl
get_elem?-past (x ∷ xs) zero h = absurd (omega arith)
get_elem?-past (x ∷ xs) (suc n) h = get_elem?-past xs n (omega arith)

module _ {ℓ} {A : Type ℓ} (blank : A) (c : ℕ) where
  full_lem :
      (r : Ring A) (ps qs : List A)
      → 2 ≤ c
      → Holds blank c r ps qs
      → is_full r ≡ (length (drop r.tail ps) == c)
  unfolding is_full
  full_lem r ps qs two h =
      let size : length (drop r.tail ps) ≡ r.head - r.tail =
        length-drop r.tail ps ∙ ap (λ k. k - r.tail) h.pushed in
      elim (Bool-cases (turn_at r.head r == r.head)) [
        | inl yes_ ↦
            let lt = sees_room blank c r ps qs two h (==→eq (turn_at r.head r) r.head yes_) in
            rw yes_ (ground (arith, size, lt, h.sized, h.order))
        | inr no_ ↦ elim (Bool-cases (ltb r.head (r.tail + r.capacity))) [
          | inl room ↦
              let e : turn_at r.head r ≡ r.head = h.free r.head (omega arith) (ground arith) in
              absurd (ground (arith, e, no_))
          | inr none_ ↦ rw no_ (ground (arith, size, none_, h.room, h.sized))
        ]
      ]

  empty_lem :
      (r : Ring A) (ps qs : List A)
      → 2 ≤ c
      → Holds blank c r ps qs
      → is_empty r ≡ (length (drop r.tail ps) == 0)
  unfolding is_empty
  empty_lem r ps qs two h =
      let size : length (drop r.tail ps) ≡ r.head - r.tail =
        length-drop r.tail ps ∙ ap (λ k. k - r.tail) h.pushed in
      elim (Bool-cases (turn_at r.tail r == r.tail + 1)) [
        | inl yes_ ↦
            let lt = sees_item blank c r ps qs two h (==→eq (turn_at r.tail r) (r.tail + 1) yes_) in
            rw yes_ (ground (arith, size, lt))
        | inr no_ ↦ elim (Bool-cases (ltb r.tail r.head)) [
          | inl item ↦
              let e : turn_at r.tail r ≡ r.tail + 1 = h.full r.tail (omega arith) (ground arith) in
              absurd (ground (arith, e, no_))
          | inr none_ ↦ rw no_ (ground (arith, size, none_, h.order))
        ]
      ]

  oldest_lem :
      (r : Ring A) (ps qs : List A)
      → 2 ≤ c
      → Holds blank c r ps qs
      → (try_pop r).0 ≡ get_elem? (drop r.tail ps) 0
  unfolding try_pop
  oldest_lem r ps qs two h = elim (Bool-cases (turn_at r.tail r == r.tail + 1)) [
    | inl yes_ ↦
        let lt = sees_item blank c r ps qs two h (==→eq (turn_at r.tail r) (r.tail + 1) yes_) in
        let (y, at) = get_elem?-at ps r.tail (omega (arith, lt, h.pushed)) in
        rw (yes_, get_elem?-drop r.tail ps, at)
          (ap some (
            get_or-at r.payloads (r.tail % r.capacity) r.blank y
              (h.kept r.tail y (omega arith) at)))
    | inr no_ ↦ elim (Bool-cases (ltb r.tail r.head)) [
      | inl item ↦
          let e : turn_at r.tail r ≡ r.tail + 1 = h.full r.tail (omega arith) (ground arith) in
          absurd (ground (arith, e, no_))
      | inr none_ ↦
          rw (no_, get_elem?-drop r.tail ps)
            (sym (get_elem?-past ps r.tail (ground (arith, h.pushed, none_))))
    ]
  ]

-- In a ring of two slots or more, whatever the order of the steps of the producer and the consumer: the
-- items that are popped are those that were pushed, in order and each once, and the rest is a queue that
-- never outgrows the capacity; `is_full` and `is_empty` are exact; a `try_pop` gives the oldest item of the
-- queue, and nothing only when there is none; and the threads never touch one payload at once.
pub Reachable-IsQueue {ℓ} :
    {A : Type ℓ} (blank : A) (c : ℕ) (r : Ring A) (ps qs : List A)
    → 2 ≤ c
    → Reachable blank c r ps qs
    → IsQueue c r ps qs
Reachable-IsQueue blank c r ps qs two s =
    let h = Reachable-Holds blank c two s in
    record {
      queue = drop r.tail ps;
      in_order = take-drop r.tail ps ∙ ap (λ l. l ++ drop r.tail ps) (sym h.popped);
      fits = omega (arith, length-drop r.tail ps, h.pushed, h.room, h.sized);
      full = full_lem blank c r ps qs two h;
      empty = empty_lem blank c r ps qs two h;
      oldest = oldest_lem blank c r ps qs two h;
      exclusive = λ x e k q.
          let (room, u) = subst (Producing r) e h.producing in
          let (item, u') = subst (Consuming r ps) k h.consuming in
          apart c r.tail r.head item (omega (arith, room, h.sized)) (sym q);
    }
