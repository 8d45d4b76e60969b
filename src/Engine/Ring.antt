-- ===== src/Engine/Ring.antt =====
-- crates/arbkit-engine/src/ring.rs: the ring between a producer and a consumer thread. Each atomic
-- operation is a step of its own, so that the steps of the two threads interleave; the payload of a slot,
-- which only the thread that holds the slot touches, is stored and loaded in one. Memory is sequentially
-- consistent: what the acquire and release_slot orderings add to that is not modelled. The slots are two
-- arrays, of turns and of payloads; `head & mask` is `head % capacity`, as the capacity is a power of two;
-- the two u64 positions are not wrapped, as no run counts 2 ^ 64 items.
pub mod Slots
pub mod Held
pub mod Fifo
pub mod Queue
pub mod FeedSlot
pub mod SignalSlot
pub mod SignalLoaded
use arbkit.Prelude.{
  ℕ, zero, suc, ◌+◌, ◌-◌, ◌%◌, ◌^◌, ◌≡◌, ◌&&◌, ◌||◌, ltb, Bool, true, false, not, Option, none,
  some, List, [], ◌∷◌, ◌++◌, Checked, accepted, rejected, get_or, set, replicate, ◌==◌,
  if◌then◌else◌,
}

-- Where `try_push` is: not begun, its turn seen, or the payload stored.
pub data ProducerAt {ℓ} (A : Type ℓ) : Type ℓ where
  resting : ProducerAt A
  storing : A → ProducerAt A
  stored : A → ProducerAt A

-- Where `try_pop` is.
pub data ConsumerAt {ℓ} (A : Type ℓ) : Type ℓ where
  waiting : ConsumerAt A
  loading : ConsumerAt A
  loaded : A → ConsumerAt A

pub record Ring {ℓ} (A : Type ℓ) : Type ℓ where
  pub turns : List ℕ
  pub payloads : List A
  pub blank : A
  pub capacity : ℕ
  pub head : ℕ
  pub tail : ℕ
  pub producer : ProducerAt A
  pub consumer : ConsumerAt A

-- The turns of a new ring: each slot's own index.
abbrev pub turns_from : ℕ → ℕ → List ℕ
turns_from i zero = []
turns_from i (suc n) = i ∷ turns_from (suc i) n

-- One of the powers of two below `2 ^ bits`.
abbrev pub is_power_below : ℕ → ℕ → Bool
is_power_below n zero = false
is_power_below n (suc bits) = (n == 2 ^ bits) || is_power_below n bits

-- `usize::is_power_of_two`
abbrev pub is_power_of_two : ℕ → Bool
is_power_of_two n = is_power_below n 64

module _ {ℓ} {A : Type ℓ} where
  unfoldable pub new_ring : A → ℕ → Ring A
  new_ring blank capacity = record {
    turns = turns_from 0 capacity;
    payloads = replicate capacity blank;
    blank = blank;
    capacity = capacity;
    head = 0;
    tail = 0;
    producer = resting;
    consumer = waiting;
  }

  -- The source panics on any other capacity.
  unfoldable pub spsc_ring : A → ℕ → Option (Ring A)
  spsc_ring blank capacity =
      if ltb 0 capacity && is_power_of_two capacity then some (new_ring blank capacity) else none

  abbrev pub turn_at : ℕ → Ring A → ℕ
  turn_at position r = get_or r.turns (position % r.capacity) 0

  -- `try_push`: the load of the turn, which lets the producer go on or fails,
  unfoldable pub start_push : A → Ring A → Ring A
  start_push item r = if turn_at r.head r == r.head then record r { producer = storing item } else r

  -- the store of the payload,
  unfoldable pub store_payload : A → Ring A → Ring A
  store_payload item r = record r {
    payloads = set r.payloads (r.head % r.capacity) item;
    producer = stored item;
  }

  -- and the store of the turn.
  unfoldable pub publish : Ring A → Ring A
  publish r = record r {
    turns = set r.turns (r.head % r.capacity) (r.head + 1);
    head = r.head + 1;
    producer = resting;
  }

  -- `try_pop`: the load of the turn,
  unfoldable pub start_pop : Ring A → Ring A
  start_pop r = if turn_at r.tail r == r.tail + 1 then record r { consumer = loading } else r

  -- the load of the payload,
  unfoldable pub load_payload : Ring A → Ring A
  load_payload r = record r { consumer = loaded (get_or r.payloads (r.tail % r.capacity) r.blank) }

  -- and the store of the turn.
  unfoldable pub release_slot : Ring A → Ring A
  release_slot r = record r {
    turns = set r.turns (r.tail % r.capacity) (r.tail + r.capacity);
    tail = r.tail + 1;
    consumer = waiting;
  }

  unfoldable pub is_full : Ring A → Bool
  is_full r = not (turn_at r.head r == r.head)

  unfoldable pub is_empty : Ring A → Bool
  is_empty r = not (turn_at r.tail r == r.tail + 1)

  -- A whole `try_push` with no step of the other thread between its own.
  unfoldable pub try_push : A → Ring A → Checked A (Ring A)
  unfolding store_payload publish
  try_push item r =
      if turn_at r.head r == r.head
      then accepted (publish (store_payload item r))
      else rejected item

  -- A whole `try_pop`.
  unfoldable pub try_pop : Ring A → Option A × Ring A
  unfolding load_payload release_slot
  try_pop r =
      if turn_at r.tail r == r.tail + 1
      then (some (get_or r.payloads (r.tail % r.capacity) r.blank), release_slot (load_payload r))
      else (none, r)

-- The rings that the steps of the two threads reach, in any order, with the items pushed and popped so far.
pub data Reachable {ℓ} {A : Type ℓ} (blank : A) (capacity : ℕ)
    : Ring A → List A → List A → Type ℓ where
  created : Reachable blank capacity (new_ring blank capacity) [] []
  starts_push :
      {r : Ring A} {ps qs : List A} (item : A)
      → Reachable blank capacity r ps qs
      → r.producer ≡ resting
      → Reachable blank capacity (start_push item r) ps qs
  stores :
      {r : Ring A} {ps qs : List A} (item : A)
      → Reachable blank capacity r ps qs
      → r.producer ≡ storing item
      → Reachable blank capacity (store_payload item r) ps qs
  publishes :
      {r : Ring A} {ps qs : List A} (item : A)
      → Reachable blank capacity r ps qs
      → r.producer ≡ stored item
      → Reachable blank capacity (publish r) (ps ++ (item ∷ [])) qs
  starts_pop :
      {r : Ring A} {ps qs : List A}
      → Reachable blank capacity r ps qs
      → r.consumer ≡ waiting
      → Reachable blank capacity (start_pop r) ps qs
  loads :
      {r : Ring A} {ps qs : List A}
      → Reachable blank capacity r ps qs
      → r.consumer ≡ loading
      → Reachable blank capacity (load_payload r) ps qs
  releases :
      {r : Ring A} {ps qs : List A} (item : A)
      → Reachable blank capacity r ps qs
      → r.consumer ≡ loaded item
      → Reachable blank capacity (release_slot r) ps (qs ++ (item ∷ []))
