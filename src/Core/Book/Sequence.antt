-- ===== src/Core/Book/Sequence.antt =====
-- The sequence discipline of a book under a run of updates (crates/arbkit-core/src/book.rs).
use native.Mathlib.Decide.{ℕ_discrete}
use arbkit.Prelude.{
  ℕ, ◌+◌, ◌<◌, ◌^◌, ◌≡◌, ◌≢◌, refl, Bool, true, false, none, List, [], ◌∷◌, length, arith, ◌&&◌,
}
use arbkit.Core.Book.{OutcomeBook, accept_seq, best, live_levels}

accept-stale :
    (s : ℕ) (b : OutcomeBook)
    → b.stale ≡ true
    → accept_seq s b ≡ (record b { stale = true; len = 0 }, false)
unfolding accept_seq
accept-stale s b h = rw h

accept-next :
    (s : ℕ) (b : OutcomeBook)
    → b.stale ≡ false
    → s < 2 ^ 64
    → s ≡ b.last_seq + 1
    → accept_seq s b ≡ (record b { last_seq = s }, true)
unfolding accept_seq
accept-next s b h k e = ground arith

accept-gap :
    (s : ℕ) (b : OutcomeBook)
    → b.stale ≡ false
    → b.last_seq + 1 < 2 ^ 64
    → s ≢ b.last_seq + 1
    → accept_seq s b ≡ (record b { stale = true; len = 0 }, false)
unfolding accept_seq
accept-gap s b h k e = ground arith

-- The book after a run of updates, and whether all of them were accepted.
pub accept_all : List ℕ → OutcomeBook → OutcomeBook × Bool
accept_all [] b = (b, true)
accept_all (s ∷ ss) b =
    let (b', good) = accept_seq s b in let (b'', rest) = accept_all ss b' in (b'', good && rest)

-- The run counts up by one from `n`.
abbrev pub Follows : ℕ → List ℕ → Type 0
Follows n [] = Unit
Follows n (s ∷ ss) = (s ≡ n + 1) × Follows s ss

-- A book that is out of service stays so under any run of updates: it reports no best price and
-- no levels.
pub accept_all-stale :
    (ss : List ℕ) (b : OutcomeBook)
    → b.stale ≡ true
    → ((accept_all ss b).0.stale ≡ true)
      × (best (accept_all ss b).0 ≡ none)
      × (live_levels (accept_all ss b).0 ≡ [])
unfolding accept_all best live_levels
accept_all-stale [] b h = ground arith
accept_all-stale (s ∷ ss) b h =
    rw (accept-stale s b h) (accept_all-stale ss (record b { stale = true; len = 0 }) refl)

-- For a book in service and numbers that stay below 2^64, a run of updates is accepted as a whole
-- exactly when it counts up by one from the last number seen; any other run leaves the book out
-- of service.
pub accept_all_iff :
    (ss : List ℕ) (b : OutcomeBook)
    → b.stale ≡ false
    → b.last_seq + length ss < 2 ^ 64
    → ((accept_all ss b).1 ≡ true → Follows b.last_seq ss)
      × (Follows b.last_seq ss → ((accept_all ss b).1 ≡ true) × ((accept_all ss b).0.stale ≡ false))
      × ((accept_all ss b).1 ≡ false → (accept_all ss b).0.stale ≡ true)
unfolding accept_all
accept_all_iff [] b h k = (λ e. tt, λ f. (refl, h), λ e. cc)
accept_all_iff (s ∷ ss) b h k = elim (ℕ_discrete s (b.last_seq + 1)) [
  | yes e ↦
      let (sound, complete, gap) = accept_all_iff ss (record b { last_seq = s }) h (omega arith) in
      rw (accept-next s b h (omega arith) e) ((λ t. (e, sound t)), (λ f. complete f.1), gap)
  | no ne ↦ rw (accept-gap s b h (omega arith) ne) (
    (λ t. cc),
    (λ f. absurd (ne f.0)),
    (λ t. (accept_all-stale ss (record b { stale = true; len = 0 }) refl).0),
  )
]
