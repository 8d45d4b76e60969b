-- ===== src/Exec/Guards/Laws.antt =====
-- Runs of calls to the guards (Exec/Guards.antt, crates/arbkit-exec/src/state.rs).
use arbkit.Prelude.{
  ℕ, suc, ◌+◌, ◌-◌, ◌≤◌, ◌<◌, ◌≡◌, ◌≢◌, ◌⊎◌, refl, ap, ◌∙◌, Bool, true, false, List, [], ◌∷◌,
  length, All, arith, min, leb, ◌==◌, ==→eq, Bool-cases, inl, inr, if◌then◌else◌,
}
use arbkit.Exec.Guards.{RateLimiter, renew, allow, FeedCircuitBreaker, observe, blocked, trip}

-- The number of calls that are allowed of those made at the given pairs of clock readings.
unfoldable pub count_allowed : List (ℕ × ℕ) → RateLimiter → ℕ
unfolding allow
count_allowed [] l = 0
count_allowed (t ∷ ts) l =
    (if (allow t.0 t.1 l).1 then 1 else 0) + count_allowed ts (allow t.0 t.1 l).0

-- The calls are all made within the window that started at the given reading.
abbrev pub Within : ℕ → ℕ → List (ℕ × ℕ) → Type 0
Within window started = All (λ t. t.0 - started < window)

renew-within :
    (now again : ℕ) (l : RateLimiter) → now - l.started < l.window → renew now again l ≡ l
unfolding renew
renew-within now again l h = ground arith

renew-over :
    (now again : ℕ) (l : RateLimiter)
    → l.window ≤ now - l.started
    → renew now again l ≡ record l { started = again; remaining = l.capacity }
unfolding renew
renew-over now again l h = ground arith

==-false : (a b : ℕ) → (a == b) ≡ false → a ≢ b
==-false a b h e = ground arith

count-Within :
    (ts : List (ℕ × ℕ)) (l : RateLimiter)
    → Within l.window l.started ts
    → count_allowed ts l ≡ min l.remaining (length ts)
unfolding count_allowed allow
count-Within [] l h = omega arith
count-Within (t ∷ ts) l h = elim (Bool-cases (l.remaining == 0)) [
  | inl spent ↦
      rw (renew-within t.0 t.1 l h.0, spent)
        (omega (arith, count-Within ts l h.1, ==→eq l.remaining 0 spent))
  | inr left ↦
      rw (renew-within t.0 t.1 l h.0, left)
        (omega (
          arith,
          count-Within ts (record l { remaining = l.remaining - 1 }) h.1,
          ==-false l.remaining 0 left,
        ))
]

-- Of calls made within one window exactly as many are allowed as remain of the capacity; of calls
-- that begin after the window is over, and go on within the new one that the first of them starts,
-- exactly as many as the whole capacity.
pub count_allowed_lem :
    (l : RateLimiter) (ts : List (ℕ × ℕ))
    → (Within l.window l.started ts → count_allowed ts l ≡ min l.remaining (length ts))
      × ((now again : ℕ)
          → l.window ≤ now - l.started
          → Within l.window again ts
          → 0 < l.capacity
          → count_allowed ((now, again) ∷ ts) l ≡ min l.capacity (suc (length ts)))
unfolding count_allowed allow
count_allowed_lem l ts = (
  count-Within ts l,
  (λ now again over h some_.
      let fresh : RateLimiter = record l { started = again; remaining = l.capacity - 1 } in
      let running : (l.capacity == 0) ≡ false = ground arith in
      rw (renew-over now again l over, running) (omega (arith, count-Within ts fresh h))),
)

-- Asks the breaker at each of the readings, and says whether it blocked every time.
unfoldable pub blocked_throughout : List ℕ → FeedCircuitBreaker → Bool
unfolding blocked
blocked_throughout [] b = true
blocked_throughout (t ∷ ts) b =
    if (blocked t b).1 then blocked_throughout ts (blocked t b).0 else false

blocked_tripped :
    (ts : List ℕ) (b : FeedCircuitBreaker)
    → blocked_throughout ts (record b { tripped = true }) ≡ true
unfolding blocked_throughout
blocked_tripped [] b = refl
blocked_tripped (t ∷ ts) b = elim (Bool-cases (leb b.stale_after (t - b.last_event))) [
  | inl stale ↦ rw (stale, blocked_throughout) (blocked_tripped ts b)
  | inr fresh ↦ rw (fresh, blocked_throughout) (blocked_tripped ts b)
]

still_blocked :
    (b : FeedCircuitBreaker) (now : ℕ)
    → (blocked now b).1 ≡ true
    → (ts : List ℕ) → blocked_throughout ts (blocked now b).0 ≡ true
unfolding blocked
still_blocked b now h ts = elim (Bool-cases (leb b.stale_after (now - b.last_event))) [
  | inl stale ↦ rw stale (blocked_tripped ts b)
  | inr fresh ↦
      let h' : b.tripped ≡ true = simp fresh at h in
      let q : b ≡ record b { tripped = true } = ap (λ t. record b { tripped = t }) h' in
      let r : blocked_throughout ts b ≡ true =
        ap (blocked_throughout ts) q ∙ blocked_tripped ts b in
      rw fresh r
]

-- A breaker blocks exactly if it was tripped or its last event is stale; once it has blocked, or was
-- tripped by hand, it blocks whatever the clock reads; and right after an event it blocks only
-- readings that are stale again.
pub blocked_latches :
    (b : FeedCircuitBreaker) (now : ℕ)
    → ((blocked now b).1 ≡ true → (b.tripped ≡ true) ⊎ (b.stale_after ≤ now - b.last_event))
      × ((b.tripped ≡ true) ⊎ (b.stale_after ≤ now - b.last_event) → (blocked now b).1 ≡ true)
      × ((blocked now b).1 ≡ true → (ts : List ℕ) → blocked_throughout ts (blocked now b).0 ≡ true)
      × ((ts : List ℕ) → blocked_throughout ts (trip b) ≡ true)
      × ((later : ℕ) → (blocked later (observe now b)).1 ≡ leb b.stale_after (later - now))
unfolding blocked trip observe
blocked_latches b now = (
  (λ e. ground arith),
  (λ h. ground arith),
  still_blocked b now,
  (λ ts. blocked_tripped ts b),
  (λ later. ground arith),
)
