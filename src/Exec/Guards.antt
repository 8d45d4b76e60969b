-- ===== src/Exec/Guards.antt =====
-- crates/arbkit-exec/src/state.rs, `RateLimiter` and `FeedCircuitBreaker`: the guards between a
-- signal and an order. Every reading of the clock is an argument, in nanoseconds; `elapsed` is the
-- difference of two readings, zero if the later one lies before.
pub mod Laws
use arbkit.Prelude.{ℕ, ◌-◌, Bool, true, false, leb, ◌==◌, if◌then◌else◌}

pub record RateLimiter : Type 0 where
  pub capacity : ℕ
  pub remaining : ℕ
  pub window : ℕ
  pub started : ℕ

unfoldable pub new_limiter : ℕ → ℕ → ℕ → RateLimiter
new_limiter capacity window now = record {
  capacity = capacity;
  remaining = capacity;
  window = window;
  started = now;
}

-- The start of a new window, if the old one is over. The clock is read a second time for it.
unfoldable pub renew : ℕ → ℕ → RateLimiter → RateLimiter
renew now again l =
    if leb l.window (now - l.started)
    then record l { started = again; remaining = l.capacity }
    else l

abbrev pub spend : RateLimiter → RateLimiter × Bool
spend l = if l.remaining == 0 then (l, false) else (record l { remaining = l.remaining - 1 }, true)

unfoldable pub allow : ℕ → ℕ → RateLimiter → RateLimiter × Bool
unfolding renew
allow now again l = spend (renew now again l)

pub record FeedCircuitBreaker : Type 0 where
  pub stale_after : ℕ
  pub last_event : ℕ
  pub tripped : Bool

unfoldable pub new_breaker : ℕ → ℕ → FeedCircuitBreaker
new_breaker stale_after now = record {
  stale_after = stale_after;
  last_event = now;
  tripped = false;
}

unfoldable pub observe : ℕ → FeedCircuitBreaker → FeedCircuitBreaker
observe now b = record b { last_event = now; tripped = false }

-- The breaker after the question, and the answer.
unfoldable pub blocked : ℕ → FeedCircuitBreaker → FeedCircuitBreaker × Bool
blocked now b =
    if leb b.stale_after (now - b.last_event)
    then (record b { tripped = true }, true)
    else (b, b.tripped)

unfoldable pub trip : FeedCircuitBreaker → FeedCircuitBreaker
trip b = record b { tripped = true }
