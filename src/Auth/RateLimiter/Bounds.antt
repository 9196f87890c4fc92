-- ===== src/Auth/RateLimiter/Bounds.antt =====
-- The failures that a limiter stores stay fewer than `maxAttempts`.
use routercli.Base.{
  ℕ, ◌-◌, ◌<◌, Option, none, some, List, [], ◌∷◌, ◌≡◌, refl, arith, length, length-append,
}
use routercli.Auth.RateLimiter.{
  RateLimiter, new_rate_limiter, prune_before, record_failure, record_success,
}

pub data Event : Type 0 where
  failed : ℕ → Event
  succeeded : Event

abbrev pub step : Option RateLimiter → Event → Option RateLimiter
step r (failed now) = record_failure r now
step r succeeded = record_success r

-- The limiter behind some events, the latest of which stands first.
abbrev pub run : RateLimiter → List Event → Option RateLimiter
run r [] = some r
run r (e ∷ events) = step (run r events) e

-- The number of failures that are stored.
abbrev pub stored : Option RateLimiter → ℕ
stored none = 0
stored (some r) = length r.failures

abbrev Bounded : ℕ → Option RateLimiter → Type 0
Bounded max none = ⊥
Bounded max (some r) = (r.max_attempts ≡ max) × (length r.failures < max)

step-Bounded :
    (max : ℕ) (r : Option RateLimiter) (e : Event) → Bounded max r → Bounded max (step r e)
unfolding record_failure record_success
step-Bounded max (some r) (failed now) b =
    ground (arith, length-append (prune_before r.failures (now - r.window)) (now ∷ []))
step-Bounded max (some r) succeeded b = ground arith
step-Bounded max none e b = absurd b

run-Bounded :
    (max window lockout : ℕ) (events : List Event)
    → 0 < max
    → Bounded max (run (new_rate_limiter max window lockout) events)
run-Bounded max window lockout [] p = (refl, p)
run-Bounded max window lockout (e ∷ events) p =
    step-Bounded max _ e (run-Bounded max window lockout events p)

Bounded-stored : (max : ℕ) (r : Option RateLimiter) → Bounded max r → stored r < max
Bounded-stored max none b = absurd b
Bounded-stored max (some r) b = b.1

-- After any failures and successes, at whatever times, an enabled limiter stores fewer failures than
-- `maxAttempts`.
stored-run :
    (max window lockout : ℕ) (events : List Event)
    → 0 < max
    → stored (run (new_rate_limiter max window lockout) events) < max
stored-run max window lockout events p =
    Bounded-stored max _ (run-Bounded max window lockout events p)
