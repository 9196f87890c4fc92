-- ===== src/Auth/Keyed.antt =====
-- auth/ratelimit.go: `KeyedRateLimiter`, a `RateLimiter` for each key, made on first use. The mutex
-- makes `limiterFor` one step; the map is an association list, and a write adds or replaces the
-- entry of its key.
pub mod Separate
use routercli.Base.{
  ℕ, Bool, true, false, Option, none, some, List, [], ◌∷◌, ◌≡◌, refl, arith, ◌==◌, if◌then◌else◌,
  Text, text_eq, text_eq_iff,
}
use routercli.Auth.RateLimiter.{
  RateLimiter, new_rate_limiter, allow, record_failure, record_success,
}

abbrev pub Limiters : Type 0
Limiters = List (Text × RateLimiter)

pub record KeyedRateLimiter : Type 0 where
  pub max_attempts : ℕ
  pub window : ℕ
  pub lockout : ℕ
  pub limiters : Limiters

unfoldable pub lookup : Limiters → Text → Option RateLimiter
lookup [] key = none
lookup ((k, r) ∷ m) key = if text_eq k key then some r else lookup m key

unfoldable pub store : Limiters → Text → RateLimiter → Limiters
store [] key r = (key, r) ∷ []
store ((k, q) ∷ m) key r = if text_eq k key then (key, r) ∷ m else (k, q) ∷ store m key r

-- `NewKeyedRateLimiter`.
abbrev pub new_keyed_rate_limiter : ℕ → ℕ → ℕ → KeyedRateLimiter
new_keyed_rate_limiter max_attempts window lockout = record {
  max_attempts = max_attempts;
  window = window;
  lockout = lockout;
  limiters = [];
}

-- `limiterFor`: the limiter of the key, and the map that has it.
unfoldable pub limiter_for : KeyedRateLimiter → Text → RateLimiter × KeyedRateLimiter
unfolding lookup store
limiter_for k key = elim (lookup k.limiters key) [
  | some r ↦ (r, k)
  | none ↦
      let r = new_rate_limiter k.max_attempts k.window k.lockout in
      (r, record k { limiters = store k.limiters key r })
]

-- The limiter behind the pointer is written in place.
abbrev pub write_back : KeyedRateLimiter → Text → Option RateLimiter → KeyedRateLimiter
write_back k key none = k
write_back k key (some r) = record k { limiters = store k.limiters key r }

-- `Allow`.
unfoldable pub keyed_allow :
    Option KeyedRateLimiter → Text → ℕ → (Bool × ℕ) × Option KeyedRateLimiter
unfolding limiter_for allow
keyed_allow none key now = ((true, 0), none)
keyed_allow (some k) key now =
    if k.max_attempts == 0
    then ((true, 0), some k)
    else (let (r, k') = limiter_for k key in (allow (some r) now, some k'))

-- `RecordFailure`.
unfoldable pub keyed_record_failure : Option KeyedRateLimiter → Text → ℕ → Option KeyedRateLimiter
unfolding limiter_for record_failure
keyed_record_failure none key now = none
keyed_record_failure (some k) key now =
    if k.max_attempts == 0
    then some k
    else (let (r, k') = limiter_for k key in some (write_back k' key (record_failure (some r) now)))

-- `RecordSuccess`.
unfoldable pub keyed_record_success : Option KeyedRateLimiter → Text → Option KeyedRateLimiter
unfolding limiter_for record_success
keyed_record_success none key = none
keyed_record_success (some k) key =
    if k.max_attempts == 0
    then some k
    else (let (r, k') = limiter_for k key in some (write_back k' key (record_success (some r))))
