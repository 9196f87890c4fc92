-- ===== src/Auth/RateLimiter.antt =====
-- auth/ratelimit.go and the type of auth/model.go: `RateLimiter`.
-- An instant is a number of nanoseconds after the zero `time.Time`, and a duration one of
-- nanoseconds. The field `now` is the argument `now` of the methods. A method of a limiter that may
-- be nil takes an `Option`; the mutex makes each method one step.
pub mod Window
pub mod Bounds
use routercli.Base.{
  ℕ, ◌+◌, ◌-◌, Bool, true, false, not, Option, none, some, List, [], ◌∷◌, ◌++◌, ltb, leb, ◌==◌,
  if◌then◌else◌, length,
}

pub record RateLimiter : Type 0 where
  pub max_attempts : ℕ
  pub window : ℕ
  pub lockout : ℕ
  pub failures : List ℕ
  pub locked_until : ℕ

-- `NewRateLimiter`. The zero time is 0.
abbrev pub new_rate_limiter : ℕ → ℕ → ℕ → RateLimiter
new_rate_limiter max_attempts window lockout = record {
  max_attempts = max_attempts;
  window = window;
  lockout = lockout;
  failures = [];
  locked_until = 0;
}

-- `pruneBefore`: `!t.Before(cutoff)` keeps.
unfoldable pub prune_before : List ℕ → ℕ → List ℕ
prune_before [] cutoff = []
prune_before (t ∷ times) cutoff =
    if not (ltb t cutoff) then t ∷ prune_before times cutoff else prune_before times cutoff

-- `Allow`.
unfoldable pub allow : Option RateLimiter → ℕ → Bool × ℕ
allow none now = (true, 0)
allow (some r) now =
    if r.max_attempts == 0
    then (true, 0)
    else if ltb now r.locked_until
    then (false, r.locked_until - now)
    else (true, 0)

-- `RecordFailure` behind its guard.
unfoldable pub add_failure : RateLimiter → ℕ → RateLimiter
unfolding prune_before
add_failure r now =
    let failures = prune_before r.failures (now - r.window) ++ now ∷ [] in
    if leb r.max_attempts (length failures)
    then record r { failures = []; locked_until = now + r.lockout }
    else record r { failures = failures }

-- `RecordFailure`.
unfoldable pub record_failure : Option RateLimiter → ℕ → Option RateLimiter
unfolding add_failure
record_failure none now = none
record_failure (some r) now = if r.max_attempts == 0 then some r else some (add_failure r now)

-- `RecordSuccess`.
unfoldable pub record_success : Option RateLimiter → Option RateLimiter
record_success none = none
record_success (some r) =
    if r.max_attempts == 0 then some r else some (record r { failures = []; locked_until = 0 })
