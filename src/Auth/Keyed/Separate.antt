-- ===== src/Auth/Keyed/Separate.antt =====
-- The keys of a `KeyedRateLimiter` do not meet: each has a `RateLimiter` of its own.
use routercli.Base.{
  ℕ, Option, none, some, [], ◌∷◌, ◌≡◌, ◌≢◌, inl, inr, refl, ap, ◌∙◌, arith, ◌==◌, ==_iff,
  Bool-cases, if◌then◌else◌, Text, text_eq, text_eq_iff,
}
use routercli.Auth.RateLimiter.{
  RateLimiter, new_rate_limiter, allow, add_failure, record_failure, record_success,
}
use routercli.Auth.Keyed.{
  Limiters, KeyedRateLimiter, lookup, store, limiter_for, write_back, keyed_allow,
  keyed_record_failure, keyed_record_success,
}

lookup-store :
    (m : Limiters) (key other : Text) (r : RateLimiter)
    → lookup (store m key r) other ≡ (if text_eq key other then some r else lookup m other)
unfolding lookup store
lookup-store [] key other r = refl
lookup-store ((k, q) ∷ m) key other r = ground (
  arith,
  text_eq_iff k key,
  text_eq_iff k other,
  text_eq_iff key other,
  lookup-store m key other r,
)

abbrev pub or_fresh : KeyedRateLimiter → Option RateLimiter → RateLimiter
or_fresh k none = new_rate_limiter k.max_attempts k.window k.lockout
or_fresh k (some r) = r

-- The limiter that the next operation on the key will use.
abbrev pub view : Option KeyedRateLimiter → Text → Option RateLimiter
view none key = none
view (some k) key = some (or_fresh k (lookup k.limiters key))

or_fresh-store :
    (k : KeyedRateLimiter) (key other : Text) (r : RateLimiter)
    → or_fresh k (lookup (store k.limiters key r) other)
      ≡ (if text_eq key other then r else or_fresh k (lookup k.limiters other))
or_fresh-store k key other r = ground (arith, lookup-store k.limiters key other r)

record_failure-some :
    (r : RateLimiter) (now : ℕ) → (q : RateLimiter) × (record_failure (some r) now ≡ some q)
unfolding record_failure
record_failure-some r now = elim (Bool-cases (r.max_attempts == 0)) [
  | inl e ↦ (r, rw e)
  | inr e ↦ (add_failure r now, rw e)
]

record_success-some : (r : RateLimiter) → (q : RateLimiter) × (record_success (some r) ≡ some q)
unfolding record_success
record_success-some r = elim (Bool-cases (r.max_attempts == 0)) [
  | inl e ↦ (r, rw e)
  | inr e ↦ (record r { failures = []; locked_until = 0 }, rw e)
]

module _ (k : KeyedRateLimiter) (key other : Text) where
  limiter_for-limiter : (limiter_for k key).0 ≡ or_fresh k (lookup k.limiters key)
  unfolding limiter_for
  limiter_for-limiter = ground arith

  limiter_for-view : view (some (limiter_for k key).1) other ≡ view (some k) other
  unfolding limiter_for
  limiter_for-view = ground (
    arith,
    text_eq_iff key other,
    lookup-store k.limiters key other (new_rate_limiter k.max_attempts k.window k.lockout),
  )

  -- A write through the pointer that `limiterFor` returned, `o` being the limiter that it left.
  write_back-view :
      (o : Option RateLimiter)
      → (q : RateLimiter) × (o ≡ some q)
      → view (some (write_back (limiter_for k key).1 key o)) other
        ≡ (if text_eq key other then o else view (some k) other)
  write_back-view o (q, e) =
      let k' = (limiter_for k key).1 in
      let stored = or_fresh-store k' key other q in
      rw e (elim (Bool-cases (text_eq key other)) [
        | inl same ↦ rw same (ap some (rw same at stored))
        | inr different ↦ rw different (ap some (rw different at stored) ∙ limiter_for-view)
      ])

  -- `Allow` answers as the limiter of its key does, and changes the limiter of no key.
  keyed_allow-view :
      (now : ℕ)
      → k.max_attempts ≢ 0
      → ((keyed_allow (some k) key now).0 ≡ allow (view (some k) key) now)
        × (view (keyed_allow (some k) key now).1 other ≡ view (some k) other)
  unfolding keyed_allow
  keyed_allow-view now h = elim (Bool-cases (k.max_attempts == 0)) [
    | inl e ↦ absurd (h ((==_iff k.max_attempts 0).0 e))
    | inr e ↦ rw e (ap (λ r. allow (some r) now) limiter_for-limiter, limiter_for-view)
  ]

  -- `RecordFailure` acts on the limiter of its key as that of `RateLimiter` does, and on no other.
  keyed_record_failure-view :
      (now : ℕ)
      → k.max_attempts ≢ 0
      → view (keyed_record_failure (some k) key now) other ≡ (
          if text_eq key other then record_failure (view (some k) key) now else view (some k) other)
  unfolding keyed_record_failure
  keyed_record_failure-view now h = elim (Bool-cases (k.max_attempts == 0)) [
    | inl e ↦ absurd (h ((==_iff k.max_attempts 0).0 e))
    | inr e ↦
        rw (e, ← limiter_for-limiter)
          (write_back-view (record_failure (some (limiter_for k key).0) now)
            (record_failure-some _ now))
  ]

  -- `RecordSuccess` acts on the limiter of its key as that of `RateLimiter` does, and on no other.
  keyed_record_success-view :
      k.max_attempts ≢ 0
      → view (keyed_record_success (some k) key) other
        ≡ (if text_eq key other then record_success (view (some k) key) else view (some k) other)
  unfolding keyed_record_success
  keyed_record_success-view h = elim (Bool-cases (k.max_attempts == 0)) [
    | inl e ↦ absurd (h ((==_iff k.max_attempts 0).0 e))
    | inr e ↦
        rw (e, ← limiter_for-limiter)
          (write_back-view (record_success (some (limiter_for k key).0)) (record_success-some _))
  ]

  -- Each key has a limiter of its own. `Allow` answers as the limiter of its key does, and changes
  -- the limiter of no key; `RecordFailure` and `RecordSuccess` act on the limiter of their key as
  -- those of `RateLimiter` do, and on no other. This is where the limiter is on, `maxAttempts` not
  -- being 0.
  pub limiters_separate :
      (now : ℕ)
      → k.max_attempts ≢ 0
      → ((keyed_allow (some k) key now).0 ≡ allow (view (some k) key) now)
        × (view (keyed_allow (some k) key now).1 other ≡ view (some k) other)
        × (view (keyed_record_failure (some k) key now) other ≡ (
            if text_eq key other
            then record_failure (view (some k) key) now
            else view (some k) other))
        × (view (keyed_record_success (some k) key) other ≡ (
            if text_eq key other then record_success (view (some k) key) else view (some k) other))
  limiters_separate now h =
      let allowed = keyed_allow-view now h in
      (allowed.0, allowed.1, keyed_record_failure-view now h, keyed_record_success-view h)
