-- ===== src/Auth/RateLimiter/Window.antt =====
-- The lockout, as a function of the times of the failures: a sliding window that is pruned lazily
-- locks exactly when enough of all failures fall within the window.
use routercli.Base.{
  ℕ, ◌+◌, ◌-◌, ◌≤◌, ◌<◌, true, false, ◌&&◌, Option, some, List, [], ◌∷◌, ◌++◌, ◌≡◌, inl, inr, refl,
  ap, ◌∙◌, arith, ltb, leb, Bool-cases, append-nil, if◌then◌else◌, length, length-append,
}
use routercli.Auth.RateLimiter.{
  RateLimiter, new_rate_limiter, prune_before, allow, add_failure, record_failure,
}

-- The limiter behind the failures of a history, the latest of which stands first.
abbrev pub after : RateLimiter → List ℕ → Option RateLimiter
after r [] = some r
after r (now ∷ older) = record_failure (after r older) now

-- How many of the times lie within the window that ends at `now`.
abbrev pub count_within : ℕ → ℕ → List ℕ → ℕ
count_within window now [] = 0
count_within window now (t ∷ times) =
    (if ltb t (now - window) then 0 else 1) + count_within window now times

-- The history is in order of time.
abbrev pub IsDescending : List ℕ → Type 0
IsDescending [] = Unit
IsDescending (t ∷ []) = Unit
IsDescending (t ∷ u ∷ times) = (u ≤ t) × IsDescending (u ∷ times)

-- No failure of the history had `max` failures in the window that it ended.
abbrev pub IsQuiet : ℕ → ℕ → List ℕ → Type 0
IsQuiet max window [] = Unit
IsQuiet max window (t ∷ times) =
    (count_within window t (t ∷ times) < max) × IsQuiet max window times

-- The failures within the window, the oldest first: what the limiter should hold.
recent : ℕ → List ℕ → List ℕ
recent cutoff [] = []
recent cutoff (t ∷ times) =
    if ltb t cutoff then recent cutoff times else recent cutoff times ++ t ∷ []

prune_before-append :
    (a b : List ℕ) (c : ℕ) → prune_before (a ++ b) c ≡ prune_before a c ++ prune_before b c
unfolding prune_before
prune_before-append [] b c = refl
prune_before-append (t ∷ a) b c = ground (arith, prune_before-append a b c)

late_ltb : (t c d : ℕ) → d ≤ c → ltb t d ≡ true → ltb t c ≡ true
late_ltb t c d h e = ground arith

append-prune_before :
    (l : List ℕ) (t c : ℕ) → l ++ prune_before (t ∷ []) c ≡ (if ltb t c then l else l ++ t ∷ [])
unfolding prune_before
append-prune_before l t c = elim (Bool-cases (ltb t c)) [
  | inl e ↦ rw e (append-nil l)
  | inr e ↦ rw e
]

prune_before-recent :
    (c d : ℕ) (times : List ℕ) → d ≤ c → prune_before (recent d times) c ≡ recent c times
unfolding prune_before recent
prune_before-recent c d [] h = refl
prune_before-recent c d (t ∷ times) h = elim (Bool-cases (ltb t d)) [
  | inl old ↦ rw (old, late_ltb t c d h old) (prune_before-recent c d times h)
  | inr new ↦ rw new (
      prune_before-append (recent d times) (t ∷ []) c
      ∙ ap (λ l. l ++ prune_before (t ∷ []) c) (prune_before-recent c d times h)
      ∙ append-prune_before (recent c times) t c)
]

length-recent :
    (window now : ℕ) (times : List ℕ)
    → length (recent (now - window) times) ≡ count_within window now times
unfolding recent
length-recent window now [] = refl
length-recent window now (t ∷ times) =
    ground
      (arith, length-recent window now times, length-append (recent (now - window) times) (t ∷ []))

IsDescending-tail : (now : ℕ) (older : List ℕ) → IsDescending (now ∷ older) → IsDescending older
IsDescending-tail now [] d = tt
IsDescending-tail now (t ∷ older) d = d.1

module _ (max window lockout : ℕ) where
  -- The window's failures, and no lockout.
  abbrev held : ℕ → List ℕ → RateLimiter
  held cutoff times = record {
    max_attempts = max;
    window = window;
    lockout = lockout;
    failures = recent cutoff times;
    locked_until = 0;
  }

  add_failure-held :
      (d now : ℕ) (older : List ℕ)
      → d ≤ now - window
      → add_failure (held d older) now ≡ (
          if leb max (count_within window now (now ∷ older))
          then record (new_rate_limiter max window lockout) { locked_until = now + lockout }
          else held (now - window) (now ∷ older))
  unfolding add_failure recent
  add_failure-held d now older h = rw (prune_before-recent (now - window) d older h) (
      ground (
        arith,
        length-append (recent (now - window) older) (now ∷ []),
        length-recent window now older,
      ))

  abbrev cutoff : List ℕ → ℕ
  cutoff [] = 0
  cutoff (t ∷ times) = t - window

  cutoff_le : (now : ℕ) (older : List ℕ) → IsDescending (now ∷ older) → cutoff older ≤ now - window
  cutoff_le now [] d = omega arith
  cutoff_le now (t ∷ older) d = omega arith

  after_quiet :
      (times : List ℕ)
      → 0 < max
      → IsDescending times
      → IsQuiet max window times
      → after (new_rate_limiter max window lockout) times ≡ some (held (cutoff times) times)
  unfolding recent
  after_quiet [] p d q = refl
  after_quiet (now ∷ older) p d q =
      let before = after_quiet older p (IsDescending-tail now older d) q.1 in
      rw before (
        unfold record_failure in
        ground (arith, add_failure-held (cutoff older) now older (cutoff_le now older d)))

  -- A limiter that no failure has locked so far, and the failure of time `now`: the next `Allow`
  -- refuses exactly where the window that ends at `now` holds `max` failures, this one included, and
  -- the lockout from `now` is not over, and then it says how long the lockout still runs.
  pub allow-after :
      (now : ℕ) (older : List ℕ) (t : ℕ)
      → 0 < max
      → IsDescending (now ∷ older)
      → IsQuiet max window older
      → allow (after (new_rate_limiter max window lockout) (now ∷ older)) t ≡ (
          if leb max (count_within window now (now ∷ older)) && ltb t (now + lockout)
          then (false, now + lockout - t)
          else (true, 0))
  unfolding allow record_failure
  allow-after now older t p d q =
      rw (after_quiet older p (IsDescending-tail now older d) q)
        (ground (arith, add_failure-held (cutoff older) now older (cutoff_le now older d)))
