-- ===== src/Daemon/Store/Run.antt =====
-- The runs of a store: the steps of the calls of `Do`, of the goroutine and of `Close`, in any order.
use routercli.Base.{ℕ, true, false, List, [], ◌∷◌, ◌≡◌, ◌⊎◌}
use routercli.Daemon.Store.{Functions, Store, submit, serve, refuse, collect, abandon, close, exit}

abbrev pub Among : {A : Type 0} → A → List A → Type 0
Among a [] = ⊥
Among a (b ∷ l) = (b ≡ a) ⊎ Among a l

-- A call has its own number. The goroutine serves until it has returned; `Do` returns
-- `ErrStoreClosed` only when `stop` is closed.
pub data Moves {S R : Type 0} (functions : Functions S R) : Store S R → Store S R → Type 0 where
  submits :
      {s : Store S R} (k : ℕ)
      → ¬ Among k s.waiting
      → ¬ Among k s.order
      → Moves functions s (submit k s)
  serves :
      {s : Store S R} (k : ℕ)
      → Among k s.waiting
      → s.stopped ≡ false
      → Moves functions s (serve functions k s)
  refuses :
      {s : Store S R} (k : ℕ) → Among k s.waiting → s.stop ≡ true → Moves functions s (refuse k s)
  collects :
      {s : Store S R} (k : ℕ) (r : R) → Among (k, r) s.answered → Moves functions s (collect k r s)
  abandons :
      {s : Store S R} (k : ℕ) (r : R)
      → Among (k, r) s.answered
      → s.stop ≡ true
      → Moves functions s (abandon k s)
  closes : {s : Store S R} → Moves functions s (close s)
  exits : {s : Store S R} → s.stop ≡ true → Moves functions s (exit s)

pub data Reaches {S R : Type 0} (functions : Functions S R) : Store S R → Store S R → Type 0 where
  here : {s : Store S R} → Reaches functions s s
  step : {s t u : Store S R} → Reaches functions s t → Moves functions t u → Reaches functions s u
