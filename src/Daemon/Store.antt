-- ===== src/Daemon/Store.antt =====
-- daemon/store.go: the goroutine that owns a state, and the calls of `Do`. A call is known by a
-- number, and `functions` gives the function that it submits. A call waits to hand its function over,
-- or for its result, or has returned; the steps on either side of a channel are those of Run.
pub mod Run
pub mod Serial
use routercli.Base.{ℕ, Bool, true, false, Option, none, some, List, [], ◌∷◌, ◌==◌, if◌then◌else◌}

-- What the calls submit: the result, and the state that is left.
abbrev pub Functions : Type 0 → Type 0 → Type 0
Functions S R = ℕ → S → R × S

-- `stop` and `stopped` are whether the channels are closed. `waiting` are the calls in the first
-- `select` of `Do`, `answered` those in the second, with the result in their channel; `returned` have
-- their result, or `none` for `ErrStoreClosed`. `order` are the calls whose functions ran, the last
-- first.
pub record Store (S R : Type 0) : Type 0 where
  pub state : S
  pub stop : Bool
  pub stopped : Bool
  pub waiting : List ℕ
  pub answered : List (ℕ × R)
  pub returned : List (ℕ × Option R)
  pub order : List ℕ

-- `NewStore`.
abbrev pub new_store : {S R : Type 0} → S → Store S R
new_store initial = record {
  state = initial;
  stop = false;
  stopped = false;
  waiting = [];
  answered = [];
  returned = [];
  order = [];
}

-- A call of `Do` begins.
abbrev pub submit : {S R : Type 0} → ℕ → Store S R → Store S R
submit k s = record s { waiting = k ∷ s.waiting }

unfoldable pub remove : List ℕ → ℕ → List ℕ
remove [] k = []
remove (j ∷ ks) k = if j == k then ks else j ∷ remove ks k

-- A turn of `run`: it takes the request and answers it.
unfoldable pub serve : {S R : Type 0} → Functions S R → ℕ → Store S R → Store S R
unfolding remove
serve functions k s = record s {
  state = (functions k s.state).1;
  waiting = remove s.waiting k;
  answered = (k, (functions k s.state).0) ∷ s.answered;
  order = k ∷ s.order;
}

-- `ErrStoreClosed`, before the request is taken.
unfoldable pub refuse : {S R : Type 0} → ℕ → Store S R → Store S R
unfolding remove
refuse k s = record s { waiting = remove s.waiting k; returned = (k, none) ∷ s.returned }

unfoldable pub remove_answer : {R : Type 0} → List (ℕ × R) → ℕ → List (ℕ × R)
remove_answer [] k = []
remove_answer ((j, r) ∷ answered) k = if j == k then answered else (j, r) ∷ remove_answer answered k

-- A call returns the result in its channel, or `ErrStoreClosed` in spite of it.
unfoldable pub collect : {S R : Type 0} → ℕ → R → Store S R → Store S R
unfolding remove_answer
collect k r s = record s {
  answered = remove_answer s.answered k;
  returned = (k, some r) ∷ s.returned;
}

unfoldable pub abandon : {S R : Type 0} → ℕ → Store S R → Store S R
unfolding remove_answer
abandon k s = record s { answered = remove_answer s.answered k; returned = (k, none) ∷ s.returned }

-- `Close` closes `stop`, and the goroutine then returns.
abbrev pub close : {S R : Type 0} → Store S R → Store S R
close s = record s { stop = true }

abbrev pub exit : {S R : Type 0} → Store S R → Store S R
exit s = record s { stopped = true }
