-- ===== src/Command/Reload/Run.antt =====
-- The runs of a pending reload, as steps of its methods, its timers and its reader.
use routercli.Base.{ℕ, Option, none, some, List, [], ◌∷◌, ◌≡◌, ◌⊎◌}
use routercli.Command.Reload.{
  PendingReload, new_pending_reload, schedule, cancel, start, check, send, receive,
}

abbrev pub In : ℕ → List ℕ → Type 0
In t [] = ⊥
In t (u ∷ l) = (u ≡ t) ⊎ In t l

abbrev pub given_up : Option ℕ → List ℕ → List ℕ
given_up none l = l
given_up (some t) l = t ∷ l

-- A run, with the timers that `Schedule` or `Cancel` gave up and those that have sent.
pub record Trace : Type 0 where
  pub state : PendingReload
  pub stopped : List ℕ
  pub sent : List ℕ

abbrev pub beginning : Trace
beginning = record { state = new_pending_reload; stopped = []; sent = [] }

infix 40 ◌⟶◌
pub data ◌⟶◌ : Trace → Trace → Type 0 where
  scheduled :
      {r : Trace}
      → r ⟶ record r { state = schedule r.state; stopped = given_up r.state.timer r.stopped }
  cancelled :
      {r : Trace}
      → r ⟶ record r { state = (cancel r.state).1; stopped = given_up r.state.timer r.stopped }
  elapsed : {r : Trace} (t : ℕ) → In t r.state.set → r ⟶ record r { state = start t r.state }
  checked : {r : Trace} (t : ℕ) → In t r.state.started → r ⟶ record r { state = check t r.state }
  delivered :
      {r : Trace} (t : ℕ)
      → In t r.state.sending
      → r ⟶ record r { state = send t r.state; sent = t ∷ r.sent }
  received : {r : Trace} → r ⟶ record r { state = receive r.state }

infix 40 ◌⟶*◌
pub data ◌⟶*◌ : Trace → Trace → Type 0 where
  here : {r : Trace} → r ⟶* r
  step : {r s t : Trace} → r ⟶* s → s ⟶ t → r ⟶* t
