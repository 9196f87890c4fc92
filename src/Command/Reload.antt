-- ===== src/Command/Reload.antt =====
-- command/reload.go: `PendingReload`. A timer is known by a number, in the order of the calls of
-- `Schedule`. Its function runs on a goroutine of its own, so it is two steps, on either side of the
-- release of the lock; a method holds the lock throughout, so it is one.
pub mod Run
pub mod Fires
use routercli.Base.{
  ℕ, suc, Bool, true, false, Option, none, some, List, [], ◌∷◌, ◌++◌, ◌==◌, if◌then◌else◌,
}

-- `fired` is whether the channel, of one element, is full. The timers of the runtime are those that
-- are set, those whose function has started and waits for the lock, and those whose function has
-- released it and is about to send.
pub record PendingReload : Type 0 where
  pub timer : Option ℕ
  pub fired : Bool
  pub next : ℕ
  pub set : List ℕ
  pub started : List ℕ
  pub sending : List ℕ

-- `NewPendingReload`.
abbrev pub new_pending_reload : PendingReload
new_pending_reload = record {
  timer = none;
  fired = false;
  next = 0;
  set = [];
  started = [];
  sending = [];
}

pub remove : ℕ → List ℕ → List ℕ
remove t [] = []
remove t (u ∷ l) = if u == t then remove t l else u ∷ remove t l

-- `p.timer.Stop()`: a timer whose function has started is not stopped.
abbrev pub stop : Option ℕ → List ℕ → List ℕ
stop none set = set
stop (some t) set = remove t set

-- `Schedule`.
unfoldable pub schedule : PendingReload → PendingReload
unfolding remove
schedule p = record p { timer = some p.next; next = suc p.next; set = p.next ∷ stop p.timer p.set }

-- `Cancel`.
unfoldable pub cancel : PendingReload → Bool × PendingReload
unfolding remove
cancel p = elim (p.timer) [
  | none ↦ (false, p)
  | some t ↦ (true, record p { timer = none; set = remove t p.set })
]

-- `Pending`.
unfoldable pub pending : PendingReload → Bool
pending p = elim (p.timer) [ none ↦ false | some t ↦ true ]

-- The runtime starts the function of a timer.
unfoldable pub start : ℕ → PendingReload → PendingReload
unfolding remove
start t p = record p { set = remove t p.set; started = t ∷ p.started }

-- `p.timer == t`.
abbrev pub is_timer : Option ℕ → ℕ → Bool
is_timer none t = false
is_timer (some u) t = u == t

-- The function of a timer up to where it releases the lock.
unfoldable pub check : ℕ → PendingReload → PendingReload
unfolding remove
check t p =
    if is_timer p.timer t
    then record p { timer = none; started = remove t p.started; sending = t ∷ p.sending }
    else record p { started = remove t p.started }

-- The `select`: where the channel is full, nothing is sent.
unfoldable pub send : ℕ → PendingReload → PendingReload
unfolding remove
send t p = record p { fired = true; sending = remove t p.sending }

-- A receive from `FireChannel`.
unfoldable pub receive : PendingReload → PendingReload
receive p = record p { fired = false }
