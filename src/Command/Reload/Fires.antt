-- ===== src/Command/Reload/Fires.antt =====
-- Which timers fire.
use routercli.Base.{
  ℕ, ◌<◌, true, false, Option, none, some, List, [], ◌∷◌, ◌≡◌, ◌≢◌, ◌⊎◌, inl, inr, refl, ap, sym,
  subst, some-injective, none_and_some, arith, ==_iff, Bool-cases,
}
use routercli.Command.Reload.{
  PendingReload, remove, stop, schedule, cancel, start, is_timer, check, send, receive,
}
use routercli.Command.Reload.Run.{
  In, given_up, Trace, beginning, ◌⟶◌, scheduled, cancelled, elapsed, checked, delivered, received,
  ◌⟶*◌, here, step,
}

Past : Trace → ℕ → Type 0
Past r t = In t r.state.sending ⊎ In t r.sent

-- What holds between steps. The current timer is set or started, and is not yet given up nor past
-- the check; no timer is both.
record Inv (r : Trace) : Type 0 where
  live : (t : ℕ) → r.state.timer ≡ some t → In t r.state.set ⊎ In t r.state.started
  current : (t : ℕ) → r.state.timer ≡ some t → ¬ Past r t × ¬ In t r.stopped × (t < r.state.next)
  apart : (t : ℕ) → Past r t → ¬ In t r.stopped
  past_old : (t : ℕ) → Past r t → t < r.state.next
  stopped_old : (t : ℕ) → In t r.stopped → t < r.state.next

In-remove : (t u : ℕ) (l : List ℕ) → In u l → u ≢ t → In u (remove t l)
unfolding remove
In-remove t u [] h n = absurd h
In-remove t u (v ∷ l) h n = ground (arith, In-remove t u l)

In-remove_back : (t u : ℕ) (l : List ℕ) → In u (remove t l) → In u l
unfolding remove
In-remove_back t u [] h = absurd h
In-remove_back t u (v ∷ l) h = ground (arith, In-remove_back t u l)

not_in_remove : (t : ℕ) (l : List ℕ) → ¬ In t (remove t l)
unfolding remove
not_in_remove t [] h = h
not_in_remove t (v ∷ l) h = ground (arith, not_in_remove t l)

In-given_up : (o : Option ℕ) (l : List ℕ) (t : ℕ) → In t (given_up o l) → (o ≡ some t) ⊎ In t l
In-given_up none l t h = inr h
In-given_up (some u) l t (inl e) = inl (ap some e)
In-given_up (some u) l t (inr h) = inr h

same_or_not : (t u : ℕ) → (t ≡ u) ⊎ (t ≢ u)
same_or_not t u = ground arith

is_timer-some : (o : Option ℕ) (t : ℕ) → is_timer o t ≡ true → o ≡ some t
is_timer-some none t e = cc
is_timer-some (some u) t e = ap some ((==_iff u t).0 e)

is_timer_self : (o : Option ℕ) (t : ℕ) → o ≡ some t → is_timer o t ≡ true
is_timer_self none t e = none_and_some refl e
is_timer_self (some u) t e = (==_iff u t).1 (some-injective e)

not_same : (o : Option ℕ) (t u : ℕ) → is_timer o t ≡ false → o ≡ some u → u ≢ t
not_same none t u e k = none_and_some refl k
not_same (some v) t u e k = ground (arith, some-injective k)

module _ (r : Trace) (i : Inv r) where
  stopped_apart : (t : ℕ) → Past r t → ¬ In t (given_up r.state.timer r.stopped)
  stopped_apart t past s = elim (In-given_up r.state.timer r.stopped t s) [
    | inl e ↦ (i.current t e).0 past
    | inr k ↦ i.apart t past k
  ]

  stopped_before : (t : ℕ) → In t (given_up r.state.timer r.stopped) → t < r.state.next
  stopped_before t s = elim (In-given_up r.state.timer r.stopped t s) [
    | inl e ↦ (i.current t e).2
    | inr k ↦ i.stopped_old t k
  ]

  scheduled-Inv :
      Inv (record r { state = schedule r.state; stopped = given_up r.state.timer r.stopped })
  unfolding schedule Past
  scheduled-Inv = record {
    live = λ t e. inl (inl (some-injective e));
    current = λ t e. (
      λ past. omega (arith, i.past_old t past, some-injective e),
      λ s. omega (arith, stopped_before t s, some-injective e),
      omega (arith, some-injective e),
    );
    apart = stopped_apart;
    past_old = λ t past. omega (arith, i.past_old t past);
    stopped_old = λ t s. omega (arith, stopped_before t s);
  }

  cancelled-Inv : Inv (record r {
    state = record r.state { timer = none; set = stop r.state.timer r.state.set };
    stopped = given_up r.state.timer r.stopped;
  })
  unfolding Past
  cancelled-Inv = record {
    live = λ t e. none_and_some refl e;
    current = λ t e. none_and_some refl e;
    apart = stopped_apart;
    past_old = i.past_old;
    stopped_old = stopped_before;
  }

  elapsed-Inv : (t : ℕ) → Inv (record r { state = start t r.state })
  unfolding start Past
  elapsed-Inv t = record {
    live = λ u e. elim (i.live u e) [
      | inl s ↦ elim (same_or_not u t) [
        | inl same ↦ inr (inl (sym same))
        | inr other ↦ inl (In-remove t u r.state.set s other)
      ]
      | inr s ↦ inr (inr s)
    ];
    current = i.current;
    apart = i.apart;
    past_old = i.past_old;
    stopped_old = i.stopped_old;
  }

  back :
      (t : ℕ)
      → In t r.state.sending
      → (u : ℕ) → In u (remove t r.state.sending) ⊎ In u (t ∷ r.sent)
      → Past r u
  unfolding Past
  back t h u (inl a) = inl (In-remove_back t u r.state.sending a)
  back t h u (inr (inl e)) = inl (subst (λ v. In v r.state.sending) e h)
  back t h u (inr (inr b)) = inr b

  delivered-Inv :
      (t : ℕ) → In t r.state.sending → Inv (record r { state = send t r.state; sent = t ∷ r.sent })
  unfolding send Past
  delivered-Inv t h = record {
    live = i.live;
    current =
        λ u e. (λ past. (i.current u e).0 (back t h u past), (i.current u e).1, (i.current u e).2);
    apart = λ u past. i.apart u (back t h u past);
    past_old = λ u past. i.past_old u (back t h u past);
    stopped_old = i.stopped_old;
  }

  checked_current :
      (t : ℕ)
      → r.state.timer ≡ some t
      → Inv (record r {
        state = record r.state {
          timer = none;
          started = remove t r.state.started;
          sending = t ∷ r.state.sending;
        };
      })
  unfolding Past
  checked_current t e = record {
    live = λ u k. none_and_some refl k;
    current = λ u k. none_and_some refl k;
    apart = λ u past. elim past [
      | inl (inl same) ↦ subst (λ v. ¬ In v r.stopped) same (i.current t e).1
      | inl (inr s) ↦ i.apart u (inl s)
      | inr s ↦ i.apart u (inr s)
    ];
    past_old = λ u past. elim past [
      | inl (inl same) ↦ subst (λ v. v < r.state.next) same (i.current t e).2
      | inl (inr s) ↦ i.past_old u (inl s)
      | inr s ↦ i.past_old u (inr s)
    ];
    stopped_old = i.stopped_old;
  }

  checked_stale :
      (t : ℕ)
      → is_timer r.state.timer t ≡ false
      → Inv (record r { state = record r.state { started = remove t r.state.started } })
  unfolding Past
  checked_stale t e = record {
    live = λ u k. elim (i.live u k) [
      | inl s ↦ inl s
      | inr s ↦ inr (In-remove t u r.state.started s (not_same r.state.timer t u e k))
    ];
    current = i.current;
    apart = i.apart;
    past_old = i.past_old;
    stopped_old = i.stopped_old;
  }

  checked-Inv : (t : ℕ) → Inv (record r { state = check t r.state })
  unfolding check
  checked-Inv t = elim (Bool-cases (is_timer r.state.timer t)) [
    | inl e ↦ rw e (checked_current t (is_timer-some r.state.timer t e))
    | inr e ↦ rw e (checked_stale t e)
  ]

  received-Inv : Inv (record r { state = receive r.state })
  unfolding receive Past
  received-Inv = record {
    live = i.live;
    current = i.current;
    apart = i.apart;
    past_old = i.past_old;
    stopped_old = i.stopped_old;
  }

cancel-state :
    (p : PendingReload) → (cancel p).1 ≡ record p { timer = none; set = stop p.timer p.set }
unfolding cancel
cancel-state p = ground arith

beginning-Inv : Inv beginning
unfolding Past
beginning-Inv = record {
  live = λ t e. none_and_some refl e;
  current = λ t e. none_and_some refl e;
  apart = λ t past s. s;
  past_old = λ t past. elim past [ inl a ↦ absurd a | inr b ↦ absurd b ];
  stopped_old = λ t s. absurd s;
}

⟶-Inv : {r s : Trace} → r ⟶ s → Inv r → Inv s
⟶-Inv {r} scheduled i = scheduled-Inv r i
⟶-Inv {r} cancelled i =
    subst (λ p. Inv (record r { state = p; stopped = given_up r.state.timer r.stopped }))
      (sym (cancel-state r.state)) (cancelled-Inv r i)
⟶-Inv {r} (elapsed t h) i = elapsed-Inv r i t
⟶-Inv {r} (checked t h) i = checked-Inv r i t
⟶-Inv {r} (delivered t h) i = delivered-Inv r i t h
⟶-Inv {r} received i = received-Inv r i

reachable-Inv : {r : Trace} → beginning ⟶* r → Inv r
reachable-Inv here = beginning-Inv
reachable-Inv (step run s) = ⟶-Inv s (reachable-Inv run)

-- A timer that a later `Schedule`, or a `Cancel`, gave up never fires, in whatever order the
-- runtime, the lock and the channel let the goroutines run.
pub sent_not_stopped : (r : Trace) → beginning ⟶* r → (t : ℕ) → In t r.stopped → ¬ In t r.sent
unfolding Past
sent_not_stopped r run t s h = (reachable-Inv run).apart t (inr h) s

check-sending : (p : PendingReload) (t : ℕ) → p.timer ≡ some t → In t (check t p).sending
unfolding check
check-sending p t e = rw (is_timer_self p.timer t e) (inl refl)

-- A step of the timer: it elapses, its function checks, or its signal is delivered.
abbrev pub IsOf : {r s : Trace} → ℕ → r ⟶ s → Type 0
IsOf t scheduled = ⊥
IsOf t cancelled = ⊥
IsOf t (elapsed u h) = u ≡ t
IsOf t (checked u h) = u ≡ t
IsOf t (delivered u h) = u ≡ t
IsOf t received = ⊥

-- Steps of the timer, and of nothing else.
abbrev pub AreOf : {r s : Trace} → ℕ → r ⟶* s → Type 0
AreOf t here = Unit
AreOf t (step run s) = AreOf t run × IsOf t s

-- Steps of the timer alone lead to a state in which it has sent, it does not wait to send any more,
-- and the channel has the signal.
abbrev pub LeadsToSend : ℕ → Trace → Type 0
LeadsToSend t r =
    (s : Trace) × ((run : r ⟶* s) × AreOf t run)
    × (s.state.fired ≡ true)
    × In t s.sent
    × (¬ In t s.state.sending)
    × (s.stopped ≡ r.stopped)

-- From where the function of the timer has started: it checks, and sends.
fires_started :
    (r q : Trace) (t : ℕ) (run : r ⟶* q)
    → AreOf t run
    → q.stopped ≡ r.stopped
    → q.state.timer ≡ some t
    → In t q.state.started
    → LeadsToSend t r
unfolding send
fires_started r q t run alone same e h =
    let c : Trace = record q { state = check t q.state } in
    (
      record c { state = send t c.state; sent = t ∷ c.sent },
      (
        step (step run (checked t h)) (delivered t (check-sending q.state t e)),
        ((alone, refl), refl),
      ),
      refl,
      inl refl,
      not_in_remove t c.state.sending,
      same,
    )

-- A pending reload fires where the session does nothing more: from each state that a run reaches,
-- if a timer is current, steps of this timer alone, without `Schedule`, `Cancel`, another timer or a
-- receive, lead to a state in which it has sent, does not wait to send any more, and the channel has
-- the signal, and no timer more is given up.
pub reload_fires : (r : Trace) (t : ℕ) → beginning ⟶* r → r.state.timer ≡ some t → LeadsToSend t r
unfolding start
reload_fires r t run e = elim ((reachable-Inv run).live t e) [
  | inl h ↦
      fires_started r (record r { state = start t r.state }) t (step here (elapsed t h)) (tt, refl)
        refl e (inl refl)
  | inr h ↦ fires_started r r t here tt refl e h
]
