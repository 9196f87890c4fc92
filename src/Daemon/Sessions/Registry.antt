-- ===== src/Daemon/Sessions/Registry.antt =====
-- Every operation keeps the registry well formed: a session has one entry, under its own ID.
use routercli.Base.{
  ℕ, Bool, true, false, not, Option, none, some, List, [], ◌∷◌, ◌≡◌, inl, inr, refl, sym, subst,
  arith, Bool-cases, Option-cases, some-injective, none-some, ◌∙◌, All, if◌then◌else◌, Text,
  text_eq, text_eq_iff,
}
use routercli.Daemon.Sessions.{
  TrackedSession, Sessions, SessionDirectory, Answer, answer, failure, new_session_directory,
  new_session, find_session, put_session, delete_session, store_closed, run_open, touch_in,
  unregister_in, with_sessions, register, touch, unregister, push_farewell, candidates, choose,
  farewell, push_all, broadcast_farewell, close,
}

abbrev pub IsRegistry : Sessions → Type 0
IsRegistry [] = Unit
IsRegistry ((key, s) ∷ rest) = (s.info.id ≡ key) × (find_session rest key ≡ none) × IsRegistry rest

pub find_session-put_session :
    (l : Sessions) (id other : Text) (s : TrackedSession)
    → find_session (put_session l id s) other
      ≡ (if text_eq id other then some s else find_session l other)
unfolding find_session put_session
find_session-put_session [] id other s = refl
find_session-put_session ((k, t) ∷ l) id other s = ground (
  arith,
  text_eq_iff k id,
  text_eq_iff k other,
  text_eq_iff id other,
  find_session-put_session l id other s,
)

put_session-IsRegistry :
    (l : Sessions) (id : Text) (s : TrackedSession)
    → s.info.id ≡ id
    → IsRegistry l
    → IsRegistry (put_session l id s)
unfolding find_session put_session
put_session-IsRegistry [] id s e h = (e, refl, tt)
put_session-IsRegistry ((k, t) ∷ l) id s e h = ground (
  arith,
  text_eq_iff k id,
  text_eq_iff id k,
  find_session-put_session l id k s,
  put_session-IsRegistry l id s e h.2,
)

delete_session-none :
    (l : Sessions) (id other : Text)
    → find_session l other ≡ none
    → find_session (delete_session l id) other ≡ none
unfolding find_session delete_session
delete_session-none [] id other h = refl
delete_session-none ((k, t) ∷ l) id other h =
    ground (arith, text_eq_iff k id, text_eq_iff k other, delete_session-none l id other)

delete_session-IsRegistry :
    (l : Sessions) (id : Text) → IsRegistry l → IsRegistry (delete_session l id)
unfolding delete_session
delete_session-IsRegistry [] id h = tt
delete_session-IsRegistry ((k, t) ∷ l) id h =
    ground (arith, delete_session-none l id k h.1, delete_session-IsRegistry l id h.2)

push_all-none :
    (l : Sessions) (text : Text) (key : Text)
    → find_session l key ≡ none
    → find_session (push_all l text) key ≡ none
unfolding find_session push_all
push_all-none [] text key h = refl
push_all-none ((k, t) ∷ l) text key h = ground (arith, push_all-none l text key)

push_all-IsRegistry : (l : Sessions) (text : Text) → IsRegistry l → IsRegistry (push_all l text)
unfolding push_all
push_all-IsRegistry [] text h = tt
push_all-IsRegistry ((k, t) ∷ l) text h =
    (h.0, push_all-none l text k h.1, push_all-IsRegistry l text h.2)

-- The operations, with what the environment gives them.
pub data Op : Type 0 where
  registers : Text → Text → Option Text → ℕ → Op
  touches : Text → Text → ℕ → Op
  unregisters : Text → Op
  says_farewell : Text → Text → Text → Op
  broadcasts : Text → Op
  closes : Op

abbrev pub left {ℓ} : {A : Type ℓ} → Answer A → SessionDirectory
left (answer a d) = d
left (failure e d) = d

abbrev pub perform : SessionDirectory → Op → SessionDirectory
perform d (registers username level id now) = left (register d username level id now)
perform d (touches id level now) = left (touch d id level now)
perform d (unregisters id) = left (unregister d id)
perform d (says_farewell username id text) = left (farewell d username id text)
perform d (broadcasts text) = left (broadcast_farewell d text)
perform d closes = close d

abbrev pub run : SessionDirectory → List Op → SessionDirectory
run d [] = d
run d (op ∷ ops) = run (perform d op) ops

pub find_session-IsRegistry :
    (l : Sessions) (id : Text) (s : TrackedSession)
    → IsRegistry l
    → find_session l id ≡ some s
    → s.info.id ≡ id
unfolding find_session
find_session-IsRegistry [] id s h e = absurd (none-some e)
find_session-IsRegistry ((k, t) ∷ l) id s h e = elim (Bool-cases (text_eq k id)) [
  | inl same ↦
      let found = some-injective (rw (same, find_session) at e) in
      rw (← found) (h.0 ∙ (text_eq_iff k id).0 same)
  | inr other ↦ find_session-IsRegistry l id s h.2 (rw (other, find_session) at e)
]

candidates-All :
    (l : Sessions) (username id : Text)
    → IsRegistry l
    → All (λ c. c.1.info.id ≡ c.0) (candidates l username id)
unfolding candidates
candidates-All [] username id h = tt
candidates-All ((k, s) ∷ l) username id h = ground (arith, candidates-All l username id h.2)

choose-IsRegistry :
    (d : SessionDirectory) (named : Bool) (l : Sessions) (text : Text)
    → All (λ c. c.1.info.id ≡ c.0) l
    → IsRegistry d.sessions
    → IsRegistry (left (choose d named l text)).sessions
unfolding choose
choose-IsRegistry d named [] text a h = h
choose-IsRegistry d named ((k, s) ∷ []) text a h =
    put_session-IsRegistry d.sessions k (push_farewell s text) a.0 h
choose-IsRegistry d true ((k, s) ∷ c ∷ l) text a h =
    put_session-IsRegistry d.sessions k (push_farewell s text) a.0 h
choose-IsRegistry d false (c ∷ b ∷ l) text a h = h

run_open-IsRegistry :
    {A : Type 0} (d : SessionDirectory) (run : Sessions → Answer A)
    → IsRegistry d.sessions
    → IsRegistry (left (run d.sessions)).sessions
    → IsRegistry (left (run_open d run)).sessions
run_open-IsRegistry d run h r =
    let Kept = λ (b : Bool).
      IsRegistry (left (if b then failure store_closed d else run d.sessions)).sessions in
    elim (Bool-cases (d.closed)) [ inl e ↦ subst Kept (sym e) h | inr e ↦ subst Kept (sym e) r ]

touch_found :
    (d : SessionDirectory) (id level : Text) (now : ℕ)
    → IsRegistry d.sessions
    → IsRegistry (left (touch_in d id level now d.sessions)).sessions
unfolding touch_in
touch_found d id level now h = elim (Option-cases (find_session d.sessions id)) [
  | inl e ↦ rw (e, touch_in) h
  | inr (s, e) ↦
      rw (e, touch_in)
        (put_session-IsRegistry d.sessions id _ (find_session-IsRegistry d.sessions id s h e) h)
]

unregister_found :
    (d : SessionDirectory) (id : Text)
    → IsRegistry d.sessions
    → IsRegistry (left (unregister_in d id d.sessions)).sessions
unfolding unregister_in
unregister_found d id h = elim (Option-cases (find_session d.sessions id)) [
  | inl e ↦ rw (e, unregister_in) h
  | inr (s, e) ↦ rw (e, unregister_in) (delete_session-IsRegistry d.sessions id h)
]

perform-IsRegistry :
    (d : SessionDirectory) (op : Op) → IsRegistry d.sessions → IsRegistry (perform d op).sessions
unfolding register touch unregister farewell broadcast_farewell
perform-IsRegistry d (registers username level none now) h = h
perform-IsRegistry d (registers username level (some id) now) h =
    let s = new_session id username level now in
    run_open-IsRegistry d (λ sessions. answer id (with_sessions d (put_session sessions id s))) h
      (put_session-IsRegistry d.sessions id s refl h)
perform-IsRegistry d (touches id level now) h =
    run_open-IsRegistry d (touch_in d id level now) h (touch_found d id level now h)
perform-IsRegistry d (unregisters id) h =
    run_open-IsRegistry d (unregister_in d id) h (unregister_found d id h)
perform-IsRegistry d (says_farewell username id text) h =
    let named = not (text_eq id []) in
    run_open-IsRegistry d (λ sessions. choose d named (candidates sessions username id) text) h
      (choose-IsRegistry d named (candidates d.sessions username id) text
        (candidates-All d.sessions username id h) h)
perform-IsRegistry d (broadcasts text) h =
    run_open-IsRegistry d (λ sessions. answer tt (with_sessions d (push_all sessions text))) h
      (push_all-IsRegistry d.sessions text h)
perform-IsRegistry d closes h = h

run_from :
    (d : SessionDirectory) (ops : List Op) → IsRegistry d.sessions → IsRegistry (run d ops).sessions
run_from d [] h = h
run_from d (op ∷ ops) h = run_from (perform d op) ops (perform-IsRegistry d op h)

-- Whatever operations run on a new directory, whatever IDs the generator gives and whenever it is
-- closed, the registry has at most one entry for a session ID, which holds the session of this ID.
pub run-IsRegistry : (ops : List Op) → IsRegistry (run new_session_directory ops).sessions
run-IsRegistry ops = run_from new_session_directory ops tt
