-- ===== src/Daemon/Sessions/Farewells.antt =====
-- Whom `Farewell` finds.
use routercli.Base.{
  true, false, not, Option, none, some, List, [], ◌∷◌, ◌≡◌, ◌≢◌, inl, inr, refl, ap, ◌∙◌, arith,
  Bool-cases, if◌then◌else◌, Text, text_eq, text_eq_iff,
}
use routercli.Daemon.Sessions.{
  TrackedSession, Sessions, SessionDirectory, Answer, answer, failure, store_closed,
  no_matching_session, find_session, put_session, run_open, with_sessions, push_farewell,
  candidates, choose, farewell,
}
use routercli.Daemon.Sessions.Registry.{IsRegistry, find_session-IsRegistry}

run_open-false :
    {A : Type 0} (d : SessionDirectory) (run : Sessions → Answer A)
    → d.closed ≡ false
    → run_open d run ≡ run d.sessions
run_open-false d run e = ap (λ b. if b then failure store_closed d else run d.sessions) e

-- The session of the ID, where it belongs to the user.
abbrev pub belonging : Text → Text → Option TrackedSession → List (Text × TrackedSession)
belonging id username none = []
belonging id username (some s) = if text_eq s.info.username username then (id, s) ∷ [] else []

candidates-missing :
    (l : Sessions) (username id : Text)
    → IsRegistry l
    → text_eq id [] ≡ false
    → find_session l id ≡ none
    → candidates l username id ≡ []
unfolding candidates find_session
candidates-missing [] username id h e f = refl
candidates-missing ((k, s) ∷ l) username id h e f =
    ground
      (arith, text_eq_iff k id, text_eq_iff s.info.id id, candidates-missing l username id h.2 e)

candidates-belonging :
    (l : Sessions) (username id : Text)
    → IsRegistry l
    → text_eq id [] ≡ false
    → candidates l username id ≡ belonging id username (find_session l id)
unfolding candidates find_session
candidates-belonging [] username id h e = refl
candidates-belonging ((k, s) ∷ l) username id h e = ground (
  arith,
  text_eq_iff k id,
  text_eq_iff s.info.id id,
  candidates-missing l username id h.2 e,
  candidates-belonging l username id h.2 e,
)

-- What `Farewell` with a session ID promises.
abbrev pub farewell_to : SessionDirectory → Text → Text → Text → Option TrackedSession → Answer Text
farewell_to d username id text none = failure no_matching_session d
farewell_to d username id text (some s) =
    if text_eq s.info.username username
    then answer id (with_sessions d (put_session d.sessions id (push_farewell s text)))
    else failure no_matching_session d

choose-belonging :
    (d : SessionDirectory) (username id text : Text) (o : Option TrackedSession)
    → ((s : TrackedSession) → o ≡ some s → s.info.id ≡ id)
    → choose d true (belonging id username o) text ≡ farewell_to d username id text o
unfolding choose
choose-belonging d username id text none h = refl
choose-belonging d username id text (some s) h =
    elim (Bool-cases (text_eq s.info.username username)) [
      | inl mine ↦
          rw (mine, choose, farewell_to)
            (ap (λ i. answer i (with_sessions d (put_session d.sessions id (push_farewell s text))))
              (h s refl))
      | inr other ↦ rw (other, choose, farewell_to) refl
    ]

-- `Farewell` with a session ID, on an open directory, says farewell to the session of this ID where
-- it belongs to the user, and to no other; where there is none, or it is another user's, it reports
-- that no session matches and changes nothing. It never reports that the ID is ambiguous.
pub farewell-farewell_to :
    (d : SessionDirectory) (username id text : Text)
    → IsRegistry d.sessions
    → d.closed ≡ false
    → id ≢ []
    → farewell d username id text ≡ farewell_to d username id text (find_session d.sessions id)
unfolding farewell
farewell-farewell_to d username id text h opened given = elim (Bool-cases (text_eq id [])) [
  | inl e ↦ absurd (given ((text_eq_iff id []).0 e))
  | inr e ↦
      run_open-false d
        (λ sessions. choose d (not (text_eq id [])) (candidates sessions username id) text) opened
      ∙ ap (λ b. choose d (not b) (candidates d.sessions username id) text) e
      ∙ ap (λ l. choose d true l text) (candidates-belonging d.sessions username id h e)
      ∙ choose-belonging d username id text (find_session d.sessions id)
          (λ s found. find_session-IsRegistry d.sessions id s h found)
]
