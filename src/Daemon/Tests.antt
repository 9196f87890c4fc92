-- ===== src/Daemon/Tests.antt =====
-- Runs of the session directory, and the theorems at inputs that meet their hypotheses.
use routercli.Base.{false, some, List, [], ◌∷◌, ◌≡◌, refl, arith, codes}
use routercli.Daemon.Sessions.{
  SessionDirectory, failure, ambiguous_session, new_session_directory, new_session, find_session,
  farewell, candidates, choose,
}
use routercli.Daemon.Sessions.Registry.{
  IsRegistry, Op, registers, touches, unregisters, says_farewell, closes, run, run-IsRegistry,
}
use routercli.Daemon.Sessions.Farewells.{farewell_to, farewell-farewell_to}

abbrev ops : List Op
ops =
    registers (codes "bob") (codes "base") (some (codes "a1")) 1
    ∷ registers (codes "bob") (codes "base") (some (codes "b2")) 2
    ∷ touches (codes "a1") (codes "admin") 3
    ∷ says_farewell (codes "bob") (codes "b2") (codes "bye")
    ∷ unregisters (codes "b2")
    ∷ closes
    ∷ []

run-IsRegistry_example : IsRegistry (run new_session_directory ops).sessions
run-IsRegistry_example = run-IsRegistry ops

abbrev two : SessionDirectory
two = record {
  sessions =
      (codes "a1", new_session (codes "a1") (codes "bob") (codes "base") 1)
      ∷ (codes "b2", new_session (codes "b2") (codes "bob") (codes "base") 2)
      ∷ [];
  closed = false;
}

two_sessions : farewell two (codes "bob") [] (codes "bye") ≡ failure ambiguous_session two
unfolding farewell candidates choose
two_sessions = refl

two-IsRegistry : IsRegistry two.sessions
unfolding find_session
two-IsRegistry = (refl, refl, (refl, refl, tt))

farewell-farewell_to_example :
    farewell two (codes "bob") (codes "b2") (codes "bye")
    ≡ farewell_to two
        (codes "bob")
        (codes "b2")
        (codes "bye")
        (find_session two.sessions (codes "b2"))
farewell-farewell_to_example =
    farewell-farewell_to two (codes "bob") (codes "b2") (codes "bye") two-IsRegistry refl
      (ground arith)
