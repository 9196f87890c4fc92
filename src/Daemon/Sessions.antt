-- ===== src/Daemon/Sessions.antt =====
-- daemon/sessions.go, and the promise of daemon/store.go that functions on its state run one at a
-- time: each operation of the directory is one step. The registry is a list of the entries of its
-- map; a store that was closed runs nothing. The random session ID is an argument, `none` being the
-- generator's error, and so is the time.
pub mod Registry
pub mod Farewells
use routercli.Base.{
  ℕ, Bool, true, false, not, ◌&&◌, Option, none, some, List, [], ◌∷◌, leb, if◌then◌else◌, Text,
  text_eq,
}

pub record SessionInfo : Type 0 where
  pub id : Text
  pub username : Text
  pub command_level : Text
  pub connected_at : ℕ
  pub last_activity : ℕ

-- `trackedSession`. The channel is buffered by one: it is empty, or it holds one text.
pub record TrackedSession : Type 0 where
  pub info : SessionInfo
  pub farewell : Option Text

abbrev pub Sessions : Type 0
Sessions = List (Text × TrackedSession)

pub record SessionDirectory : Type 0 where
  pub sessions : Sessions
  pub closed : Bool

pub data SessionError : Type 0 where
  id_error store_closed session_not_found no_matching_session ambiguous_session : SessionError

-- A value or an error, with the directory that is left.
pub data Answer {ℓ} (A : Type ℓ) : Type ℓ where
  answer : A → SessionDirectory → Answer A
  failure : SessionError → SessionDirectory → Answer A

-- `NewSessionDirectory`.
abbrev pub new_session_directory : SessionDirectory
new_session_directory = record { sessions = []; closed = false }

-- `r.sessions[id]`, a write to it, and `delete`.
unfoldable pub find_session : Sessions → Text → Option TrackedSession
find_session [] id = none
find_session ((key, s) ∷ rest) id = if text_eq key id then some s else find_session rest id

unfoldable pub put_session : Sessions → Text → TrackedSession → Sessions
put_session [] id s = (id, s) ∷ []
put_session ((key, t) ∷ rest) id s =
    if text_eq key id then (key, s) ∷ rest else (key, t) ∷ put_session rest id s

unfoldable pub delete_session : Sessions → Text → Sessions
delete_session [] id = []
delete_session ((key, s) ∷ rest) id =
    if text_eq key id then rest else (key, s) ∷ delete_session rest id

-- `Do` of a function that gives the new sessions, or an error and changes nothing.
abbrev pub run_open {ℓ} : {A : Type ℓ} → SessionDirectory → (Sessions → Answer A) → Answer A
run_open d run = if d.closed then failure store_closed d else run d.sessions

abbrev pub with_sessions : SessionDirectory → Sessions → SessionDirectory
with_sessions d sessions = record d { sessions = sessions }

abbrev pub new_session : Text → Text → Text → ℕ → TrackedSession
new_session id username command_level now = record {
  info = record {
    id = id;
    username = username;
    command_level = command_level;
    connected_at = now;
    last_activity = now;
  };
  farewell = none;
}

-- `Register`.
unfoldable pub register : SessionDirectory → Text → Text → Option Text → ℕ → Answer Text
unfolding put_session
register d username command_level none now = failure id_error d
register d username command_level (some id) now = run_open d (λ sessions.
    answer id
      (with_sessions d (put_session sessions id (new_session id username command_level now))))

-- The function that `Touch` runs.
unfoldable pub touch_in : SessionDirectory → Text → Text → ℕ → Sessions → Answer (Unit {0})
unfolding find_session put_session
touch_in d id command_level now sessions = elim (find_session sessions id) [
  | none ↦ failure session_not_found d
  | some s ↦ answer tt (
      with_sessions d (
        put_session sessions id (record s {
          info = record (s.info) { command_level = command_level; last_activity = now };
        })))
]

-- `Touch`.
unfoldable pub touch : SessionDirectory → Text → Text → ℕ → Answer (Unit {0})
unfolding touch_in
touch d id command_level now = run_open d (touch_in d id command_level now)

-- The function that `Unregister` runs.
unfoldable pub unregister_in : SessionDirectory → Text → Sessions → Answer (Unit {0})
unfolding find_session delete_session
unregister_in d id sessions = elim (find_session sessions id) [
  | none ↦ failure session_not_found d
  | some s ↦ answer tt (with_sessions d (delete_session sessions id))
]

-- `Unregister`.
unfoldable pub unregister : SessionDirectory → Text → Answer (Unit {0})
unfolding unregister_in
unregister d id = run_open d (unregister_in d id)

-- `sort.Slice` by `ConnectedAt`, which may order equal times as it likes.
unfoldable pub insert_info : SessionInfo → List SessionInfo → List SessionInfo
insert_info i [] = i ∷ []
insert_info i (j ∷ infos) =
    if leb i.connected_at j.connected_at then i ∷ j ∷ infos else j ∷ insert_info i infos

unfoldable pub sorted_infos : Sessions → List SessionInfo
unfolding insert_info
sorted_infos [] = []
sorted_infos ((key, s) ∷ rest) = insert_info s.info (sorted_infos rest)

-- `List`.
unfoldable pub list : SessionDirectory → Answer (List SessionInfo)
unfolding sorted_infos
list d = run_open d (λ sessions. answer (sorted_infos sessions) d)

-- `pushFarewell`: a full channel keeps what it holds.
abbrev pub push_farewell : TrackedSession → Text → TrackedSession
push_farewell s text = record s {
  farewell = elim (s.farewell) [ none ↦ some text | some t ↦ some t ];
}

-- The loop of `Farewell` that collects the candidates.
unfoldable pub candidates : Sessions → Text → Text → List (Text × TrackedSession)
candidates [] username session_id = []
candidates ((key, s) ∷ rest) username session_id =
    if not (text_eq s.info.username username)
    then candidates rest username session_id
    else if not (text_eq session_id []) && not (text_eq s.info.id session_id)
    then candidates rest username session_id
    else (key, s) ∷ candidates rest username session_id

-- The push to a candidate, which the map holds under its key.
abbrev pub say_farewell : SessionDirectory → Text × TrackedSession → Text → Answer Text
say_farewell d (key, s) text =
    answer s.info.id (with_sessions d (put_session d.sessions key (push_farewell s text)))

-- The choice among the candidates: `named` says that a session ID was given.
unfoldable pub choose : SessionDirectory → Bool → List (Text × TrackedSession) → Text → Answer Text
choose d named [] text = failure no_matching_session d
choose d named (c ∷ []) text = say_farewell d c text
choose d named (c ∷ b ∷ more) text =
    if named then say_farewell d c text else failure ambiguous_session d

-- `Farewell`.
unfoldable pub farewell : SessionDirectory → Text → Text → Text → Answer Text
unfolding candidates choose
farewell d username session_id text = run_open d (λ sessions.
    choose d (not (text_eq session_id [])) (candidates sessions username session_id) text)

unfoldable pub push_all : Sessions → Text → Sessions
push_all [] text = []
push_all ((key, s) ∷ rest) text = (key, push_farewell s text) ∷ push_all rest text

-- `BroadcastFarewell`.
unfoldable pub broadcast_farewell : SessionDirectory → Text → Answer (Unit {0})
unfolding push_all
broadcast_farewell d text =
    run_open d (λ sessions. answer tt (with_sessions d (push_all sessions text)))

-- `Close`.
abbrev pub close : SessionDirectory → SessionDirectory
close d = record d { closed = true }
