-- ===== src/Auth/Login.antt =====
-- auth/login.go and auth/provider.go: the login prompt. What the user types, and when, is a list of
-- turns; the end of the list is the end of the input. The texts of the prompts are left out. A
-- provider is an argument, and `local_authenticate` is the one that the package has. `new_session` is
-- the rest of a session.
pub mod Granted
use routercli.Base.{
  ℕ, zero, suc, Bool, true, false, not, ◌||◌, Option, none, some, List, [], ◌∷◌, ◌++◌,
  if◌then◌else◌, Text, codes, text_eq, trim_space,
}
use routercli.Auth.Model.{Session, User, Users, find_user}
use routercli.Auth.Keyed.{KeyedRateLimiter, keyed_allow, keyed_record_failure, keyed_record_success}
use routercli.Auth.Password.{Hashers, verify_password}
use routercli.Auth.Totp.{Primitives, verify_and_consume_totp}

-- `LocalProvider.Authenticate`; the check of a dummy hash for an unknown name is left out, which only
-- takes time.
unfoldable pub local_authenticate : Hashers → Users → Text → Text → Option Bool
local_authenticate hashers users username password = elim (find_user users username) [
  | none ↦ some false
  | some u ↦ some (verify_password hashers u.password_hash password)
]

abbrev pub Provider : Type 0
Provider = Text → Text → Option Bool

-- `NewProvider`: `none` is the error on an unknown type.
unfoldable pub new_provider : Hashers → Text → Users → Option Provider
unfolding local_authenticate
new_provider hashers provider_type users =
    if text_eq provider_type (codes "local") then some (local_authenticate hashers users) else none

-- `&Session{Username: username, Authenticated: true}`.
abbrev pub session_of : Text → Session
session_of username = record {
  username = username;
  authenticated = true;
  command_level = [];
  command_level_entered_at = 0;
}

-- `VerifyLogin`.
unfoldable pub verify_login : Provider → Text → Text → Option Session
verify_login provider username password = elim (provider username password) [
  | none ↦ none
  | some false ↦ none
  | some true ↦ some (session_of username)
]

-- One pass of the loop: the line with the name, the password, the code of the second factor, with
-- `none` where reading fails, and the times at which the clock is read.
pub record Turn : Type 0 where
  pub username_line : Option Text
  pub password : Option Text
  pub code : Text
  pub asked_at : ℕ
  pub code_at : ℕ
  pub failed_at : ℕ

pub record Env : Type 0 where
  pub provider : Provider
  pub primitives : Primitives
  pub totp_enabled : Bool

-- What the loop changes. `audited` are the names that `auditFail` was called with, the last first.
pub record LoginState : Type 0 where
  pub users : Users
  pub rate_limiter : Option KeyedRateLimiter
  pub audited : List Text

pub data LoginResult : Type 0 where
  logged_in : Session → LoginResult
  login_failed username_error password_error : LoginResult

pub record LoginEnd : Type 0 where
  pub result : LoginResult
  pub state : LoginState

abbrev pub ends : LoginResult → LoginState → LoginEnd
ends r st = record { result = r; state = st }

-- `users[username]`, or a user without a second factor.
abbrev pub user_of : Users → Text → User
user_of users username = elim (find_user users username) [
  | some u ↦ u
  | none ↦ record {
    username = username;
    password_hash = [];
    totp_secret = [];
    totp_last_counter = 0;
    roles = [];
    must_change_password = false;
  }
]

-- A write through the pointer to a user.
unfoldable pub write_user : Users → Text → User → Users
write_user [] name u = []
write_user ((key, v) ∷ users) name u =
    if text_eq key name then (key, u) ∷ users else (key, v) ∷ write_user users name u

-- `SecondFactorRequired`.
abbrev pub second_factor_required : User → Bool
second_factor_required u = not (text_eq u.totp_secret [])

-- `VerifySecondFactor`, on the code that was typed.
unfoldable pub verify_second_factor : Primitives → User → Text → ℕ → Bool × User
verify_second_factor p u code now =
    if text_eq u.totp_secret [] then (false, u) else verify_and_consume_totp p u code now

-- A failure is recorded and audited.
abbrev pub failed_state : LoginState → Text → ℕ → LoginState
failed_state st username now = record st {
  rate_limiter = keyed_record_failure st.rate_limiter username now;
  audited = username ∷ st.audited;
}

abbrev pub passed_state : LoginState → Text → LoginState
passed_state st username = record st {
  rate_limiter = keyed_record_success st.rate_limiter username;
}

abbrev pub refused_state : LoginState → Text → LoginState
refused_state st username = record st { audited = username ∷ st.audited }

-- What a pass comes to: the end, or another pass.
pub data Pass : Type 0 where
  over : LoginEnd → Pass
  again : LoginState → Pass

-- What was read, or the end on an error.
abbrev pub or_over : Option Text → LoginEnd → (Text → Pass) → Pass
or_over none e run = over e
or_over (some s) e run = run s

-- The second factor, where the password was right.
unfoldable pub second_factor : Env → Turn → LoginState → Text → Session → Pass
unfolding verify_second_factor write_user
second_factor env t st username session =
    let u = user_of st.users username in
    if not env.totp_enabled || not (second_factor_required u)
    then over (ends (logged_in session) (passed_state st username))
    else (let (ok, u') = verify_second_factor env.primitives u t.code t.code_at in
        let st' = record st { users = write_user st.users username u' } in
        if ok
        then over (ends (logged_in session) (passed_state st' username))
        else again (failed_state st' username t.failed_at))

-- The password, once it is read.
unfoldable pub check_password : Env → Turn → LoginState → Text → Text → Pass
unfolding verify_login second_factor
check_password env t st username password = elim (verify_login env.provider username password) [
  | none ↦ again (failed_state st username t.failed_at)
  | some session ↦ second_factor env t st username session
]

-- The rate limit, and then the password.
unfoldable pub pass_for : Env → Turn → LoginState → Text → Pass
unfolding check_password
pass_for env t st username =
    let asked = keyed_allow st.rate_limiter username t.asked_at in
    let st' = record st { rate_limiter = asked.1 } in
    if not asked.0.0
    then over (ends login_failed (refused_state st' username))
    else or_over t.password (ends password_error st') (check_password env t st' username)

-- The body of the loop.
unfoldable pub pass : Env → Turn → LoginState → Pass
unfolding pass_for
pass env t st =
    or_over t.username_line (ends username_error st) (λ line. pass_for env t st (trim_space line))

-- The loop, by the attempts that are left.
unfoldable pub login_loop : ℕ → Env → List Turn → LoginState → LoginEnd
unfolding pass
login_loop zero env turns st = ends login_failed st
login_loop (suc attempts) env [] st = ends username_error st
login_loop (suc attempts) env (t ∷ turns) st = elim (pass env t st) [
  | over e ↦ e
  | again st' ↦ login_loop attempts env turns st'
]

-- `loopBound`.
abbrev pub loop_bound : ℕ → Option KeyedRateLimiter → ℕ
loop_bound max_attempts none = max_attempts
loop_bound max_attempts (some k) = 1000

-- `PromptLogin`.
unfoldable pub prompt_login : Env → ℕ → List Turn → LoginState → LoginEnd
unfolding login_loop
prompt_login env max_attempts turns st =
    login_loop (loop_bound max_attempts st.rate_limiter) env turns st
