-- ===== src/Auth/Login/Granted.antt =====
-- Who is logged in, and how often a login may be tried.
use routercli.Base.{
  ℕ, zero, suc, ◌+◌, ◌≤◌, Bool, true, false, not, ◌||◌, Option, none, some, List, [], ◌∷◌, ◌≡◌, ◌⊎◌,
  inl, inr, refl, sym, ◌∙◌, arith, length, Text, trim_space, Bool-cases, Option-cases,
}
use routercli.Auth.Model.{Session, Users}
use routercli.Auth.Keyed.{keyed_allow, keyed_record_failure}
use routercli.Auth.Login.{
  Provider, session_of, verify_login, write_user, Turn, Env, LoginState, logged_in, username_error,
  password_error, LoginEnd, ends, user_of, second_factor_required, verify_second_factor, Pass, over,
  again, or_over, second_factor, check_password, pass_for, pass, login_loop, loop_bound,
  prompt_login,
}

-- A turn that lets the session in, from the state that it starts in: the limiter of the prompt
-- allowed the name, the provider accepted the name and the password, and the second factor of the
-- user was right where the user has one and it is enabled.
pub record Grants (env : Env) (t : Turn) (st : LoginState) (s : Session) : Type 0 where
  pub line : Text
  pub password : Text
  pub named : t.username_line ≡ some line
  pub typed : t.password ≡ some password
  pub allowed : (keyed_allow st.rate_limiter (trim_space line) t.asked_at).0.0 ≡ true
  pub accepted : env.provider (trim_space line) password ≡ some true
  pub session : s ≡ session_of (trim_space line)
  pub second :
      (env.totp_enabled ≡ false)
      ⊎ ((second_factor_required (user_of st.users (trim_space line)) ≡ false)
          ⊎ ((verify_second_factor env.primitives
                (user_of st.users (trim_space line))
                t.code
                t.code_at).0
              ≡ true))

-- A turn that fails, and the state that it leaves: the failure is recorded and audited under the
-- name, and a user is written only with what the check of the second factor makes of it.
pub record Fails (env : Env) (t : Turn) (st : LoginState) (st' : LoginState) : Type 0 where
  pub line : Text
  pub named : t.username_line ≡ some line
  pub recorded :
      st'.rate_limiter
      ≡ keyed_record_failure
          (keyed_allow st.rate_limiter (trim_space line) t.asked_at).1
          (trim_space line)
          t.failed_at
  pub audit : st'.audited ≡ trim_space line ∷ st.audited
  pub users :
      (st'.users ≡ st.users)
      ⊎ (st'.users
          ≡ write_user st.users
              (trim_space line)
              (verify_second_factor env.primitives
                (user_of st.users (trim_space line))
                t.code
                t.code_at).1)

-- Some turn lets the session in, and each turn before it fails.
abbrev pub AnyGrants : Env → LoginState → List Turn → Session → Type 0
AnyGrants env st [] s = ⊥
AnyGrants env st (t ∷ turns) s =
    Grants env t st s ⊎ ((st' : LoginState) × Fails env t st st' × AnyGrants env st' turns s)

-- What holds of a pass: of the session where it logs one in, of the state that it goes on with, and
-- of the names that it audits.
abbrev Post : (Session → Type 0) → (LoginState → Type 0) → ℕ → Pass → Type 0
Post P Q n (over e) =
    ((s : Session) → e.result ≡ logged_in s → P s) × (length e.state.audited ≤ suc n)
Post P Q n (again st) = Q st × (length st.audited ≤ suc n)

Post-weaken :
    (P P' : Session → Type 0) (Q Q' : LoginState → Type 0) (n : ℕ) (p : Pass)
    → ((s : Session) → P s → P' s)
    → ((st : LoginState) → Q st → Q' st)
    → Post P Q n p
    → Post P' Q' n p
Post-weaken P P' Q Q' n (over e) f g h = (λ s k. f s (h.0 s k), h.1)
Post-weaken P P' Q Q' n (again st) f g h = (g st h.0, h.1)

logged_in-injective : {a b : Session} → logged_in a ≡ logged_in b → a ≡ b
logged_in-injective h = cc

verify_login-some :
    (provider : Provider) (username password : Text) (s : Session)
    → verify_login provider username password ≡ some s
    → (provider username password ≡ some true) × (s ≡ session_of username)
unfolding verify_login
verify_login-some provider username password s h = ground arith

-- The second factor that a session needs.
abbrev Second : Env → Turn → Users → Text → Type 0
Second env t users username =
    (env.totp_enabled ≡ false)
    ⊎ ((second_factor_required (user_of users username) ≡ false)
        ⊎ ((verify_second_factor env.primitives (user_of users username) t.code t.code_at).0
            ≡ true))

exempt {ℓ} : {P : Type ℓ} (a b : Bool) → (not a || not b) ≡ true → (a ≡ false) ⊎ ((b ≡ false) ⊎ P)
exempt true true e = cc
exempt true false e = inr (inl refl)
exempt false b e = inl refl

module _ (env : Env) (t : Turn) (st : LoginState) (username : Text) where
  -- What a failure of this name leaves.
  abbrev Failed : LoginState → Type 0
  Failed st' =
      (st'.rate_limiter ≡ keyed_record_failure st.rate_limiter username t.failed_at)
      × (st'.audited ≡ username ∷ st.audited)
      × ((st'.users ≡ st.users)
          ⊎ (st'.users
              ≡ write_user st.users username
                  (verify_second_factor env.primitives (user_of st.users username) t.code
                    t.code_at).1))

  second_factor-Post :
      (session : Session)
      → Post
          (λ s. (s ≡ session) × Second env t st.users username)
          Failed
          (length st.audited)
          (second_factor env t st username session)
  unfolding second_factor
  second_factor-Post session =
      elim (Bool-cases
        (not env.totp_enabled || not (second_factor_required (user_of st.users username)))) [
          | inl e ↦ rw e (
            λ s h. (
              sym (logged_in-injective h),
              exempt env.totp_enabled (second_factor_required (user_of st.users username)) e,
            ),
            omega arith,
          )
          | inr e ↦
              elim (Bool-cases
                (verify_second_factor env.primitives (user_of st.users username) t.code
                  t.code_at).0) [
                    | inl g ↦
                        rw (second_factor, e, g)
                          (λ s h. (sym (logged_in-injective h), inr (inr refl)), omega arith)
                    | inr g ↦ rw (second_factor, e, g) ((refl, refl, inr refl), omega arith)
                  ]
        ]

  -- What a pass that reads this name and this password promises of a session.
  Accepted : Text → Session → Type 0
  Accepted password s =
      (env.provider username password ≡ some true)
      × (s ≡ session_of username)
      × Second env t st.users username

  check_password-Post :
      (password : Text)
      → Post
          (Accepted password)
          Failed
          (length st.audited)
          (check_password env t st username password)
  unfolding check_password Accepted
  check_password-Post password = elim (Option-cases (verify_login env.provider username password)) [
    | inl e ↦ rw (check_password, e) ((refl, refl, inl refl), omega arith)
    | inr (session, e) ↦
        let (ok, same) = verify_login-some env.provider username password session e in
        rw (check_password, e)
          (Post-weaken _ (Accepted password) Failed Failed (length st.audited)
            (second_factor env t st username session) (λ s (h, k). (ok, h ∙ same, k)) (λ st' h. h)
            (second_factor-Post session))
  ]

or_over-Post :
    (P : Session → Type 0) (Q : LoginState → Type 0) (n : ℕ) (o : Option Text) (e : LoginEnd)
    (run : Text → Pass)
    → Post P Q n (over e)
    → ((s : Text) → o ≡ some s → Post P Q n (run s))
    → Post P Q n (or_over o e run)
or_over-Post P Q n none e run h k = h
or_over-Post P Q n (some s) e run h k = k s refl

module _ (env : Env) (t : Turn) (st : LoginState) where
  abbrev asked : Text → LoginState
  asked name = record st { rate_limiter = (keyed_allow st.rate_limiter name t.asked_at).1 }

  pass_for-Post :
      (line : Text)
      → t.username_line ≡ some line
      → Post
          (Grants env t st)
          (Fails env t st)
          (length st.audited)
          (pass_for env t st (trim_space line))
  unfolding pass_for Accepted
  pass_for-Post line named =
      let name = trim_space line in
      elim (Bool-cases (keyed_allow st.rate_limiter name t.asked_at).0.0) [
        | inr e ↦ rw (pass_for, e) (λ s h. cc, omega arith)
        | inl e ↦
            rw (pass_for, e)
              (or_over-Post (Grants env t st) (Fails env t st) (length st.audited) t.password
                (ends password_error (asked name)) (check_password env t (asked name) name)
                (λ s h. cc, omega arith)
                (λ password typed.
                  Post-weaken (Accepted env t (asked name) name password) (Grants env t st)
                    (Failed env t (asked name) name) (Fails env t st) (length st.audited)
                    (check_password env t (asked name) name password)
                    (λ s (ok, same, second). record {
                      line = line;
                      password = password;
                      named = named;
                      typed = typed;
                      allowed = e;
                      accepted = ok;
                      session = same;
                      second = second;
                    })
                    (λ st' (recorded, audit, users). record {
                      line = line;
                      named = named;
                      recorded = recorded;
                      audit = audit;
                      users = users;
                    })
                    (check_password-Post env t (asked name) name password)))
      ]

  pass-Post : Post (Grants env t st) (Fails env t st) (length st.audited) (pass env t st)
  unfolding pass
  pass-Post =
      or_over-Post (Grants env t st) (Fails env t st) (length st.audited) t.username_line
        (ends username_error st) (λ line. pass_for env t st (trim_space line))
        (λ s h. cc, omega arith) pass_for-Post

-- What is promised of the end of the prompt: a turn that lets a session in, and a bound on the names
-- that are audited.
abbrev pub IsEnd : Env → LoginState → List Turn → ℕ → LoginEnd → Type 0
IsEnd env st turns n e =
    ((s : Session) → e.result ≡ logged_in s → AnyGrants env st turns s)
    × (length e.state.audited ≤ n)

module _ (env : Env) (t : Turn) (turns : List Turn) (st : LoginState) (attempts n : ℕ) where
  IsEnd-over :
      (e : LoginEnd)
      → Post (Grants env t st) (Fails env t st) n (over e)
      → IsEnd env st (t ∷ turns) (suc attempts + n) e
  IsEnd-over e h = (λ s k. inl (h.0 s k), omega (arith, h.1))

  IsEnd-again :
      (st' : LoginState) (e : LoginEnd)
      → Fails env t st st' × (length st'.audited ≤ suc n)
      → IsEnd env st' turns (attempts + length st'.audited) e
      → IsEnd env st (t ∷ turns) (suc attempts + n) e
  IsEnd-again st' e h k = (λ s j. inr (st', h.0, k.0 s j), omega (arith, h.1, k.1))

  after_pass :
      (p : Pass)
      → Post (Grants env t st) (Fails env t st) n p
      → ((st' : LoginState)
          → IsEnd env st' turns (attempts + length st'.audited) (login_loop attempts env turns st'))
      → IsEnd env st
          (t ∷ turns)
          (suc attempts + n)
          (elim p [ over e ↦ e | again st' ↦ login_loop attempts env turns st' ])
  after_pass (over e) h k = IsEnd-over e h
  after_pass (again st') h k = IsEnd-again st' (login_loop attempts env turns st') h (k st')

login_loop-IsEnd :
    (attempts : ℕ) (env : Env) (turns : List Turn) (st : LoginState)
    → IsEnd env st turns (attempts + length st.audited) (login_loop attempts env turns st)
unfolding login_loop
login_loop-IsEnd zero env turns st = (λ s h. cc, omega arith)
login_loop-IsEnd (suc attempts) env [] st = (λ s h. cc, omega arith)
login_loop-IsEnd (suc attempts) env (t ∷ turns) st =
    after_pass env t turns st attempts (length st.audited) (pass env t st) (pass-Post env t st)
      (λ st'. login_loop-IsEnd attempts env turns st')

-- A session that `PromptLogin` returns is one whose name and password the provider accepted, in a
-- turn in which the limiter allowed the name, and with a right second factor where the user has one
-- and it is enabled. The limiter and the users are those of the prompt as the turns before left
-- them: each of these turns failed, which was recorded with the limiter, and wrote a user at most
-- with what the check of its second factor makes of it. No more failures are audited than the prompt
-- has attempts: `maxAttempts` without a limiter, and 1000 with one.
pub prompt_login-IsEnd :
    (env : Env) (max_attempts : ℕ) (turns : List Turn) (st : LoginState)
    → IsEnd env st turns
        (loop_bound max_attempts st.rate_limiter + length st.audited)
        (prompt_login env max_attempts turns st)
unfolding prompt_login
prompt_login-IsEnd env max_attempts turns st =
    login_loop-IsEnd (loop_bound max_attempts st.rate_limiter) env turns st
