-- ===== src/Auth/LoginTests.antt =====
-- A login with a wrong and then a right password.
use routercli.Base.{ℕ, ◌+◌, true, none, some, List, [], ◌∷◌, Text, codes, text_eq}
use routercli.Auth.Keyed.{new_keyed_rate_limiter}
use routercli.Auth.Login.{Turn, Env, LoginState, prompt_login}
use routercli.Auth.Login.Granted.{IsEnd, prompt_login-IsEnd}

abbrev env : Env
env = record {
  provider = λ username password. some (text_eq password (codes "secret"));
  primitives = record { decode_base32 = λ s. none; hmac_sha1 = λ key message. [] };
  totp_enabled = true;
}

abbrev types : Text → ℕ → Turn
types password at = record {
  username_line = some (codes "bob\n");
  password = some password;
  code = [];
  asked_at = at;
  code_at = at;
  failed_at = at;
}

abbrev turns : List Turn
turns = types (codes "guess") 1 ∷ types (codes "secret") 2 ∷ []

abbrev st : LoginState
st = record { users = []; rate_limiter = some (new_keyed_rate_limiter 3 20 60); audited = [] }

prompt_login-IsEnd_example : IsEnd env st turns (1000 + 0) (prompt_login env 3 turns st)
prompt_login-IsEnd_example = prompt_login-IsEnd env 3 turns st
