-- ===== src/Auth/Tests.antt =====
-- Runs of auth/ratelimit.go, and the theorems at inputs that meet their hypotheses.
use routercli.Base.{
  ℕ, ◌+◌, ◌-◌, true, false, ◌&&◌, some, List, [], ◌∷◌, ◌++◌, ◌≡◌, refl, arith, ltb, leb,
  if◌then◌else◌, codes, ◌↔◌, sym, some-injective, Text, text_eq, text_eq_iff,
}
use routercli.Auth.RateLimiter.{new_rate_limiter, allow, record_failure}
use routercli.Auth.RateLimiter.Window.{after, allow-after}
use routercli.Auth.Password.{
  PasswordHasher, plaintext_hasher, Hashers, find_hasher, register_password_hasher, hash_password,
  verify_password,
}
use routercli.Auth.Password.RoundTrip.{Accepts, find_hasher-register, verify_password_iff}
use routercli.Auth.Model.{User}
use routercli.Auth.Totp.{
  Primitives, verify_second_factor_code, verify_and_consume_totp, verify_totp_code_counter,
  decode_totp_secret, normalize, first_match, hotp, counter_bytes, decimal, truncated,
}
use routercli.Auth.Totp.Once.{IsAttempt, verify_second_factor_code-IsAttempt}
use routercli.Auth.Keyed.{
  KeyedRateLimiter, new_keyed_rate_limiter, keyed_allow, keyed_record_failure, keyed_record_success,
}
use routercli.Auth.Keyed.Separate.{view, limiters_separate}

-- Three failures at 100, 110 and 115 within a window of 20 lock for 60.
abbrev times : List ℕ
times = 115 ∷ 110 ∷ 100 ∷ []

allow-times : allow (after (new_rate_limiter 3 20 60) times) 120 ≡ (false, 55)
unfolding allow record_failure
allow-times = refl

allow-after_example :
    allow (after (new_rate_limiter 3 20 60) times) 120
    ≡ (if leb 3 3 && ltb 120 (115 + 60) then (false, 115 + 60 - 120) else (true, 0))
allow-after_example =
    allow-after 3 20 60 115 (110 ∷ 100 ∷ []) 120 (omega arith) (omega arith) (omega arith)

abbrev keyed : KeyedRateLimiter
keyed = new_keyed_rate_limiter 3 20 60

limiters_separate_example :
    ((keyed_allow (some keyed) (codes "bob") 7).0 ≡ allow (view (some keyed) (codes "bob")) 7)
    × (view (keyed_allow (some keyed) (codes "bob") 7).1 (codes "ann")
        ≡ view (some keyed) (codes "ann"))
    × (view (keyed_record_failure (some keyed) (codes "bob") 7) (codes "ann")
        ≡ view (some keyed) (codes "ann"))
    × (view (keyed_record_success (some keyed) (codes "bob")) (codes "ann")
        ≡ view (some keyed) (codes "ann"))
limiters_separate_example = limiters_separate keyed (codes "bob") (codes "ann") 7 (omega arith)

-- A hasher that marks what it stores.
abbrev marking : PasswordHasher
marking = record {
  crypt_id = codes "9";
  hash = λ plaintext. some (b'h' ∷ plaintext);
  verify = λ encoded candidate. text_eq encoded (b'h' ∷ candidate);
}

abbrev hashers : Hashers
hashers = register_password_hasher ((codes "0", plaintext_hasher) ∷ []) marking

marking_found : find_hasher hashers (codes "9") ≡ some marking
marking_found = find_hasher-register ((codes "0", plaintext_hasher) ∷ []) marking

marking_stored : hash_password marking (codes "pw") ≡ some (codes "$9$hpw")
unfolding hash_password
marking_stored = refl

marking_IsSound :
    (p encoded : Text) → marking.hash p ≡ some encoded → marking.verify encoded p ≡ true
marking_IsSound p encoded e = (text_eq_iff encoded (b'h' ∷ p)).1 (sym (some-injective e))

verify_password_iff_example :
    (verify_password hashers (codes "$6$hpw") (codes "pw") ≡ true)
    ↔ Accepts hashers (codes "$6$hpw") (codes "pw")
verify_password_iff_example = verify_password_iff hashers (codes "$6$hpw") (codes "pw")

-- A sum that is the message, filled up to 20 bytes.
abbrev echo : Primitives
echo = record {
  hmac_sha1 = λ secret message. message ++ 0 ∷ 0 ∷ 0 ∷ 0 ∷ 0 ∷ 0 ∷ 0 ∷ 0 ∷ 0 ∷ 0 ∷ 0 ∷ 4 ∷ [];
  decode_base32 = λ secret. some secret;
}

abbrev carol : User
carol = record {
  username = codes "carol";
  password_hash = [];
  totp_secret = codes "jbsw y3dp";
  totp_last_counter = 2;
  roles = [];
  must_change_password = false;
}

verify_code_3 :
    verify_second_factor_code echo carol (codes "000003") 100
    ≡ (true, record carol { totp_last_counter = 3 })
unfolding verify_second_factor_code verify_and_consume_totp verify_totp_code_counter
    decode_totp_secret normalize first_match hotp counter_bytes decimal truncated
verify_code_3 = refl

verify_second_factor_code-IsAttempt_example :
    IsAttempt echo carol
      (codes "000003")
      100
      (verify_second_factor_code echo carol (codes "000003") 100)
verify_second_factor_code-IsAttempt_example =
    verify_second_factor_code-IsAttempt echo carol (codes "000003") 100 (omega arith)
