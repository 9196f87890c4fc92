-- ===== src/Auth/Totp.antt =====
-- auth/totp.go and auth/mfa.go: TOTP codes, and their single use. HMAC-SHA1 and the decoder of
-- base32 are the functions of `Primitives`; time is in seconds since the Unix epoch.
pub mod Once
use routercli.Base.{
  ℕ, zero, suc, ◌+◌, ◌-◌, ◌*◌, ◌/◌, ◌%◌, Bool, true, false, Option, none, some, List, [], ◌∷◌, ◌++◌,
  ltb, leb, ◌==◌, if◌then◌else◌, length, get_elem?, Text, text_eq,
}
use routercli.Auth.Model.{User}

-- `hmac.New(sha1.New, secret)` on a message, and `DecodeString` without padding.
pub record Primitives : Type 0 where
  pub hmac_sha1 : List ℕ → List ℕ → List ℕ
  pub decode_base32 : Text → Option (List ℕ)

-- `strings.ToUpper` on ASCII, which is all that base32 accepts.
abbrev pub upper : ℕ → ℕ
upper c = if leb b'a' c then (if leb c b'z' then c - 32 else c) else c

unfoldable pub normalize : Text → Text
normalize [] = []
normalize (c ∷ s) = if c == b' ' then normalize s else upper c ∷ normalize s

-- `decodeTOTPSecret`.
unfoldable pub decode_totp_secret : Primitives → Text → Option (List ℕ)
unfolding normalize
decode_totp_secret p secret = p.decode_base32 (normalize secret)

-- The eight bytes of a counter.
unfoldable pub counter_bytes : ℕ → ℕ → List ℕ
counter_bytes zero n = []
counter_bytes (suc w) n = counter_bytes w (n / 256) ++ n % 256 ∷ []

-- `sum[i]`. A sum of HMAC-SHA1 has 20 bytes, and no index here is above 18.
abbrev pub byte_at : List ℕ → ℕ → ℕ
byte_at sum i = elim (get_elem? sum i) [ none ↦ 0 | some b ↦ b ]

-- `%0*d`, of a number with at most `digits` digits.
unfoldable pub decimal : ℕ → ℕ → Text
decimal zero n = []
decimal (suc digits) n = decimal digits (n / 10) ++ (b'0' + n % 10) ∷ []

-- The number that `hotp` cuts out of the sum.
unfoldable pub truncated : List ℕ → ℕ
truncated sum =
    let offset = byte_at sum (length sum - 1) % 16 in
    byte_at sum offset % 128 * 16777216
    + byte_at sum (offset + 1) * 65536
    + byte_at sum (offset + 2) * 256
    + byte_at sum (offset + 3)

-- `mod *= 10`, in 32 bits.
abbrev pub power_of_ten : ℕ → ℕ
power_of_ten zero = 1
power_of_ten (suc d) = power_of_ten d * 10 % 4294967296

-- `hotp`.
unfoldable pub hotp : Primitives → List ℕ → ℕ → ℕ → Text
unfolding counter_bytes decimal truncated
hotp p secret counter digits =
    decimal digits (truncated (p.hmac_sha1 secret (counter_bytes 8 counter)) % power_of_ten digits)

-- The loop of `VerifyTOTPCodeCounter`, over the counters that it tries.
unfoldable pub first_match : Primitives → List ℕ → Text → List ℕ → Option ℕ
first_match p secret code [] = none
first_match p secret code (c ∷ counters) =
    if text_eq (hotp p secret c 6) code then some c else first_match p secret code counters

-- The counters for the skews -1, 0 and 1.
abbrev pub skewed : ℕ → List ℕ
skewed base =
    if ltb base 1
    then base ∷ (base + 1) % 18446744073709551616 ∷ []
    else (base - 1) ∷ base ∷ (base + 1) % 18446744073709551616 ∷ []

-- `VerifyTOTPCodeCounter`: `none` where ok is false.
unfoldable pub verify_totp_code_counter : Primitives → Text → Text → ℕ → Option ℕ
unfolding first_match
verify_totp_code_counter p base32_secret code now = elim (decode_totp_secret p base32_secret) [
  | none ↦ none
  | some secret ↦ first_match p secret code (skewed (now / 30))
]

-- `verifyAndConsumeTOTP`.
unfoldable pub verify_and_consume_totp : Primitives → User → Text → ℕ → Bool × User
verify_and_consume_totp p u code now = elim (verify_totp_code_counter p u.totp_secret code now) [
  | none ↦ (false, u)
  | some counter ↦
      if leb counter u.totp_last_counter
      then (false, u)
      else (true, record u { totp_last_counter = counter })
]

-- `VerifySecondFactorCode`.
unfoldable pub verify_second_factor_code : Primitives → User → Text → ℕ → Bool × User
unfolding verify_and_consume_totp
verify_second_factor_code p u code now =
    if text_eq u.totp_secret [] then (false, u) else verify_and_consume_totp p u code now
