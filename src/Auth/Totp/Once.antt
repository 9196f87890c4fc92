-- ===== src/Auth/Totp/Once.antt =====
-- A TOTP code is used once.
use routercli.Base.{
  ℕ, ◌+◌, ◌/◌, ◌≤◌, ◌<◌, Bool, true, false, some, List, [], ◌∷◌, ◌≡◌, inl, inr, refl, arith, leb,
  Bool-cases, Option-cases, some-injective, none-some, Text, text_eq, text_eq_iff, All,
}
use routercli.Auth.Model.{User}
use routercli.Auth.Totp.{
  Primitives, decode_totp_secret, hotp, first_match, skewed, verify_totp_code_counter,
  verify_and_consume_totp, verify_second_factor_code,
}

-- The code is that of the counter, which is at most one step from the time.
abbrev pub IsCodeAt : Primitives → User → Text → ℕ → ℕ → Type 0
IsCodeAt p u code now counter =
    (secret : List ℕ) × ((decode_totp_secret p u.totp_secret ≡ some secret)
      × (hotp p secret counter 6 ≡ code)
      × (now / 30 ≤ counter + 1)
      × (counter ≤ now / 30 + 1))

-- An attempt is refused and changes nothing, or it is accepted for a counter above all before.
abbrev pub IsAttempt : Primitives → User → Text → ℕ → Bool × User → Type 0
IsAttempt p u code now (false, u') = u' ≡ u
IsAttempt p u code now (true, u') =
    IsCodeAt p u code now u'.totp_last_counter
    × (u.totp_last_counter < u'.totp_last_counter)
    × (u' ≡ record u { totp_last_counter = u'.totp_last_counter })
    × (verify_second_factor_code p u' code now ≡ (false, u'))

first_match-In :
    (p : Primitives) (secret : List ℕ) (code : Text) (P : ℕ → Type 0) (counters : List ℕ) (c : ℕ)
    → All P counters
    → first_match p secret code counters ≡ some c
    → (hotp p secret c 6 ≡ code) × P c
unfolding first_match
first_match-In p secret code P [] c h e = absurd (none-some e)
first_match-In p secret code P (d ∷ counters) c h e =
    elim (Bool-cases (text_eq (hotp p secret d 6) code)) [
      | inl same ↦
          let found = some-injective (rw (same, first_match) at e) in
          rw (← found) ((text_eq_iff (hotp p secret d 6) code).0 same, h.0)
      | inr other ↦ first_match-In p secret code P counters c h.1 (rw (other, first_match) at e)
    ]

abbrev IsNear : ℕ → ℕ → Type 0
IsNear base c = (base ≤ c + 1) × (c ≤ base + 1)

skewed-IsNear : (base : ℕ) → base < 18446744073709551615 → All (IsNear base) (skewed base)
skewed-IsNear base room = ground arith

verify_totp_code_counter-some :
    (p : Primitives) (u : User) (code : Text) (now c : ℕ)
    → now < 18446744073709551616
    → verify_totp_code_counter p u.totp_secret code now ≡ some c
    → IsCodeAt p u code now c
unfolding verify_totp_code_counter
verify_totp_code_counter-some p u code now c room e =
    elim (Option-cases (decode_totp_secret p u.totp_secret)) [
      | inl n ↦ absurd (none-some (rw (n, verify_totp_code_counter) at e))
      | inr (secret, d) ↦
          let near = skewed-IsNear (now / 30) (omega (arith, room)) in
          let found =
            first_match-In p secret code (IsNear (now / 30)) (skewed (now / 30)) c near
              (rw (d, verify_totp_code_counter) at e) in
          (secret, (d, found.0, found.1.0, found.1.1))
    ]

refused_again :
    (p : Primitives) (u : User) (code : Text) (now c : ℕ)
    → verify_totp_code_counter p u.totp_secret code now ≡ some c
    → c ≤ u.totp_last_counter
    → verify_and_consume_totp p u code now ≡ (false, u)
unfolding verify_and_consume_totp
refused_again p u code now c e h = rw (e, verify_and_consume_totp) (ground arith)

above : (last c : ℕ) → leb c last ≡ false → last < c
above last c h = ground arith

again_refused :
    (p : Primitives) (u : User) (code : Text) (now c : ℕ)
    → text_eq u.totp_secret [] ≡ false
    → verify_totp_code_counter p u.totp_secret code now ≡ some c
    → c ≤ u.totp_last_counter
    → verify_second_factor_code p u code now ≡ (false, u)
unfolding verify_second_factor_code
again_refused p u code now c set e h =
    rw (set, verify_second_factor_code) (refused_again p u code now c e h)

consume-IsAttempt :
    (p : Primitives) (u : User) (code : Text) (now : ℕ)
    → now < 18446744073709551616
    → text_eq u.totp_secret [] ≡ false
    → IsAttempt p u code now (verify_and_consume_totp p u code now)
unfolding verify_and_consume_totp verify_second_factor_code
consume-IsAttempt p u code now room set =
    elim (Option-cases (verify_totp_code_counter p u.totp_secret code now)) [
      | inl n ↦ rw (n, verify_and_consume_totp, IsAttempt) refl
      | inr (c, e) ↦ elim (Bool-cases (leb c u.totp_last_counter)) [
        | inl old ↦ rw (e, old, verify_and_consume_totp, IsAttempt) refl
        | inr fresh ↦
            rw (e, fresh, verify_and_consume_totp, IsAttempt)
              (
                verify_totp_code_counter-some p u code now c room e,
                above u.totp_last_counter c fresh,
                refl,
                again_refused p (record u { totp_last_counter = c }) code now c set e (omega arith),
              )
      ]
    ]

-- A code that `VerifySecondFactorCode` accepts is the code of a counter at most one step from the
-- time and above every counter that the account used before; the counter becomes its last one, and
-- the same code is then refused. A refused code changes nothing. The time is a number of 64 bits.
pub verify_second_factor_code-IsAttempt :
    (p : Primitives) (u : User) (code : Text) (now : ℕ)
    → now < 18446744073709551616
    → IsAttempt p u code now (verify_second_factor_code p u code now)
unfolding verify_second_factor_code
verify_second_factor_code-IsAttempt p u code now room =
    elim (Bool-cases (text_eq u.totp_secret [])) [
      | inl unset ↦ rw (unset, verify_second_factor_code, IsAttempt) refl
      | inr set ↦ rw (set, verify_second_factor_code) (consume-IsAttempt p u code now room set)
    ]
