-- ===== src/Auth/Policy.antt =====
-- auth/password_policy.go and the policy of auth/model.go. A candidate is its runes with the number
-- of its bytes; the classes of runes of package unicode are arguments.
use routercli.Base.{
  ℕ, ◌+◌, ◌≤◌, Bool, true, false, not, ◌&&◌, ◌||◌, List, [], ◌∷◌, ◌≡◌, ◌↔◌, ◌⊎◌, refl, arith, ltb,
  if◌then◌else◌, length, ℤ, pos, ltz, Text,
}

pub record PasswordPolicy : Type 0 where
  pub min_length : ℤ
  pub require_uppercase : Bool
  pub require_numbers : Bool
  pub require_special_chars : Bool

pub data PasswordViolation : Type 0 where
  too_short too_long needs_uppercase needs_number needs_special_char : PasswordViolation

-- `unicode.IsUpper`, `IsDigit`, `IsPunct` and `IsSymbol`.
pub record Unicode : Type 0 where
  pub is_upper : ℕ → Bool
  pub is_digit : ℕ → Bool
  pub is_punct : ℕ → Bool
  pub is_symbol : ℕ → Bool

-- `MaxPasswordLength`.
abbrev pub max_password_length : ℕ
max_password_length = 72

-- `containsRuneMatching`.
unfoldable pub contains_rune_matching : Text → (ℕ → Bool) → Bool
contains_rune_matching [] match = false
contains_rune_matching (r ∷ s) match = if match r then true else contains_rune_matching s match

-- `isSpecialChar`.
abbrev pub is_special_char : Unicode → ℕ → Bool
is_special_char u r = u.is_punct r || u.is_symbol r

-- `len(candidate)`.
abbrev pub byte_len : Text → ℕ
byte_len [] = 0
byte_len (r ∷ s) =
    (if ltb r 0x80 then 1 else if ltb r 0x800 then 2 else if ltb r 0x10000 then 3 else 4)
    + byte_len s

abbrev pub report : Bool → PasswordViolation → List PasswordViolation → List PasswordViolation
report true v rest = v ∷ rest
report false v rest = rest

-- `ValidatePassword`.
unfoldable pub validate_password : Unicode → Text → PasswordPolicy → List PasswordViolation
unfolding contains_rune_matching
validate_password u candidate policy =
    report (ltz (pos (length candidate)) policy.min_length) too_short (
      report (ltb max_password_length (byte_len candidate)) too_long (
        report (policy.require_uppercase && not (contains_rune_matching candidate u.is_upper))
          needs_uppercase
          (report (policy.require_numbers && not (contains_rune_matching candidate u.is_digit))
            needs_number
            (report
              (policy.require_special_chars
                && not (contains_rune_matching candidate (is_special_char u)))
              needs_special_char []))))

-- A rune of the text matches.
abbrev pub HasRune : (ℕ → Bool) → Text → Type 0
HasRune match [] = ⊥
HasRune match (r ∷ s) = (match r ≡ true) ⊎ HasRune match s

contains_iff :
    (s : Text) (match : ℕ → Bool) → (contains_rune_matching s match ≡ true) ↔ HasRune match s
unfolding contains_rune_matching
contains_iff [] match = ground arith
contains_iff (r ∷ s) match = ground (arith, contains_iff s match)

required_iff :
    (b : Bool) (s : Text) (match : ℕ → Bool)
    → ((b && not (contains_rune_matching s match)) ≡ false) ↔ (b ≡ true → HasRune match s)
required_iff b s match = ground (arith, contains_iff s match)

report_iff :
    {P Q : Type 0} (b : Bool) (v : PasswordViolation) (rest : List PasswordViolation)
    → (b ≡ false) ↔ P
    → (rest ≡ []) ↔ Q
    → (report b v rest ≡ []) ↔ (P × Q)
report_iff true v rest p q = (λ h. cc, λ h. cc (p.1 h.0))
report_iff false v rest p q = (λ h. (p.0 refl, q.0 h), λ h. q.1 h.1)

-- What is asked of a new password.
abbrev pub IsAcceptable : Unicode → PasswordPolicy → Text → Type 0
IsAcceptable u policy s =
    (ltz (pos (length s)) policy.min_length ≡ false)
    × ((byte_len s ≤ 72)
        × ((policy.require_uppercase ≡ true → HasRune u.is_upper s)
            × ((policy.require_numbers ≡ true → HasRune u.is_digit s)
                × ((policy.require_special_chars ≡ true → HasRune (is_special_char u) s)
                    × Unit {0}))))

-- `ValidatePassword` has no objection exactly where the password has as many runes as the policy
-- asks for, 72 bytes at most, which is what the hash reads, and a rune of each class that it asks
-- for.
validate_password_iff :
    (u : Unicode) (policy : PasswordPolicy) (s : Text)
    → (validate_password u s policy ≡ []) ↔ IsAcceptable u policy s
unfolding validate_password
validate_password_iff u policy s =
    report_iff _ _ _ (λ h. h, λ h. h)
      (report_iff _ _ _ (ground arith) (
        report_iff _ _ _ (required_iff policy.require_uppercase s u.is_upper) (
          report_iff _ _ _ (required_iff policy.require_numbers s u.is_digit) (
            report_iff _ _ _ (required_iff policy.require_special_chars s (is_special_char u))
              (λ h. tt, λ h. refl)))))
