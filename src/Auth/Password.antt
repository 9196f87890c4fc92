-- ===== src/Auth/Password.antt =====
-- auth/auth.go: password hashes in the form `$id$encoded`, and the registry of their algorithms.
-- bcrypt is a third-party package: a hasher is the record of its functions. The registry, a package
-- variable in the source, is passed along.
pub mod RoundTrip
use routercli.Base.{
  ℕ, Bool, true, false, ◌&&◌, Option, none, some, List, [], ◌∷◌, ◌++◌, ◌==◌, if◌then◌else◌, Text,
  codes, text_eq,
}

-- `PasswordHasher`, `Hash` being `none` where it fails. `Dummy` only equalises the time of a login and
-- is left out.
pub record PasswordHasher : Type 0 where
  pub crypt_id : Text
  pub hash : Text → Option Text
  pub verify : Text → Text → Bool

-- `plaintextHasher`.
abbrev pub plaintext_hasher : PasswordHasher
plaintext_hasher = record {
  crypt_id = codes "0";
  hash = λ plaintext. none;
  verify = λ encoded candidate. text_eq encoded candidate;
}

abbrev pub Hashers : Type 0
Hashers = List (Text × PasswordHasher)

-- `passwordHashers[id]`.
unfoldable pub find_hasher : Hashers → Text → Option PasswordHasher
find_hasher [] id = none
find_hasher ((key, h) ∷ hashers) id = if text_eq key id then some h else find_hasher hashers id

unfoldable pub put_hasher : Hashers → Text → PasswordHasher → Hashers
put_hasher [] id h = (id, h) ∷ []
put_hasher ((key, g) ∷ hashers) id h =
    if text_eq key id then (key, h) ∷ hashers else (key, g) ∷ put_hasher hashers id h

-- `RegisterPasswordHasher`.
abbrev pub register_password_hasher : Hashers → PasswordHasher → Hashers
register_password_hasher hashers h = put_hasher hashers h.crypt_id h

-- `SetDefaultPasswordHasher`: the new default, or `none` for its error.
abbrev pub set_default_password_hasher : Hashers → Text → Option PasswordHasher
set_default_password_hasher hashers crypt_id = find_hasher hashers crypt_id

-- `strings.SplitN(s, "$", 2)` where it gives two parts.
unfoldable pub split_dollar : Text → Option (Text × Text)
split_dollar [] = none
split_dollar (c ∷ s) =
    if c == b'$'
    then some ([], s)
    else elim (split_dollar s) [ none ↦ none | some p ↦ some (c ∷ p.0, p.1) ]

-- `splitPasswordString`.
unfoldable pub split_password_string : Text → Option (Text × Text)
split_password_string [] = none
split_password_string (c ∷ s) = if c == b'$' then split_dollar s else none

-- `HashPassword`, given the default hasher.
unfoldable pub hash_password : PasswordHasher → Text → Option Text
hash_password default_password_hasher plaintext = elim (default_password_hasher.hash plaintext) [
  | none ↦ none
  | some encoded ↦ some (b'$' ∷ (default_password_hasher.crypt_id ++ b'$' ∷ encoded))
]

-- `IsPlaintextHash`.
unfoldable pub is_plaintext_hash : Text → Bool
is_plaintext_hash stored = elim (split_password_string stored) [
  | none ↦ false
  | some p ↦ text_eq p.0 (codes "0")
]

-- `IsRecognizedHash`.
unfoldable pub is_recognized_hash : Hashers → Text → Bool
is_recognized_hash hashers stored = elim (split_password_string stored) [
  | none ↦ false
  | some p ↦ elim (find_hasher hashers p.0) [ none ↦ false | some h ↦ true ]
]

-- `VerifyPassword`.
unfoldable pub verify_password : Hashers → Text → Text → Bool
verify_password hashers stored candidate = elim (split_password_string stored) [
  | none ↦ false
  | some p ↦ elim (find_hasher hashers p.0) [ none ↦ false | some h ↦ h.verify p.1 candidate ]
]
