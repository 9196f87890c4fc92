-- ===== src/Auth/Password/RoundTrip.antt =====
-- What `VerifyPassword` accepts, and that it accepts what `HashPassword` stores.
use routercli.Base.{
  true, false, some, [], ◌∷◌, ◌++◌, ◌≡◌, ◌↔◌, inl, inr, refl, ap, arith, ◌==◌, ==_iff, Bool-cases,
  Option-cases, some-injective, none-some, Text, text_eq, text_eq_refl, All,
}
use routercli.Auth.Password.{
  PasswordHasher, Hashers, find_hasher, put_hasher, register_password_hasher, split_dollar,
  split_password_string, hash_password, is_recognized_hash, verify_password,
}

-- A crypt id that can be told from what follows it.
abbrev pub HasNoDollar : Text → Type 0
HasNoDollar id = All (λ c. (c == b'$') ≡ false) id

-- The storage format.
abbrev pub stored_as : Text → Text → Text
stored_as id encoded = b'$' ∷ (id ++ b'$' ∷ encoded)

split_dollar-append :
    (id encoded : Text) → HasNoDollar id → split_dollar (id ++ b'$' ∷ encoded) ≡ some (id, encoded)
unfolding split_dollar
split_dollar-append [] encoded h = refl
split_dollar-append (c ∷ id) encoded h = rw (h.0, split_dollar-append id encoded h.1) refl

split_dollar-some :
    (s id encoded : Text)
    → split_dollar s ≡ some (id, encoded)
    → HasNoDollar id × (s ≡ id ++ b'$' ∷ encoded)
unfolding split_dollar
split_dollar-some [] id encoded e = ground arith
split_dollar-some (c ∷ s) id encoded e = elim (Bool-cases (c == b'$')) [
  | inl dollar ↦
      let found = some-injective (rw (dollar, split_dollar) at e) in
      rw (← ap (λ p. p.0) found, ← ap (λ p. p.1) found, (==_iff c b'$').0 dollar) (tt, refl)
  | inr other ↦ elim (Option-cases (split_dollar s)) [
    | inl n ↦ absurd (none-some (rw (other, n, split_dollar) at e))
    | inr (p, found) ↦
        let same = some-injective (rw (other, found, split_dollar) at e) in
        let rest = split_dollar-some s p.0 p.1 found in
        rw (← ap (λ q. q.0) same, ← ap (λ q. q.1) same) ((other, rest.0), ap (◌∷◌ c) rest.1)
  ]
]

pub find_hasher-register :
    (hashers : Hashers) (h : PasswordHasher)
    → find_hasher (register_password_hasher hashers h) h.crypt_id ≡ some h
unfolding find_hasher put_hasher
find_hasher-register [] h = rw (text_eq_refl h.crypt_id) refl
find_hasher-register ((key, g) ∷ hashers) h = elim (Bool-cases (text_eq key h.crypt_id)) [
  | inl e ↦ rw (e, e, find_hasher) refl
  | inr e ↦ rw (e, e, find_hasher) (find_hasher-register hashers h)
]

hash_password-some :
    (d : PasswordHasher) (plaintext stored : Text)
    → hash_password d plaintext ≡ some stored
    → (encoded : Text) × ((d.hash plaintext ≡ some encoded)
        × (stored_as d.crypt_id encoded ≡ stored))
unfolding hash_password
hash_password-some d plaintext stored e = elim (Option-cases (d.hash plaintext)) [
  | inl n ↦ absurd (none-some (rw (n, hash_password) at e))
  | inr (encoded, s) ↦ (encoded, (s, some-injective (rw (s, hash_password) at e)))
]

split_password_string-some :
    (stored id encoded : Text)
    → split_password_string stored ≡ some (id, encoded)
    → HasNoDollar id × (stored ≡ stored_as id encoded)
unfolding split_password_string
split_password_string-some [] id encoded e = absurd (none-some e)
split_password_string-some (c ∷ s) id encoded e = elim (Bool-cases (c == b'$')) [
  | inl dollar ↦
      let split = split_dollar-some s id encoded (rw (dollar, split_password_string) at e) in
      (split.0, rw ((==_iff c b'$').0 dollar) (ap (◌∷◌ b'$') split.1))
  | inr other ↦ absurd (none-some (rw (other, split_password_string) at e))
]

split-stored_as :
    (id encoded : Text)
    → HasNoDollar id
    → split_password_string (stored_as id encoded) ≡ some (id, encoded)
unfolding split_password_string
split-stored_as id encoded h = split_dollar-append id encoded h

-- A stored hash that names a registered hasher, which accepts the candidate.
abbrev pub Accepts : Hashers → Text → Text → Type 0
Accepts hashers stored candidate =
    (id : Text) × ((encoded : Text) × ((h : PasswordHasher) × (HasNoDollar id
          × (stored ≡ stored_as id encoded)
          × (find_hasher hashers id ≡ some h)
          × (h.verify encoded candidate ≡ true))))

verify_password-Accepts :
    (hashers : Hashers) (stored candidate : Text)
    → verify_password hashers stored candidate ≡ true
    → Accepts hashers stored candidate
unfolding verify_password
verify_password-Accepts hashers stored candidate e =
    elim (Option-cases (split_password_string stored)) [
      | inl n ↦ ground (arith, rw (n, verify_password) at e)
      | inr (p, split) ↦
          let e' = rw (split, verify_password) at e in
          elim (Option-cases (find_hasher hashers p.0)) [
            | inl n ↦ ground (arith, rw n at e')
            | inr (h, found) ↦
                let parts = split_password_string-some stored p.0 p.1 split in
                (p.0, (p.1, (h, (parts.0, parts.1, found, rw found at e'))))
          ]
    ]

-- `VerifyPassword` accepts a candidate exactly when the stored value is `$id$encoded` with the id of
-- a registered hasher, and this hasher's `Verify` accepts. Any other stored value is refused.
pub verify_password_iff :
    (hashers : Hashers) (stored candidate : Text)
    → (verify_password hashers stored candidate ≡ true) ↔ Accepts hashers stored candidate
unfolding verify_password
verify_password_iff hashers stored candidate = (
  verify_password-Accepts hashers stored candidate,
  λ (id, (encoded, (h, (clean, form, found, ok)))).
      rw (form, split-stored_as id encoded clean, found, verify_password) ok,
)

-- A value that `HashPassword` returns is accepted by `VerifyPassword` for its password, and counts
-- as a recognized hash, under any registry that has the hasher under its crypt id, where the id has
-- no `$` and the hasher verifies what it hashes.
verify_password-hash_password :
    (hashers : Hashers) (d : PasswordHasher) (plaintext stored : Text)
    → HasNoDollar d.crypt_id
    → ((p encoded : Text) → d.hash p ≡ some encoded → d.verify encoded p ≡ true)
    → find_hasher hashers d.crypt_id ≡ some d
    → hash_password d plaintext ≡ some stored
    → (verify_password hashers stored plaintext ≡ true) × (is_recognized_hash hashers stored ≡ true)
unfolding verify_password is_recognized_hash
verify_password-hash_password hashers d plaintext stored clean sound found e =
    let (encoded, (hashed, form)) = hash_password-some d plaintext stored e in
    rw
      (← form, split-stored_as d.crypt_id encoded clean, found, verify_password, is_recognized_hash)
      (sound plaintext encoded hashed, refl)
