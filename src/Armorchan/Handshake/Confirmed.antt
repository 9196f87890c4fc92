-- ===== src/Armorchan/Handshake/Confirmed.antt =====
-- What a client knows of the daemon when its handshake succeeds.
use routercli.Base.{
  Bool, true, false, not, Option, none, some, ◌++◌, ◌≡◌, refl, arith, if◌then◌else◌, length, take,
  drop, text_eq_iff,
}
use routercli.Armorchan.Frame.{Bytes}
use routercli.Armorchan.Channel.{Aead, Channel}
use routercli.Armorchan.Handshake.{
  Crypto, HandshakeError, Result, ok, err, try, and_then, DerivedKeys, derive_keys, transcript,
  zero_nonce, client_confirm, client_finish,
}

err-ok : {A : Type 0} (e : HandshakeError) (a : A) → err e ≡ ok a → ⊥
err-ok e a h = cc

try-ok :
    {A : Type 0} {B : Type 0} (o : Option A) (e : HandshakeError) (run : A → Result B) (b : B)
    → try o e run ≡ ok b
    → (a : A) × ((o ≡ some a) × (run a ≡ ok b))
try-ok none e run b h = absurd (err-ok e b h)
try-ok (some a) e run b h = (a, (refl, h))

and_then-ok :
    {A : Type 0} {B : Type 0} (r : Result A) (run : A → Result B) (b : B)
    → and_then r run ≡ ok b
    → (a : A) × ((r ≡ ok a) × (run a ≡ ok b))
and_then-ok (err e) run b h = absurd (err-ok e b h)
and_then-ok (ok a) run b h = (a, (refl, h))

guard-ok :
    {B : Type 0} (t : Bool) (e : HandshakeError) (r : Result B) (b : B)
    → (if t then err e else r) ≡ ok b
    → (t ≡ false) × (r ≡ ok b)
guard-ok true e r b h = absurd (err-ok e b h)
guard-ok false e r b h = (refl, h)

-- The confirmation opens under the key derived from the two secrets that the client shares with the
-- daemon's ephemeral key and with the expected static one, and the hash of both and its own.
abbrev pub IsConfirmed : Crypto → Bytes → Bytes → Bytes → Type 0
IsConfirmed cr expected private response =
    let n = length expected in
    let hash = transcript cr (cr.public private) (take n response) expected in
    (s1 : Bytes) × ((s2 : Bytes) × ((keys : DerivedKeys) × ((aead : Aead) × ((plaintext : Bytes)
            × ((cr.ecdh private (take n response) ≡ some s1)
                × (cr.ecdh private expected ≡ some s2)
                × (derive_keys cr (s1 ++ s2) hash ≡ ok keys)
                × (cr.new_aead keys.confirmation_key ≡ some aead)
                × (aead.unseal zero_nonce (drop n (drop n response)) hash ≡ some plaintext))))))

not-false : (t : Bool) → not t ≡ false → t ≡ true
not-false t h = ground arith

-- A client completes a handshake only where the response has the static key that it expects, and
-- after it the confirmation opens under a key that depends on this static key.
pub client_finish-IsConfirmed :
    (cr : Crypto) (expected private response : Bytes) (c : Channel)
    → client_finish cr expected private response ≡ ok c
    → (take (length expected) (drop (length expected) response) ≡ expected)
      × IsConfirmed cr expected private response
unfolding client_finish client_confirm
client_finish-IsConfirmed cr expected private response c h =
    let n = length expected in
    let g1 = guard-ok _ _ _ c h in
    let g2 = guard-ok _ _ _ c g1.1 in
    let g3 = guard-ok _ _ _ c g2.1 in
    let (s1, (e1, h1)) = try-ok _ _ _ c g3.1 in
    let (s2, (e2, h2)) = try-ok _ _ _ c h1 in
    let (keys, (e3, h3)) = and_then-ok _ _ c h2 in
    let (aead, (e4, h4)) = try-ok _ _ _ c h3 in
    let (plaintext, (e5, h5)) = try-ok _ _ _ c h4 in
    (
      (text_eq_iff _ expected).0 (not-false _ g2.0),
      (s1, (s2, (keys, (aead, (plaintext, (e1, e2, e3, e4, e5)))))),
    )
