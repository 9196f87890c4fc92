-- ===== src/Armorchan/Handshake/Parts.antt =====
-- The steps of a handshake whose primitives do not fail.
use routercli.Base.{
  ℕ, zero, suc, ◌≤◌, ◌+◌, true, some, [], ◌∷◌, ◌++◌, ◌≡◌, refl, sym, ap, ◌∙◌, arith, append-nil,
  length, take, drop, Text, codes,
}
use routercli.Armorchan.Frame.{Bytes, max_frame_size, put_uint32, read_frame}
use routercli.Armorchan.Frame.RoundTrip.{write_frame-some, read_frame-put}
use routercli.Armorchan.Channel.{Aead, Channel}
use routercli.Armorchan.Handshake.{
  Crypto, ok, protocol_label, DerivedKeys, derive_keys, confirmation_plaintext, zero_nonce, framed,
  new_channel, server_confirm, client_confirm,
}

-- A frame on the wire.
abbrev pub wire : Bytes → Bytes
wire b = put_uint32 (length b) ++ b

pub framed-wire : (b : Bytes) → length b ≤ max_frame_size → framed (read_frame (wire b)) ≡ some b
framed-wire b h =
    ap framed (
      ap (λ l. read_frame (put_uint32 (length b) ++ l)) (sym (append-nil b))
      ∙ read_frame-put b [] h)

-- HKDF gives what it is asked for.
abbrev pub Derives : Crypto → Type 0
Derives cr =
    (secret hash : Bytes) (info : Text) (n : ℕ)
    → (key : Bytes) × (cr.hkdf secret hash info n ≡ some key)

pub derive_keys-ok :
    (cr : Crypto) (secret hash : Bytes)
    → Derives cr
    → (keys : DerivedKeys) × (derive_keys cr secret hash ≡ ok keys)
unfolding derive_keys
derive_keys-ok cr secret hash h =
    let a = h secret hash (protocol_label ++ codes " daemon-to-client key") 32 in
    let b = h secret hash (protocol_label ++ codes " daemon-to-client nonce") 12 in
    let c = h secret hash (protocol_label ++ codes " client-to-daemon key") 32 in
    let d = h secret hash (protocol_label ++ codes " client-to-daemon nonce") 12 in
    let e = h secret hash (protocol_label ++ codes " server confirmation key") 32 in
    (
      record {
        daemon_to_client_key = a.0;
        daemon_to_client_nonce_base = b.0;
        client_to_daemon_key = c.0;
        client_to_daemon_nonce_base = d.0;
        confirmation_key = e.0;
      },
      rw (a.1, b.1, c.1, d.1, e.1) refl,
    )

pub take-append : (n : ℕ) (a b : Bytes) → length a ≡ n → take n (a ++ b) ≡ a
take-append zero [] b h = refl
take-append zero (x ∷ a) b h = ground arith
take-append (suc n) [] b h = ground arith
take-append (suc n) (x ∷ a) b h = ap (◌∷◌ x) (take-append n a b (omega (arith, h)))

pub drop-append : (n : ℕ) (a b : Bytes) → length a ≡ n → drop n (a ++ b) ≡ b
drop-append zero [] b h = refl
drop-append zero (x ∷ a) b h = ground arith
drop-append (suc n) [] b h = ground arith
drop-append (suc n) (x ∷ a) b h = drop-append n a b (omega (arith, h))

-- An AEAD that opens what it seals, and adds a tag of 16 bytes.
abbrev pub IsSound : Aead → Type 0
IsSound a =
    (nonce plaintext aad : Bytes)
    → (a.unseal nonce (a.seal nonce plaintext aad) aad ≡ some plaintext)
      × (length (a.seal nonce plaintext aad) ≡ length plaintext + 16)

-- AES and GCM take every derived key.
abbrev pub Ciphers : Crypto → Type 0
Ciphers cr = (key : Bytes) → (a : Aead) × ((cr.new_aead key ≡ some a) × IsSound a)

-- Public keys are 32 bytes, and X25519 gives both holders of a private key the same secret.
abbrev pub Exchanges : Crypto → Type 0
Exchanges cr =
    (a b : Bytes)
    → (length (cr.public a) ≡ 32)
      × (cr.is_public (cr.public a) ≡ true)
      × ((secret : Bytes) × ((cr.ecdh a (cr.public b) ≡ some secret)
            × (cr.ecdh b (cr.public a) ≡ some secret)))

-- What the derived keys give the two ends.
pub record Session : Type 0 where
  pub keys : DerivedKeys
  pub confirm_aead : Aead
  pub daemon_aead : Aead
  pub client_aead : Aead

module _ (cr : Crypto) (s : Session) (hash : Bytes) where
  abbrev pub HasCiphers : Type 0
  HasCiphers =
      (cr.new_aead s.keys.confirmation_key ≡ some s.confirm_aead)
      × (cr.new_aead s.keys.daemon_to_client_key ≡ some s.daemon_aead)
      × (cr.new_aead s.keys.client_to_daemon_key ≡ some s.client_aead)

  abbrev pub daemon_channel : Channel
  daemon_channel =
      new_channel s.daemon_aead s.keys.daemon_to_client_nonce_base s.client_aead
        s.keys.client_to_daemon_nonce_base

  abbrev pub client_channel : Channel
  client_channel =
      new_channel s.client_aead s.keys.client_to_daemon_nonce_base s.daemon_aead
        s.keys.daemon_to_client_nonce_base

  abbrev pub confirmation : Bytes
  confirmation = s.confirm_aead.seal zero_nonce confirmation_plaintext hash

  pub server_confirm-ok :
      (de ds : Bytes)
      → HasCiphers
      → length (de ++ (ds ++ confirmation)) ≤ max_frame_size
      → server_confirm cr de ds hash true s.keys
        ≡ ok (daemon_channel, wire (de ++ (ds ++ confirmation)))
  unfolding server_confirm
  server_confirm-ok de ds (a, b, c) fits =
      rw (a, write_frame-some [] (de ++ (ds ++ confirmation)) fits, b, c) refl

  pub client_confirm-ok :
      HasCiphers
      → IsSound s.confirm_aead
      → client_confirm cr confirmation hash s.keys ≡ ok client_channel
  unfolding client_confirm
  client_confirm-ok (a, b, c) sound =
      rw (a, (sound zero_nonce confirmation_plaintext hash).0, c, b) refl
