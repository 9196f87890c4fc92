-- ===== src/Armorchan/Handshake/Agree.antt =====
-- The two ends of a handshake agree on the keys of the channel.
use routercli.Base.{
  ◌≤◌, ◌+◌, ◌*◌, true, false, some, [], ◌++◌, ◌≡◌, refl, arith, ltb, length, length-append,
  text_eq_refl,
}
use routercli.Armorchan.Frame.{Bytes, max_frame_size}
use routercli.Armorchan.Frame.RoundTrip.{write_frame-some}
use routercli.Armorchan.Channel.{Channel}
use routercli.Armorchan.Channel.Delivery.{IsPaired}
use routercli.Armorchan.Handshake.{
  Crypto, ok, derive_keys, transcript, confirmation_plaintext, zero_nonce, server_handshake,
  client_finish, client_handshake,
}
use routercli.Armorchan.Handshake.Parts.{
  wire, framed-wire, Derives, derive_keys-ok, take-append, drop-append, IsSound, Ciphers, Exchanges,
  Session, HasCiphers, daemon_channel, client_channel, confirmation, server_confirm-ok,
  client_confirm-ok,
}

module _ (cr : Crypto) (static_private daemon_private client_private s1 s2 : Bytes)
    (s : Session) where
  abbrev shared_hash : Bytes
  shared_hash =
      transcript cr (cr.public client_private) (cr.public daemon_private) (cr.public static_private)

  abbrev response : Bytes
  response = cr.public daemon_private ++ (cr.public static_private ++ confirmation cr s shared_hash)

  server_handshake-ok :
      length (cr.public client_private) ≤ max_frame_size
      → cr.is_public (cr.public client_private) ≡ true
      → cr.ecdh daemon_private (cr.public client_private) ≡ some s1
      → cr.ecdh static_private (cr.public client_private) ≡ some s2
      → derive_keys cr (s1 ++ s2) shared_hash ≡ ok s.keys
      → HasCiphers cr s shared_hash
      → length response ≤ max_frame_size
      → server_handshake cr static_private
          (some daemon_private)
          true
          (wire (cr.public client_private))
        ≡ ok (daemon_channel cr s shared_hash, wire response)
  unfolding server_handshake
  server_handshake-ok small valid e1 e2 derived has fits =
      rw
        (
          framed-wire (cr.public client_private) small,
          valid,
          e1,
          e2,
          derived,
          server_confirm-ok cr s shared_hash (cr.public daemon_private) (cr.public static_private)
              has fits,
        )
        refl

  client_finish-ok :
      length (cr.public static_private) ≡ 32
      → length (cr.public daemon_private) ≡ 32
      → cr.is_public (cr.public daemon_private) ≡ true
      → cr.ecdh client_private (cr.public daemon_private) ≡ some s1
      → cr.ecdh client_private (cr.public static_private) ≡ some s2
      → derive_keys cr (s1 ++ s2) shared_hash ≡ ok s.keys
      → HasCiphers cr s shared_hash
      → IsSound s.confirm_aead
      → client_finish cr (cr.public static_private) client_private response
        ≡ ok (client_channel cr s shared_hash)
  unfolding client_finish
  client_finish-ok n32 m32 valid e1 e2 derived has sound =
      let tail = cr.public static_private ++ confirmation cr s shared_hash in
      let same : length (cr.public daemon_private) ≡ length (cr.public static_private) =
        omega (arith, n32, m32) in
      let long : ltb (length response) (2 * length (cr.public static_private)) ≡ false = ground (
        arith,
        n32,
        m32,
        length-append (cr.public daemon_private) tail,
        length-append (cr.public static_private) (confirmation cr s shared_hash),
      ) in
      rw
        (
          long,
          take-append (length (cr.public static_private)) (cr.public daemon_private) tail same,
          drop-append (length (cr.public static_private)) (cr.public daemon_private) tail same,
          take-append (length (cr.public static_private)) (cr.public static_private)
              (confirmation cr s shared_hash) refl,
          drop-append (length (cr.public static_private)) (cr.public static_private)
              (confirmation cr s shared_hash) refl,
          text_eq_refl (cr.public static_private),
          valid,
          e1,
          e2,
          derived,
          client_confirm-ok cr s shared_hash has sound,
        )
        refl

length-response :
    (a b c : Bytes)
    → length a ≡ 32
    → length b ≡ 32
    → length c ≡ length confirmation_plaintext + 16
    → length (a ++ (b ++ c)) ≤ max_frame_size
length-response a b c ha hb hc =
    omega (arith, length-append a (b ++ c), length-append b c, ha, hb, hc)

client_handshake-ok :
    (cr : Crypto) (expected private response : Bytes) (c : Channel)
    → length (cr.public private) ≤ max_frame_size
    → length response ≤ max_frame_size
    → client_finish cr expected private response ≡ ok c
    → client_handshake cr expected (some private) true (wire response)
      ≡ ok (c, wire (cr.public private))
unfolding client_handshake
client_handshake-ok cr expected private response c small fits finished =
    rw (write_frame-some [] (cr.public private) small, framed-wire response fits, finished) refl

-- A client that expects the daemon's static key and a daemon that holds it complete the handshake,
-- each on what the other sent, and end with two ends of one channel in both directions: where HKDF
-- and AES-GCM take every input, AES-GCM opens what it seals and adds 16 bytes, public keys are valid
-- and of 32 bytes, X25519 gives both sides one secret, and the connection takes every frame.
pub server_handshake-client_handshake :
    (cr : Crypto) (static_private daemon_private client_private : Bytes)
    → Derives cr
    → Ciphers cr
    → Exchanges cr
    → (response : Bytes) × ((d : Channel) × ((c : Channel) × ((server_handshake cr static_private
                (some daemon_private)
                true
                (wire (cr.public client_private))
              ≡ ok (d, wire response))
            × (client_handshake cr
                  (cr.public static_private)
                  (some client_private)
                  true
                  (wire response)
                ≡ ok (c, wire (cr.public client_private)))
            × IsPaired d c
            × IsPaired c d)))
server_handshake-client_handshake cr static_private daemon_private client_private derives ciphers
      exchanges =
    let x = exchanges daemon_private client_private in
    let y = exchanges static_private client_private in
    let z = exchanges client_private client_private in
    let s1 = x.2.0 in
    let s2 = y.2.0 in
    let hash =
      transcript cr (cr.public client_private) (cr.public daemon_private)
        (cr.public static_private) in
    let (keys, derived) = derive_keys-ok cr (s1 ++ s2) hash derives in
    let a = ciphers keys.confirmation_key in
    let b = ciphers keys.daemon_to_client_key in
    let c = ciphers keys.client_to_daemon_key in
    let s : Session = record {
      keys = keys;
      confirm_aead = a.0;
      daemon_aead = b.0;
      client_aead = c.0;
    } in
    let has : HasCiphers cr s hash = (a.1.0, b.1.0, c.1.0) in
    let sent = response cr static_private daemon_private client_private s1 s2 s in
    let fits =
      length-response (cr.public daemon_private) (cr.public static_private) (confirmation cr s hash)
        x.0 y.0 (a.1.1 zero_nonce confirmation_plaintext hash).1 in
    let small : length (cr.public client_private) ≤ max_frame_size = omega (arith, z.0) in
    let finished =
      client_finish-ok cr static_private daemon_private client_private s1 s2 s y.0 x.0 x.1 x.2.1.1
        y.2.1.1 derived has a.1.1 in
    (
      sent,
      (
        daemon_channel cr s hash,
        (
          client_channel cr s hash,
          (
            server_handshake-ok cr static_private daemon_private client_private s1 s2 s small z.1
                x.2.1.0 y.2.1.0 derived has fits,
            client_handshake-ok cr (cr.public static_private) client_private sent
                (client_channel cr s hash) small fits finished,
            (λ n p d. (b.1.1 n p d).0, refl, refl, refl, refl),
            (λ n p d. (c.1.1 n p d).0, refl, refl, refl, refl),
          ),
        ),
      ),
    )
