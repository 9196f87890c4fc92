-- ===== src/Armorchan/Handshake.antt =====
-- armorchan/handshake.go and armorchan/aead.go. The primitives of the crypto packages are the
-- functions of `Crypto`; a key is its bytes, and what a generator would return is an argument, `none`
-- being its error. Each side is told whether the connection takes its bytes, and given the bytes
-- that will arrive.
pub mod Parts
pub mod Agree
pub mod Confirmed
use routercli.Base.{
  ℕ, ◌+◌, ◌*◌, Bool, true, false, not, Option, none, some, List, [], ◌∷◌, ◌++◌, ltb, if◌then◌else◌,
  length, take, drop, Text, codes, text_eq,
}
use routercli.Armorchan.Frame.{Bytes, FrameRead, frame, failed, write_frame, read_frame}
use routercli.Armorchan.Channel.{Aead, Channel}

-- X25519 with `NewPublicKey` and `ECDH`, SHA-256, HKDF and AES-256-GCM.
pub record Crypto : Type 0 where
  pub public : Bytes → Bytes
  pub is_public : Bytes → Bool
  pub ecdh : Bytes → Bytes → Option Bytes
  pub sha256 : Bytes → Bytes
  pub hkdf : Bytes → Bytes → Text → ℕ → Option Bytes
  pub new_aead : Bytes → Option Aead

pub data HandshakeError : Type 0 where
  read_error write_error generate_error invalid_key : HandshakeError
  ecdh_error derive_error aead_error short_response : HandshakeError
  unexpected_key invalid_server_key unconfirmed : HandshakeError

pub data Result {ℓ} (A : Type ℓ) : Type ℓ where
  ok : A → Result A
  err : HandshakeError → Result A

-- `if err != nil { return nil, ... }`.
abbrev pub try {ℓ κ} :
    {A : Type ℓ} {B : Type κ} → Option A → HandshakeError → (A → Result B) → Result B
try none e run = err e
try (some a) e run = run a

abbrev pub and_then {ℓ κ} : {A : Type ℓ} {B : Type κ} → Result A → (A → Result B) → Result B
and_then (err e) run = err e
and_then (ok a) run = run a

-- `protocolLabel`.
abbrev pub protocol_label : Text
protocol_label = codes "RouterCLI armorchan v2"

pub record DerivedKeys : Type 0 where
  pub daemon_to_client_key : Bytes
  pub daemon_to_client_nonce_base : Bytes
  pub client_to_daemon_key : Bytes
  pub client_to_daemon_nonce_base : Bytes
  pub confirmation_key : Bytes

-- `deriveKeys`.
unfoldable pub derive_keys : Crypto → Bytes → Bytes → Result DerivedKeys
derive_keys cr secret hash =
    let expand : Text → ℕ → Option Bytes =
      λ info n. cr.hkdf secret hash (protocol_label ++ info) n in
    try (expand (codes " daemon-to-client key") 32) derive_error (λ d2c_key.
      try (expand (codes " daemon-to-client nonce") 12) derive_error (λ d2c_nonce.
        try (expand (codes " client-to-daemon key") 32) derive_error (λ c2d_key.
          try (expand (codes " client-to-daemon nonce") 12) derive_error (λ c2d_nonce.
            try (expand (codes " server confirmation key") 32) derive_error (λ confirm_key.
              ok (record {
                daemon_to_client_key = d2c_key;
                daemon_to_client_nonce_base = d2c_nonce;
                client_to_daemon_key = c2d_key;
                client_to_daemon_nonce_base = c2d_nonce;
                confirmation_key = confirm_key;
              }))))))

-- `transcript`.
unfoldable pub transcript : Crypto → Bytes → Bytes → Bytes → Bytes
transcript cr client_ephemeral daemon_ephemeral daemon_static =
    cr.sha256 (client_ephemeral ++ (daemon_ephemeral ++ (daemon_static ++ protocol_label)))

-- `confirmationPlaintext`.
abbrev pub confirmation_plaintext : Bytes
confirmation_plaintext = protocol_label ++ codes " server confirmation"

-- `zeroNonce`.
abbrev pub zero_nonce : Bytes
zero_nonce = 0 ∷ 0 ∷ 0 ∷ 0 ∷ 0 ∷ 0 ∷ 0 ∷ 0 ∷ 0 ∷ 0 ∷ 0 ∷ 0 ∷ []

abbrev pub framed : FrameRead → Option Bytes
framed (frame b rest) = some b
framed (failed e) = none

-- The channel that an end returns.
abbrev pub new_channel : Aead → Bytes → Aead → Bytes → Channel
new_channel send_aead send_base recv_aead recv_base = record {
  send_aead = send_aead;
  send_base = send_base;
  send_count = 0;
  send_failed = false;
  recv_aead = recv_aead;
  recv_base = recv_base;
  recv_count = 0;
  recv_failed = false;
}

-- The end of `ServerHandshake`, from the derived keys on.
unfoldable pub server_confirm :
    Crypto → Bytes → Bytes → Bytes → Bool → DerivedKeys → Result (Channel × Bytes)
server_confirm cr daemon_ephemeral daemon_static hash accepts keys =
    try (cr.new_aead keys.confirmation_key) aead_error (λ confirm_aead.
      let confirmation = confirm_aead.seal zero_nonce confirmation_plaintext hash in
      let response = daemon_ephemeral ++ (daemon_static ++ confirmation) in
      try (write_frame accepts [] response) write_error (λ out.
        try (cr.new_aead keys.daemon_to_client_key) aead_error (λ send_aead.
          try (cr.new_aead keys.client_to_daemon_key) aead_error (λ recv_aead. ok (
            new_channel send_aead keys.daemon_to_client_nonce_base recv_aead
                keys.client_to_daemon_nonce_base,
            out,
          )))))

-- `ServerHandshake`: the channel, and the bytes that left.
unfoldable pub server_handshake :
    Crypto → Bytes → Option Bytes → Bool → Bytes → Result (Channel × Bytes)
unfolding derive_keys transcript server_confirm
server_handshake cr static_private generated accepts input =
    try (framed (read_frame input)) read_error (λ client_ephemeral.
      if not (cr.is_public client_ephemeral)
      then err invalid_key
      else try generated generate_error (λ ephemeral_private.
        try (cr.ecdh ephemeral_private client_ephemeral) ecdh_error (λ ephemeral_shared.
          try (cr.ecdh static_private client_ephemeral) ecdh_error (λ static_shared.
            let daemon_ephemeral = cr.public ephemeral_private in
            let daemon_static = cr.public static_private in
            let hash = transcript cr client_ephemeral daemon_ephemeral daemon_static in
            and_then (derive_keys cr (ephemeral_shared ++ static_shared) hash)
              (server_confirm cr daemon_ephemeral daemon_static hash accepts)))))

-- The end of `ClientHandshake`, from the derived keys on.
unfoldable pub client_confirm : Crypto → Bytes → Bytes → DerivedKeys → Result Channel
client_confirm cr confirmation hash keys =
    try (cr.new_aead keys.confirmation_key) aead_error (λ confirm_aead.
      try (confirm_aead.unseal zero_nonce confirmation hash) unconfirmed (λ plaintext.
        try (cr.new_aead keys.client_to_daemon_key) aead_error (λ send_aead.
          try (cr.new_aead keys.daemon_to_client_key) aead_error (λ recv_aead. ok (
            new_channel send_aead keys.client_to_daemon_nonce_base recv_aead
              keys.daemon_to_client_nonce_base)))))

-- `ClientHandshake` from the response on.
unfoldable pub client_finish : Crypto → Bytes → Bytes → Bytes → Result Channel
unfolding derive_keys transcript client_confirm
client_finish cr expected_static ephemeral_private response =
    let n = length expected_static in
    let daemon_ephemeral = take n response in
    let advertised_static = take n (drop n response) in
    let confirmation = drop n (drop n response) in
    if ltb (length response) (2 * n)
    then err short_response
    else if not (text_eq advertised_static expected_static)
    then err unexpected_key
    else if not (cr.is_public daemon_ephemeral)
    then err invalid_server_key
    else try (cr.ecdh ephemeral_private daemon_ephemeral) ecdh_error (λ ephemeral_shared.
      try (cr.ecdh ephemeral_private expected_static) ecdh_error (λ static_shared.
        let client_ephemeral = cr.public ephemeral_private in
        let hash = transcript cr client_ephemeral daemon_ephemeral expected_static in
        and_then (derive_keys cr (ephemeral_shared ++ static_shared) hash)
          (client_confirm cr confirmation hash)))

-- `ClientHandshake`: the channel, and the bytes that left.
unfoldable pub client_handshake :
    Crypto → Bytes → Option Bytes → Bool → Bytes → Result (Channel × Bytes)
unfolding client_finish
client_handshake cr expected_static generated accepts input =
    try generated generate_error (λ ephemeral_private.
      try (write_frame accepts [] (cr.public ephemeral_private)) write_error (λ out.
        try (framed (read_frame input)) read_error (λ response.
          and_then (client_finish cr expected_static ephemeral_private response)
            (λ c. ok (c, out)))))
