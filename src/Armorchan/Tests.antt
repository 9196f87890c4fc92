-- ===== src/Armorchan/Tests.antt =====
-- Runs of package armorchan with toy primitives, and the theorems at inputs that meet their
-- hypotheses.
use routercli.Base.{
  ℕ, true, some, List, [], ◌∷◌, ◌++◌, ◌≡◌, refl, arith, take, drop, length-append, codes,
}
use routercli.Armorchan.Frame.{Bytes, read_full, failed, frame_too_large, read_body, read_frame}
use routercli.Armorchan.Channel.{Aead, Channel, derive_nonce, put_uint, xor_bytes, xor_bits}
use routercli.Armorchan.Channel.Nonce.{derive_nonce-injective}
use routercli.Armorchan.Channel.Delivery.{IsPaired, send_all, receive_all, receive_all-send_all}
use routercli.Armorchan.Handshake.{
  Crypto, ok, new_channel, derive_keys, client_confirm, server_handshake, client_finish,
  client_handshake,
}
use routercli.Armorchan.Handshake.Parts.{wire, Derives, IsSound, Ciphers, Exchanges}
use routercli.Armorchan.Handshake.Agree.{server_handshake-client_handshake}
use routercli.Armorchan.Handshake.Confirmed.{IsConfirmed, client_finish-IsConfirmed}

abbrev sixteen : Bytes
sixteen = 0 ∷ 0 ∷ 0 ∷ 0 ∷ 0 ∷ 0 ∷ 0 ∷ 0 ∷ 0 ∷ 0 ∷ 0 ∷ 0 ∷ 0 ∷ 0 ∷ 0 ∷ 0 ∷ []

-- Seals by a tag of zeros.
abbrev tagging : Aead
tagging = record {
  seal = λ nonce plaintext aad. sixteen ++ plaintext;
  unseal = λ nonce sealed aad. some (drop 16 sealed);
}

abbrev twelve : Bytes
twelve = 1 ∷ 2 ∷ 3 ∷ 4 ∷ 5 ∷ 6 ∷ 7 ∷ 8 ∷ 9 ∷ 10 ∷ 11 ∷ 12 ∷ []

-- Every key pair has the same public key, and every secret is empty.
abbrev toy : Crypto
toy = record {
  public = λ private. sixteen ++ sixteen;
  is_public = λ key. true;
  ecdh = λ private public. some [];
  sha256 = λ message. [];
  hkdf = λ secret hash info n. some (take n twelve);
  new_aead = λ key. some tagging;
}

nonce_5 : derive_nonce twelve 5 ≡ 1 ∷ 2 ∷ 3 ∷ 4 ∷ 5 ∷ 6 ∷ 7 ∷ 8 ∷ 9 ∷ 10 ∷ 11 ∷ 9 ∷ []
unfolding derive_nonce xor_bytes put_uint xor_bits
nonce_5 = refl

long_frame : read_frame (255 ∷ 0 ∷ 0 ∷ 0 ∷ 7 ∷ []) ≡ failed frame_too_large
unfolding read_frame read_full read_body
long_frame = refl

abbrev five : ℕ
five = 5

derive_nonce-injective_example : five ≡ five
derive_nonce-injective_example =
    derive_nonce-injective twelve five five refl (omega arith) (omega arith) refl

abbrev channel : Channel
channel = new_channel tagging twelve tagging twelve

abbrev messages : List Bytes
messages = codes "enable" ∷ codes "show" ∷ []

receive_all-send_all_example :
    receive_all 2 channel ((send_all channel messages).1 ++ codes "!") ≡ some (messages, codes "!")
receive_all-send_all_example =
    receive_all-send_all channel channel messages (codes "!")
      ((λ n p a. refl), refl, refl, refl, refl) ((λ n a. omega arith), ((λ n a. omega arith), tt))
      (omega arith)

toy-Derives : Derives toy
toy-Derives secret hash info n = (take n twelve, refl)

tagging-IsSound : IsSound tagging
tagging-IsSound nonce plaintext aad = (refl, omega (arith, length-append sixteen plaintext))

toy-Ciphers : Ciphers toy
toy-Ciphers key = (tagging, (refl, tagging-IsSound))

toy-Exchanges : Exchanges toy
toy-Exchanges a b = (refl, refl, ([], (refl, refl)))

server_handshake-client_handshake_example :
    (response : Bytes) × ((d : Channel) × ((c : Channel) × ((server_handshake toy
              (codes "s")
              (some (codes "d"))
              true
              (wire (toy.public (codes "c")))
            ≡ ok (d, wire response))
          × (client_handshake toy (toy.public (codes "s")) (some (codes "c")) true (wire response)
              ≡ ok (c, wire (toy.public (codes "c"))))
          × IsPaired d c
          × IsPaired c d)))
server_handshake-client_handshake_example =
    server_handshake-client_handshake toy (codes "s") (codes "d") (codes "c") toy-Derives
      toy-Ciphers toy-Exchanges

abbrev key : Bytes
key = sixteen ++ sixteen

finished : client_finish toy key (codes "c") (key ++ (key ++ sixteen)) ≡ ok channel
unfolding client_finish derive_keys client_confirm
finished = refl

client_finish-IsConfirmed_example :
    (take 32 (drop 32 (key ++ (key ++ sixteen))) ≡ key)
    × IsConfirmed toy key (codes "c") (key ++ (key ++ sixteen))
client_finish-IsConfirmed_example =
    client_finish-IsConfirmed toy key (codes "c") (key ++ (key ++ sixteen)) channel finished
