-- ===== src/Armorchan/Channel.antt =====
-- armorchan/channel.go. The AEAD is third-party code, given by its two functions. A send is told
-- whether the connection takes its bytes, and appends them to those that left; a receive is given the
-- bytes that will arrive. The mutexes make each of the two one step.
pub mod Nonce
pub mod Delivery
use routercli.Base.{
  ℕ, zero, suc, ◌+◌, ◌-◌, ◌*◌, ◌/◌, ◌%◌, ◌^◌, Bool, true, false, Option, none, some, List, [], ◌∷◌,
  ◌++◌, ◌==◌, if◌then◌else◌, take, drop,
}
use routercli.Armorchan.Frame.{Bytes, FrameError, FrameRead, frame, failed, write_frame, read_frame}

-- `cipher.AEAD`: `Seal` of a nonce, a plaintext and the additional data, and `Open` as `unseal`, `none` where it
-- fails.
pub record Aead : Type 0 where
  pub seal : Bytes → Bytes → Bytes → Bytes
  pub unseal : Bytes → Bytes → Bytes → Option Bytes

pub record Channel : Type 0 where
  pub send_aead : Aead
  pub send_base : Bytes
  pub send_count : ℕ
  pub send_failed : Bool
  pub recv_aead : Aead
  pub recv_base : Bytes
  pub recv_count : ℕ
  pub recv_failed : Bool

-- `math.MaxUint64`.
abbrev pub max_uint64 : ℕ
max_uint64 = 18446744073709551615

-- `binary.BigEndian.PutUint64`.
unfoldable pub put_uint : ℕ → ℕ → Bytes
put_uint zero n = []
put_uint (suc w) n = put_uint w (n / 256) ++ n % 256 ∷ []

-- `^` on integers of `w` bits.
unfoldable pub xor_bits : ℕ → ℕ → ℕ → ℕ
xor_bits zero a b = 0
xor_bits (suc w) a b = (a + b) % 2 + 2 * xor_bits w (a / 2) (b / 2)

-- The loop of `deriveNonce`, over the bytes behind the first four.
unfoldable pub xor_bytes : Bytes → Bytes → Bytes
unfolding xor_bits
xor_bytes [] b = []
xor_bytes (x ∷ a) [] = x ∷ a
xor_bytes (x ∷ a) (y ∷ b) = xor_bits 8 x y ∷ xor_bytes a b

-- `deriveNonce`.
unfoldable pub derive_nonce : Bytes → ℕ → Bytes
unfolding put_uint xor_bytes
derive_nonce base counter = take 4 base ++ xor_bytes (drop 4 base) (put_uint 8 counter)

-- `sequenceAAD`.
unfoldable pub sequence_aad : ℕ → Bytes
unfolding put_uint
sequence_aad counter = put_uint 8 counter

pub data ChannelError : Type 0 where
  channel_faulted nonce_space_exhausted send_error authentication_error : ChannelError
  receive_error : FrameError → ChannelError

pub record Sent : Type 0 where
  pub error : Option ChannelError
  pub channel : Channel
  pub out : Bytes

abbrev pub sent_or_failed : Channel → Bytes → Option Bytes → Sent
sent_or_failed c out none = record {
  error = some send_error;
  channel = record c { send_failed = true };
  out = out;
}
sent_or_failed c out (some out') = record {
  error = none;
  channel = record c { send_count = (c.send_count + 1) % 18446744073709551616 };
  out = out';
}

-- `Send`.
unfoldable pub send : Channel → Bool → Bytes → Bytes → Sent
unfolding derive_nonce sequence_aad
send c accepts out plaintext =
    if c.send_failed
    then record { error = some channel_faulted; channel = c; out = out }
    else if c.send_count == max_uint64
    then record {
      error = some nonce_space_exhausted;
      channel = record c { send_failed = true };
      out = out;
    }
    else (let nonce = derive_nonce c.send_base c.send_count in
        let ciphertext = c.send_aead.seal nonce plaintext (sequence_aad c.send_count) in
        sent_or_failed c out (write_frame accepts out ciphertext))

-- The plaintext or the error, the channel, and the bytes that are left.
pub data Received : Type 0 where
  received : Bytes → Channel → Bytes → Received
  not_received : ChannelError → Channel → Received

abbrev pub fault : Channel → Channel
fault c = record c { recv_failed = true }

abbrev pub opened_or_failed : Channel → Bytes → Option Bytes → Received
opened_or_failed c rest none = not_received authentication_error (fault c)
opened_or_failed c rest (some plaintext) =
    received plaintext (record c { recv_count = (c.recv_count + 1) % 18446744073709551616 }) rest

-- `Receive` behind the frame.
unfoldable pub open_record : Channel → FrameRead → Received
unfolding derive_nonce sequence_aad
open_record c (failed e) = not_received (receive_error e) (fault c)
open_record c (frame ciphertext rest) =
    let nonce = derive_nonce c.recv_base c.recv_count in
    opened_or_failed c rest (c.recv_aead.unseal nonce ciphertext (sequence_aad c.recv_count))

-- `Receive`.
unfoldable pub receive : Channel → Bytes → Received
unfolding open_record
receive c s =
    if c.recv_failed
    then not_received channel_faulted c
    else if c.recv_count == max_uint64
    then not_received nonce_space_exhausted (fault c)
    else open_record c (read_frame s)
