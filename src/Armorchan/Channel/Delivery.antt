-- ===== src/Armorchan/Channel/Delivery.antt =====
-- What one end of a channel sends, the other receives, in order.
use routercli.Base.{
  ℕ, zero, suc, ◌+◌, ◌%◌, ◌<◌, ◌≤◌, true, false, Option, none, some, List, [], ◌∷◌, ◌++◌, ◌≡◌, refl,
  ap, ◌∙◌, arith, length, append_assoc,
}
use routercli.Armorchan.Frame.{Bytes, max_frame_size, put_uint32, read_frame}
use routercli.Armorchan.Frame.RoundTrip.{write_frame-some, read_frame-put}
use routercli.Armorchan.Channel.{
  Channel, max_uint64, derive_nonce, sequence_aad, send, received, not_received, opened_or_failed,
  open_record, receive,
}

-- Sends that the connection takes: the channel, and the bytes that left.
abbrev pub send_all : Channel → List Bytes → Channel × Bytes
send_all c [] = (c, [])
send_all c (p ∷ ps) =
    let s = send c true [] p in let rest = send_all s.channel ps in (rest.0, s.out ++ rest.1)

-- As many receives as there are messages: what they gave, where none failed.
abbrev pub receive_all : ℕ → Channel → Bytes → Option (List Bytes × Bytes)
receive_all zero c s = some ([], s)
receive_all (suc n) c s = elim (receive c s) [
  | not_received e c' ↦ none
  | received p c' s' ↦ elim (receive_all n c' s') [ none ↦ none | some r ↦ some (p ∷ r.0, r.1) ]
]

-- The peer opens what this end seals, at the same nonce base and count, and neither has failed.
abbrev pub IsPaired : Channel → Channel → Type 0
IsPaired s r =
    ((n p a : Bytes) → r.recv_aead.unseal n (s.send_aead.seal n p a) a ≡ some p)
    × (s.send_base ≡ r.recv_base)
    × (s.send_count ≡ r.recv_count)
    × (s.send_failed ≡ false)
    × (r.recv_failed ≡ false)

-- The sealed message fits a frame, under whichever nonce and data.
abbrev pub FitsFrame : Channel → List Bytes → Type 0
FitsFrame c [] = Unit
FitsFrame c (p ∷ ps) =
    ((n a : Bytes) → length (c.send_aead.seal n p a) ≤ max_frame_size) × FitsFrame c ps

abbrev ciphertext : Channel → Bytes → Bytes
ciphertext c p =
    c.send_aead.seal (derive_nonce c.send_base c.send_count) p (sequence_aad c.send_count)

abbrev counted : Channel → Channel
counted c = record c { send_count = (c.send_count + 1) % 18446744073709551616 }

abbrev counted_recv : Channel → Channel
counted_recv c = record c { recv_count = (c.recv_count + 1) % 18446744073709551616 }

send-ready :
    (c : Channel) (p : Bytes)
    → c.send_failed ≡ false
    → c.send_count < max_uint64
    → length (ciphertext c p) ≤ max_frame_size
    → send c true [] p ≡ record {
      error = none;
      channel = counted c;
      out = put_uint32 (length (ciphertext c p)) ++ ciphertext c p;
    }
unfolding send
send-ready c p h n fits = ground (arith, write_frame-some [] (ciphertext c p) fits)

receive-open_record :
    (r : Channel) (s : Bytes)
    → r.recv_failed ≡ false
    → r.recv_count < max_uint64
    → receive r s ≡ open_record r (read_frame s)
unfolding receive
receive-open_record r s h n = ground arith

unseal-ciphertext :
    (s r : Channel) (p : Bytes)
    → IsPaired s r
    → r.recv_aead.unseal
        (derive_nonce r.recv_base r.recv_count)
        (ciphertext s p)
        (sequence_aad r.recv_count)
      ≡ some p
unseal-ciphertext s r p (opens, base, count, sf, rf) =
    let e = opens (derive_nonce s.send_base s.send_count) p (sequence_aad s.send_count) in cc

receive-ready :
    (s r : Channel) (p rest : Bytes)
    → IsPaired s r
    → s.send_count < max_uint64
    → length (ciphertext s p) ≤ max_frame_size
    → receive r (put_uint32 (length (ciphertext s p)) ++ (ciphertext s p ++ rest))
      ≡ received p (counted_recv r) rest
unfolding open_record
receive-ready s r p rest paired n fits =
    receive-open_record r _ paired.4 (omega (arith, n, paired.2))
    ∙ ap (open_record r) (read_frame-put (ciphertext s p) rest fits)
    ∙ ap (opened_or_failed r rest) (unseal-ciphertext s r p paired)

counted-IsPaired : (s r : Channel) → IsPaired s r → IsPaired (counted s) (counted_recv r)
counted-IsPaired s r (opens, base, count, sf, rf) =
    (opens, base, ap (λ n. (n + 1) % 18446744073709551616) count, sf, rf)

counted-FitsFrame : (c : Channel) (ps : List Bytes) → FitsFrame c ps → FitsFrame (counted c) ps
counted-FitsFrame c [] h = tt
counted-FitsFrame c (p ∷ ps) h = (h.0, counted-FitsFrame c ps h.1)

-- Messages sent one after another over a connection that takes them arrive in their order, each
-- once and as they were, and leave the bytes behind them: where the peer opens what this end seals,
-- with the same nonce base and count, neither end has failed, each sealed message fits a frame, and
-- the count does not run out.
pub receive_all-send_all :
    (s r : Channel) (ps : List Bytes) (rest : Bytes)
    → IsPaired s r
    → FitsFrame s ps
    → s.send_count + length ps ≤ max_uint64
    → receive_all (length ps) r ((send_all s ps).1 ++ rest) ≡ some (ps, rest)
receive_all-send_all s r [] rest paired fits n = refl
receive_all-send_all s r (p ∷ ps) rest paired fits n =
    let room : s.send_count < max_uint64 = omega (arith, n) in
    let fits_p = fits.0 (derive_nonce s.send_base s.send_count) (sequence_aad s.send_count) in
    let again =
      receive_all-send_all (counted s) (counted_recv r) ps rest (counted-IsPaired s r paired)
        (counted-FitsFrame s ps fits.1) (omega (arith, n)) in
    let later = (send_all (counted s) ps).1 in
    rw
      (
        send-ready s p paired.3 room fits_p,
        append_assoc (ciphertext s p) later rest,
        receive-ready s r p (later ++ rest) paired room fits_p,
        again,
        receive_all,
      )
      refl
