-- ===== src/Armorchan/Frame/RoundTrip.antt =====
-- A frame that was written is read back.
use routercli.Base.{ℕ, ◌≤◌, true, false, some, [], ◌∷◌, ◌++◌, ◌≡◌, refl, arith, ltb, length}
use routercli.Armorchan.Frame.{
  Bytes, max_frame_size, put_uint32, uint32, write_frame, read_full, frame, read_body, read_frame,
}

uint32-put_uint32 : (n : ℕ) → n ≤ max_frame_size → uint32 (put_uint32 n) ≡ n
uint32-put_uint32 n h = omega arith

read_full-append : (b rest : Bytes) → read_full (length b) (b ++ rest) ≡ some (b, rest)
unfolding read_full
read_full-append [] rest = refl
read_full-append (x ∷ b) rest = rw (read_full-append b rest) refl

not_too_large : (n : ℕ) → n ≤ max_frame_size → ltb max_frame_size n ≡ false
not_too_large n h = ground arith

pub write_frame-some :
    (out b : Bytes)
    → length b ≤ max_frame_size
    → write_frame true out b ≡ some (out ++ (put_uint32 (length b) ++ b))
unfolding write_frame
write_frame-some out b h = rw (not_too_large (length b) h) refl

pub read_frame-put :
    (b rest : Bytes)
    → length b ≤ max_frame_size
    → read_frame (put_uint32 (length b) ++ (b ++ rest)) ≡ frame b rest
unfolding read_frame read_full read_body
read_frame-put b rest h =
    rw (uint32-put_uint32 (length b) h, not_too_large (length b) h, read_full-append b rest) refl
