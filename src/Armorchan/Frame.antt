-- ===== src/Armorchan/Frame.antt =====
-- armorchan/frame.go. A byte is a number below 256. What is written is appended to the bytes that
-- left; `accepts` says whether the writer takes them. What is read is the list of the bytes that
-- will arrive before the stream ends.
pub mod RoundTrip
use routercli.Base.{
  ℕ, zero, suc, ◌+◌, ◌*◌, ◌/◌, ◌%◌, ◌^◌, Bool, true, false, not, Option, none, some, List, [], ◌∷◌,
  ◌++◌, ltb, if◌then◌else◌, length,
}

abbrev pub Bytes : Type 0
Bytes = List ℕ

-- `MaxFrameSize`, 1 << 20.
abbrev pub max_frame_size : ℕ
max_frame_size = 1048576

-- `binary.BigEndian.PutUint32`.
abbrev pub put_uint32 : ℕ → Bytes
put_uint32 n = n / 16777216 % 256 ∷ n / 65536 % 256 ∷ n / 256 % 256 ∷ n % 256 ∷ []

-- `binary.BigEndian.Uint32`.
abbrev pub uint32 : Bytes → ℕ
uint32 (a ∷ b ∷ c ∷ d ∷ rest) = a * 16777216 + b * 65536 + c * 256 + d
uint32 _ = 0

-- `writeFrame`: the bytes that left, or `none` for an error.
unfoldable pub write_frame : Bool → Bytes → Bytes → Option Bytes
write_frame accepts out b =
    if ltb max_frame_size (length b)
    then none
    else if not accepts
    then none
    else some (out ++ (put_uint32 (length b) ++ b))

-- `io.ReadFull` of `n` bytes: the bytes, and those that are left.
unfoldable pub read_full : ℕ → Bytes → Option (Bytes × Bytes)
read_full zero s = some ([], s)
read_full (suc n) [] = none
read_full (suc n) (x ∷ s) = elim (read_full n s) [ none ↦ none | some p ↦ some (x ∷ p.0, p.1) ]

pub data FrameError : Type 0 where
  no_length no_body frame_too_large : FrameError

pub data FrameRead : Type 0 where
  frame : Bytes → Bytes → FrameRead
  failed : FrameError → FrameRead

-- The part of `readFrame` behind the length.
unfoldable pub read_body : ℕ → Bytes → FrameRead
read_body n s =
    if ltb max_frame_size n
    then failed frame_too_large
    else elim (read_full n s) [ none ↦ failed no_body | some p ↦ frame p.0 p.1 ]

-- `readFrame`.
unfoldable pub read_frame : Bytes → FrameRead
unfolding read_full read_body
read_frame s = elim (read_full 4 s) [
  | none ↦ failed no_length
  | some p ↦ read_body (uint32 p.0) p.1
]
