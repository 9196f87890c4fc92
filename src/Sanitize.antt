-- ===== src/Sanitize.antt =====
-- sanitize/sanitize.go. `Field` and `Terminal` walk a string by its runes, an undecodable byte being
-- U+FFFD as under `range`; `ValidateInput` is given the string as `range` cuts it, into runes and
-- bytes that are part of none.
pub mod Escape
pub mod Validate
mod Tests
use routercli.Base.{
  ℕ, suc, ◌+◌, ◌-◌, ◌/◌, ◌%◌, Bool, true, false, not, ◌&&◌, ◌||◌, Option, none, some, List, [], ◌∷◌,
  ◌++◌, ltb, leb, ◌==◌, if◌then◌else◌, Text, codes,
}

-- A digit of `%02x`.
pub hex_digit : ℕ → ℕ
hex_digit d = if ltb d 10 then b'0' + d else b'a' + (d - 10)

-- `\x%02x`, at a rune below 256.
pub hex_escape : ℕ → Text
hex_escape r = b'\\' ∷ b'x' ∷ hex_digit (r / 16) ∷ hex_digit (r % 16) ∷ []

abbrev pub slash : ℕ → Text
slash c = b'\\' ∷ c ∷ []

-- The `switch` of `Field`.
unfoldable pub field_rune : ℕ → Text
unfolding hex_digit hex_escape
field_rune r =
    if r == 10
    then slash b'n'
    else if r == 13
    then slash b'r'
    else if r == 9
    then slash b't'
    else if r == b'\\'
    then slash b'\\'
    else if ltb r 0x20 || r == 0x7f
    then hex_escape r
    else r ∷ []

-- `Field`.
unfoldable pub field : Text → Text
unfolding field_rune
field [] = []
field (r ∷ s) = field_rune r ++ field s

-- The `switch` of `Terminal`.
unfoldable pub terminal_rune : ℕ → Text
unfolding hex_digit hex_escape
terminal_rune r =
    if r == 10
    then r ∷ []
    else if r == 9
    then slash b't'
    else if r == 13
    then slash b'r'
    else if r == b'\\'
    then slash b'\\'
    else if ltb r 0x20 || r == 0x7f
    then hex_escape r
    else r ∷ []

-- `Terminal`.
unfoldable pub terminal : Text → Text
unfolding terminal_rune
terminal [] = []
terminal (r ∷ s) = terminal_rune r ++ terminal s

-- One step of `range` over a string.
pub data Piece : Type 0 where
  rune : ℕ → Piece
  bad_byte : Piece

-- The bytes of a rune in UTF-8.
abbrev pub rune_len : ℕ → ℕ
rune_len r = if ltb r 0x80 then 1 else if ltb r 0x800 then 2 else if ltb r 0x10000 then 3 else 4

abbrev pub size : Piece → ℕ
size (rune r) = rune_len r
size bad_byte = 1

-- The rune that `range` yields.
abbrev pub rune_of : Piece → ℕ
rune_of (rune r) = r
rune_of bad_byte = 0xfffd

-- `unicode.IsControl`.
unfoldable pub is_control : ℕ → Bool
is_control r = ltb r 0x20 || (leb 0x7f r && ltb r 0xa0)

-- `utf8.ValidString`.
unfoldable pub valid_string : List Piece → Bool
valid_string [] = true
valid_string (rune r ∷ s) = valid_string s
valid_string (bad_byte ∷ s) = false

pub data InputError : Type 0 where
  control_character : ℕ → ℕ → InputError
  invalid_utf8 : ℕ → InputError

-- The loop that looks for the first undecodable byte; `i` is the offset.
unfoldable pub find_invalid : ℕ → List Piece → InputError
find_invalid i [] = invalid_utf8 0
find_invalid i (rune r ∷ s) = find_invalid (i + rune_len r) s
find_invalid i (bad_byte ∷ s) = invalid_utf8 i

-- The loop that looks for the first control character.
unfoldable pub find_control : ℕ → List Piece → Option InputError
unfolding is_control
find_control i [] = none
find_control i (p ∷ s) =
    if is_control (rune_of p)
    then some (control_character (rune_of p) i)
    else find_control (i + size p) s

-- `ValidateInput`: `none` is a nil error.
unfoldable pub validate_input : List Piece → Option InputError
unfolding valid_string find_invalid find_control
validate_input s = if not (valid_string s) then some (find_invalid 0 s) else find_control 0 s

-- `IsSafeInput`.
unfoldable pub is_safe_input : List Piece → Bool
unfolding validate_input
is_safe_input s = elim (validate_input s) [ none ↦ true | some e ↦ false ]
