-- ===== src/Sanitize/Validate.antt =====
-- What `ValidateInput` accepts, and where it finds what it refuses.
use routercli.Base.{
  ℕ, ◌+◌, true, false, none, some, List, [], ◌∷◌, ◌++◌, ◌≡◌, ◌↔◌, inl, inr, refl, sym, ap, ◌∙◌,
  arith, ◌==◌, Bool-cases, if◌then◌else◌, All, some-injective, Text,
}
use routercli.Sanitize.{
  Piece, rune, bad_byte, rune_len, size, rune_of, is_control, valid_string, InputError,
  control_character, invalid_utf8, find_invalid, find_control, validate_input, field, terminal,
  slash,
}

abbrev pub IsRune : Piece → Type 0
IsRune (rune r) = Unit
IsRune bad_byte = ⊥

abbrev pub IsSafe : Piece → Type 0
IsSafe (rune r) = is_control r ≡ false
IsSafe bad_byte = ⊥

valid_string_iff : (s : List Piece) → (valid_string s ≡ true) ↔ All IsRune s
unfolding valid_string
valid_string_iff [] = ground arith
valid_string_iff (rune r ∷ s) = ground (arith, valid_string_iff s)
valid_string_iff (bad_byte ∷ s) = ground arith

find_control_iff :
    (i : ℕ) (s : List Piece) → All IsRune s → (find_control i s ≡ none) ↔ All IsSafe s
unfolding find_control
find_control_iff i [] v = ground arith
find_control_iff i (rune r ∷ s) v = ground (arith, find_control_iff (i + rune_len r) s)
find_control_iff i (bad_byte ∷ s) v = absurd v.0

IsSafe-IsRune : (s : List Piece) → All IsSafe s → All IsRune s
IsSafe-IsRune [] h = tt
IsSafe-IsRune (rune r ∷ s) h = (tt, IsSafe-IsRune s h.1)
IsSafe-IsRune (bad_byte ∷ s) h = absurd h.0

-- `ValidateInput` accepts exactly the strings that are UTF-8 and of which no rune is a control
-- character.
pub validate_input_iff : (s : List Piece) → (validate_input s ≡ none) ↔ All IsSafe s
unfolding validate_input
validate_input_iff s = ground (arith, valid_string_iff s, find_control_iff 0 s, IsSafe-IsRune s)

-- The bytes of a string.
abbrev pub byte_len : List Piece → ℕ
byte_len [] = 0
byte_len (p ∷ s) = size p + byte_len s

-- The string splits at the byte that the error names, into pieces of which none is refused for the
-- same reason, and the one that is.
abbrev pub FoundAt : List Piece → InputError → Type 0
FoundAt s (control_character r j) =
    (before : List Piece) × (behind : List Piece) × (s ≡ before ++ rune r ∷ behind)
    × All IsSafe before
    × All IsRune behind
    × (is_control r ≡ true)
    × (j ≡ byte_len before)
FoundAt s (invalid_utf8 j) =
    (before : List Piece) × (behind : List Piece) × (s ≡ before ++ bad_byte ∷ behind)
    × All IsRune before
    × (j ≡ byte_len before)

find_invalid_at :
    (i : ℕ) (s : List Piece)
    → valid_string s ≡ false
    → (before : List Piece) × (behind : List Piece) × (s ≡ before ++ bad_byte ∷ behind)
      × All IsRune before
      × (find_invalid i s ≡ invalid_utf8 (i + byte_len before))
unfolding valid_string find_invalid
find_invalid_at i [] h = cc h
find_invalid_at i (rune r ∷ s) h =
    let (before, behind, split, b, e) = find_invalid_at (i + rune_len r) s h in
    (
      rune r ∷ before,
      behind,
      ap (◌∷◌ (rune r)) split,
      (tt, b),
      rw e (ap invalid_utf8 (omega arith)),
    )
find_invalid_at i (bad_byte ∷ s) h = ([], s, refl, tt, ap invalid_utf8 (omega arith))

find_control_at :
    (i : ℕ) (s : List Piece) (e : InputError)
    → All IsRune s
    → find_control i s ≡ some e
    → (before : List Piece) × (r : ℕ) × (behind : List Piece) × (s ≡ before ++ rune r ∷ behind)
      × All IsSafe before
      × All IsRune behind
      × (is_control r ≡ true)
      × (e ≡ control_character r (i + byte_len before))
unfolding find_control
find_control_at i [] e v h = cc h
find_control_at i (bad_byte ∷ s) e v h = absurd v.0
find_control_at i (rune r ∷ s) e v h = elim (Bool-cases (is_control r)) [
  | inl c ↦ (
    [],
    r,
    s,
    refl,
    tt,
    v.1,
    c,
    sym (some-injective (rw c at h)) ∙ ap (control_character r) (omega arith),
  )
  | inr c ↦
      let (before, q, behind, split, b, w, k, f) =
        find_control_at (i + rune_len r) s e v.1 (rw c at h) in
      (
        rune r ∷ before,
        q,
        behind,
        ap (◌∷◌ (rune r)) split,
        (c, b),
        w,
        k,
        f ∙ ap (control_character q) (omega arith),
      )
]

-- What `ValidateInput` refuses is where its error says: the offset is that of the first byte that is
-- part of no rune, or, in a string that is UTF-8, of the first control character.
validate_input-FoundAt : (s : List Piece) (e : InputError) → validate_input s ≡ some e → FoundAt s e
unfolding validate_input
validate_input-FoundAt s e h = elim (Bool-cases (valid_string s)) [
  | inl v ↦
      let (before, r, behind, split, b, w, c, q) =
        find_control_at 0 s e ((valid_string_iff s).0 v) (rw v at h) in
      rw q (before, behind, split, b, w, c, omega arith)
  | inr v ↦
      let (before, behind, split, b, q) = find_invalid_at 0 s v in
      rw (sym (some-injective (rw v at h)) ∙ q) (before, behind, split, b, omega arith)
]

-- The runes of a string.
abbrev pub runes : List Piece → Text
runes [] = []
runes (p ∷ s) = rune_of p ∷ runes s

-- A string with each backslash doubled.
abbrev pub double_slashes : Text → Text
double_slashes [] = []
double_slashes (r ∷ s) =
    if r == b'\\' then slash b'\\' ++ double_slashes s else r ∷ double_slashes s

IsSafe-field :
    (s : List Piece)
    → All IsSafe s
    → (field (runes s) ≡ double_slashes (runes s)) × (terminal (runes s) ≡ double_slashes (runes s))
unfolding field terminal is_control
IsSafe-field [] v = (refl, refl)
IsSafe-field (rune r ∷ s) v = ground (arith, IsSafe-field s v.1)
IsSafe-field (bad_byte ∷ s) v = absurd v.0

-- Of a string that `ValidateInput` accepts, `Field` and `Terminal` change nothing but the
-- backslashes, which both double.
field-validate_input :
    (s : List Piece)
    → validate_input s ≡ none
    → (field (runes s) ≡ double_slashes (runes s)) × (terminal (runes s) ≡ double_slashes (runes s))
field-validate_input s h = IsSafe-field s ((validate_input_iff s).0 h)
