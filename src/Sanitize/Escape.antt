-- ===== src/Sanitize/Escape.antt =====
-- What `Field` and `Terminal` write: nothing that a terminal or a record reads as structure below
-- U+0080, and every string can be told from what was written for it.
use routercli.Base.{
  ℕ, ◌+◌, ◌-◌, ◌*◌, ◌/◌, ◌%◌, ◌≤◌, ◌<◌, true, false, List, [], ◌∷◌, ◌++◌, ◌≡◌, ◌≢◌, inl, inr, refl,
  ap, ◌∙◌, map, arith, ltb, ◌==◌, ==_iff, Bool-cases, if◌then◌else◌, All, All-append, Text,
}
use routercli.Sanitize.{
  hex_digit, hex_escape, field_rune, field, terminal_rune, terminal, is_control,
}

-- Neither a control character below U+0020 nor DEL.
abbrev pub IsPrintable : ℕ → Type 0
IsPrintable c = (0x20 ≤ c) × (c ≢ 0x7f)

field_rune-IsPrintable : (r : ℕ) → All IsPrintable (field_rune r)
unfolding field_rune
field_rune-IsPrintable r = ground arith

-- Whatever the string, what `Field` returns has no character below U+0020 and no DEL: no newline, no
-- tab and no escape character.
pub field-IsPrintable : (s : Text) → All IsPrintable (field s)
unfolding field
field-IsPrintable [] = tt
field-IsPrintable (r ∷ s) =
    All-append IsPrintable (field_rune r) (field s) (field_rune-IsPrintable r) (field-IsPrintable s)

-- A reader of the escapes.
pub data Mode : Type 0 where
  normal backslash high : Mode
  low : ℕ → Mode

hex_value : ℕ → ℕ
hex_value c = if ltb c b'a' then c - b'0' else c - b'a' + 10

unescape : ℕ → ℕ
unescape c = if c == b'n' then 10 else if c == b'r' then 13 else if c == b't' then 9 else c

pub decode : Mode → Text → Text
decode m [] = []
decode normal (c ∷ s) = elim (c == b'\\') [
  | true ↦ decode backslash s
  | false ↦ c ∷ decode normal s
]
decode backslash (c ∷ s) = elim (c == b'x') [
  | true ↦ decode high s
  | false ↦ unescape c ∷ decode normal s
]
decode high (c ∷ s) = decode (low (hex_value c)) s
decode (low h) (c ∷ s) = (16 * h + hex_value c) ∷ decode normal s

hex_value-hex_digit : (d : ℕ) → d < 16 → hex_value (hex_digit d) ≡ d
unfolding hex_value hex_digit
hex_value-hex_digit d h = ground arith

decode-hex_escape :
    (r : ℕ) (s : Text) → r < 256 → decode normal (hex_escape r ++ s) ≡ r ∷ decode normal s
unfolding decode hex_escape
decode-hex_escape r s h =
    ap (λ c. c ∷ decode normal s)
      (omega (arith, hex_value-hex_digit (r / 16), hex_value-hex_digit (r % 16)))

decode-field_rune : (r : ℕ) (s : Text) → decode normal (field_rune r ++ s) ≡ r ∷ decode normal s
unfolding field_rune decode unescape
decode-field_rune r s = ground (arith, decode-hex_escape r s)

decode-terminal_rune :
    (r : ℕ) (s : Text) → decode normal (terminal_rune r ++ s) ≡ r ∷ decode normal s
unfolding terminal_rune decode unescape
decode-terminal_rune r s = ground (arith, decode-hex_escape r s)

decode-field : (s : Text) → decode normal (field s) ≡ s
unfolding field decode
decode-field [] = refl
decode-field (r ∷ s) = decode-field_rune r (field s) ∙ ap (◌∷◌ r) (decode-field s)

decode-terminal : (s : Text) → decode normal (terminal s) ≡ s
unfolding terminal decode
decode-terminal [] = refl
decode-terminal (r ∷ s) = decode-terminal_rune r (terminal s) ∙ ap (◌∷◌ r) (decode-terminal s)

-- One reader of escapes gives back every string from what `Field` writes for it and from what
-- `Terminal` does: no two strings share an output of either.
pub decode-escaped : (s : Text) → (decode normal (field s) ≡ s) × (decode normal (terminal s) ≡ s)
decode-escaped s = (decode-field s, decode-terminal s)

-- The lines of a string, and the string of some lines.
abbrev cons_line : ℕ → List Text → List Text
cons_line c [] = (c ∷ []) ∷ []
cons_line c (l ∷ ls) = (c ∷ l) ∷ ls

split_lines : Text → List Text
split_lines [] = [] ∷ []
split_lines (c ∷ s) = if c == 10 then [] ∷ split_lines s else cons_line c (split_lines s)

split_lines-cons : (s : Text) → (l : Text) × (ls : List Text) × (split_lines s ≡ l ∷ ls)
unfolding split_lines
split_lines-cons [] = ([], [], refl)
split_lines-cons (c ∷ s) =
    let (l, ls, e) = split_lines-cons s in
    elim (Bool-cases (c == 10)) [
      | inl new ↦ ([], split_lines s, rw new)
      | inr same ↦ (c ∷ l, ls, rw (same, e))
    ]

-- A printable piece goes in front of the first line.
split_lines-append :
    (a t l : Text) (ls : List Text)
    → All IsPrintable a
    → split_lines t ≡ l ∷ ls
    → split_lines (a ++ t) ≡ (a ++ l) ∷ ls
unfolding split_lines
split_lines-append [] t l ls p e = e
split_lines-append (c ∷ a) t l ls p e =
    let here : (c == 10) ≡ false = ground arith in rw (here, split_lines-append a t l ls p.1 e)

terminal_rune-field_rune : (r : ℕ) → (r == 10) ≡ false → terminal_rune r ≡ field_rune r
unfolding terminal_rune field_rune
terminal_rune-field_rune r h = ground arith

terminal-cons : (r : ℕ) (s : Text) → terminal (r ∷ s) ≡ terminal_rune r ++ terminal s
unfolding terminal
terminal-cons r s = refl

terminal_rune_newline : terminal_rune 10 ≡ 10 ∷ []
unfolding terminal_rune
terminal_rune_newline = refl

field-cons : (r : ℕ) (s : Text) → field (r ∷ s) ≡ field_rune r ++ field s
unfolding field
field-cons r s = refl

field-nil : field [] ≡ []
unfolding field
field-nil = refl

-- `Terminal` keeps the lines of a string, and writes each as `Field` does.
split_lines-terminal : (s : Text) → split_lines (terminal s) ≡ map field (split_lines s)
unfolding split_lines
split_lines-terminal [] = unfold terminal field in refl
split_lines-terminal (r ∷ s) = elim (Bool-cases (r == 10)) [
  | inl e ↦
      rw ((==_iff r 10).0 e, terminal-cons, terminal_rune_newline, field-nil)
        (ap (◌∷◌ []) (split_lines-terminal s))
  | inr e ↦
      let (l, ls, q) = split_lines-cons s in
      rw (terminal-cons, terminal_rune-field_rune r e, e, q, field-cons)
        (split_lines-append (field_rune r) (terminal s) (field l) (map field ls)
          (field_rune-IsPrintable r) (split_lines-terminal s ∙ ap (map field) q))
]

-- A control character from U+0080 to U+009F, the escape introducers of eight bit terminals among
-- them, is left as it is by `Field` and by `Terminal`.
c1_kept :
    (r : ℕ)
    → 0x80 ≤ r
    → r < 0xa0
    → (is_control r ≡ true) × (field (r ∷ []) ≡ r ∷ []) × (terminal (r ∷ []) ≡ r ∷ [])
unfolding is_control field terminal
c1_kept r lo hi = ground arith
