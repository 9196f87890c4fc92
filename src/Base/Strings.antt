-- ===== src/Base/Strings.antt =====
-- Go strings as lists of numbers: the bytes where the source compares whole words, the runes where
-- it walks them.
use Prim.Native.Char.{code}
use Prim.Native.String.{String}
use Prim.Native.Nat.{ℕ, compare, Ordering}
use mathlib.Core.Path.{◌≡◌, refl}
use mathlib.Core.Logic.{◌↔◌}
use mathlib.Core.Bool.{Bool, true, false, ◌&&◌, ◌||◌}
use mathlib.Core.List.{List, [], ◌∷◌, ◌++◌}
use native.Mathlib.Omega.{arith}
use routercli.Base.Tests.{◌==◌, leb, if◌then◌else◌}

abbrev pub Text : Type 0
Text = List ℕ

-- The code points of a literal. Every literal of the development is ASCII.
abbrev pub codes : String → Text
codes String.[] = []
codes (String.◌∷◌ c s) = code c ∷ codes s

-- `==` on strings.
abbrev pub text_eq : Text → Text → Bool
text_eq [] [] = true
text_eq (x ∷ a) (y ∷ b) = x == y && text_eq a b
text_eq _ _ = false

pub text_eq_iff : (a b : Text) → (text_eq a b ≡ true) ↔ (a ≡ b)
text_eq_iff (x ∷ a) (y ∷ b) = ground (arith, text_eq_iff a b)
text_eq_iff _ _ = ground arith

pub text_eq_refl : (a : Text) → text_eq a a ≡ true
text_eq_refl a = (text_eq_iff a a).1 refl

-- `strings.HasPrefix`.
abbrev pub has_prefix : Text → Text → Bool
has_prefix s [] = true
has_prefix [] (y ∷ p) = false
has_prefix (x ∷ s) (y ∷ p) = x == y && has_prefix s p

-- `strings.Contains`.
abbrev pub contains : Text → Text → Bool
contains [] sub = has_prefix [] sub
contains (x ∷ s) sub = has_prefix (x ∷ s) sub || contains s sub

-- `strings.Join`.
abbrev pub join_from : Text → List Text → Text → Text
join_from first [] sep = first
join_from first (w ∷ ws) sep = first ++ (sep ++ join_from w ws sep)

abbrev pub join : List Text → Text → Text
join [] sep = []
join (w ∷ ws) sep = join_from w ws sep

-- The byte order that `sort.Strings` uses.
abbrev pub text_leb : Text → Text → Bool
text_leb [] b = true
text_leb (x ∷ a) [] = false
text_leb (x ∷ a) (y ∷ b) = elim (compare x y) [
  | Ordering.lt ↦ true
  | Ordering.eq ↦ text_leb a b
  | Ordering.gt ↦ false
]

-- `unicode.IsSpace`.
abbrev pub is_space : ℕ → Bool
is_space r =
    (leb 9 r && leb r 13)
    || r == 32
    || r == 133
    || r == 160
    || r == 5760
    || (leb 8192 r && leb r 8202)
    || r == 8232
    || r == 8233
    || r == 8239
    || r == 8287
    || r == 12288

abbrev pub trim_left : Text → Text
trim_left [] = []
trim_left (r ∷ s) = if is_space r then trim_left s else r ∷ s

abbrev pub trim_right : Text → Text
trim_right [] = []
trim_right (r ∷ s) =
    let rest = trim_right s in if is_space r && text_eq rest [] then [] else r ∷ rest

-- `strings.TrimSpace`.
unfoldable pub trim_space : Text → Text
trim_space s = trim_right (trim_left s)

abbrev pub push_first : ℕ → List Text → List Text
push_first r [] = (r ∷ []) ∷ []
push_first r (w ∷ ws) = (r ∷ w) ∷ ws

-- `strings.Split` at a separator of one rune.
unfoldable pub split : ℕ → Text → List Text
split sep [] = [] ∷ []
split sep (r ∷ s) = let rest = split sep s in if r == sep then [] ∷ rest else push_first r rest
