-- ===== src/Tokenize.antt =====
-- tokenize/tokenize.go: `Tokenize` splits a line into tokens as a shell does, and `QuoteIfNeeded`
-- writes a value so that it is read back. A line is its runes. The two nested loops of `Tokenize`
-- are the two functions of a block: `scan` is at the head of the outer loop, and `scan_quoted` at
-- the head of the inner one.
pub mod RoundTrip
mod Tests
use routercli.Base.{
  ℕ, Bool, true, false, not, ◌&&◌, ◌||◌, List, [], ◌∷◌, ◌++◌, ◌==◌, if◌then◌else◌, Text, codes,
}

-- The error names the quote that was not closed.
pub data Result : Type 0 where
  tokens : List Text → Result
  unterminated : ℕ → Result

pub data Class : Type 0 where
  blank quote plain : Class

-- The outer `switch`.
pub classify : ℕ → Class
classify r =
    if r == b' ' || r == b'\t' then blank else if r == b'"' || r == 39 then quote else plain

-- The test of the escape inside a quoted token: `q` is the quote, `c` and `d` the next two runes.
is_escape : ℕ → ℕ → ℕ → Bool
is_escape q c d = c == b'\\' && q == b'"' && (d == b'"' || d == b'\\')

unfoldable mutual
  unfolding classify is_escape

  pub scan : List Text → Text → Bool → Text → Result
  scan done current in_token [] = tokens (if in_token then done ++ current ∷ [] else done)
  scan done current in_token (r ∷ rs) = elim (classify r) [
    | blank ↦
        scan (if in_token then done ++ current ∷ [] else done) (if in_token then [] else current)
          false rs
    | quote ↦ scan_quoted r done current rs
    | plain ↦ scan done (current ++ r ∷ []) true rs
  ]

  pub scan_quoted : ℕ → List Text → Text → Text → Result
  scan_quoted q done current [] = unterminated q
  scan_quoted q done current (c ∷ []) = elim (c == q) [
    | true ↦ scan done current true []
    | false ↦ scan_quoted q done (current ++ c ∷ []) []
  ]
  scan_quoted q done current (c ∷ d ∷ rs) = elim (is_escape q c d) [
    | true ↦ scan_quoted q done (current ++ d ∷ []) rs
    | false ↦ elim (c == q) [
      | true ↦ scan done current true (d ∷ rs)
      | false ↦ scan_quoted q done (current ++ c ∷ []) (d ∷ rs)
    ]
  ]

unfoldable pub tokenize : Text → Result
unfolding scan scan_quoted
tokenize line = scan [] [] false line

-- `strings.ContainsAny(value, " \t\"'\\")`.
pub is_special : ℕ → Bool
is_special r = r == b' ' || r == b'\t' || r == b'"' || r == 39 || r == b'\\'

pub contains_special : Text → Bool
contains_special [] = false
contains_special (r ∷ rs) = is_special r || contains_special rs

-- `strings.ReplaceAll` of a string of one rune.
pub replace_all : Text → ℕ → Text → Text
replace_all [] old new = []
replace_all (r ∷ rs) old new = (if r == old then new else r ∷ []) ++ replace_all rs old new

pub escape : Text → Text
escape value =
    let slashes = replace_all value b'\\' (b'\\' ∷ b'\\' ∷ []) in
    replace_all slashes b'"' (b'\\' ∷ b'"' ∷ [])

quoted : Text → Text
quoted value = b'"' ∷ (escape value ++ b'"' ∷ [])

unfoldable pub quote_if_needed : Text → Text
unfolding is_special contains_special replace_all escape quoted
quote_if_needed [] = codes "\"\""
quote_if_needed (r ∷ rs) = if not (contains_special (r ∷ rs)) then r ∷ rs else quoted (r ∷ rs)
