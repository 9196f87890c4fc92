-- ===== src/Tokenize/RoundTrip.antt =====
-- What `QuoteIfNeeded` writes, `Tokenize` reads back.
use routercli.Base.{
  ℕ, Bool, true, false, List, [], ◌∷◌, ◌++◌, ◌≡◌, inl, inr, refl, ◌∙◌, map, arith, ◌==◌, ==_iff,
  if◌then◌else◌, Bool-cases, Text, codes, join, join_from, append_assoc, append-nil,
}
use routercli.Tokenize.{
  plain, tokens, classify, scan, scan_quoted, tokenize, is_special, contains_special, replace_all,
  escape, quoted, quote_if_needed,
}

-- What the two replacements make of one rune.
escape_rune : ℕ → Text
escape_rune r =
    if r == b'\\' then b'\\' ∷ b'\\' ∷ [] else if r == b'"' then b'\\' ∷ b'"' ∷ [] else r ∷ []

escape_runes : Text → Text
escape_runes [] = []
escape_runes (r ∷ rs) = escape_rune r ++ escape_runes rs

escape-runes : (v : Text) → escape v ≡ escape_runes v
unfolding escape escape_runes escape_rune replace_all
escape-runes [] = refl
escape-runes (r ∷ rs) = ground (arith, escape-runes rs)

-- The inner loop at a rune that is neither a backslash nor the closing quote.
scan_quoted_plain :
    (c : ℕ) (rest : Text) (done : List Text) (current : Text)
    → (c == b'\\') ≡ false
    → (c == b'"') ≡ false
    → scan_quoted b'"' done current (c ∷ rest) ≡ scan_quoted b'"' done (current ++ c ∷ []) rest
unfolding scan scan_quoted
scan_quoted_plain c [] done current s q = rw (q, scan_quoted)
scan_quoted_plain c (d ∷ rest) done current s q = rw (s, scan_quoted) (rw (q, scan_quoted))

scan_quoted_close :
    (rest : Text) (done : List Text) (current : Text)
    → scan_quoted b'"' done current (b'"' ∷ rest) ≡ scan done current true rest
unfolding scan scan_quoted
scan_quoted_close [] done current = refl
scan_quoted_close (d ∷ rest) done current = refl

scan_quoted_rune :
    (c : ℕ) (rest : Text) (done : List Text) (current : Text)
    → scan_quoted b'"' done current (escape_rune c ++ rest)
      ≡ scan_quoted b'"' done (current ++ c ∷ []) rest
unfolding escape_rune
scan_quoted_rune c rest done current = elim (Bool-cases (c == b'\\')) [
  | inl s ↦ rw ((==_iff c b'\\').0 s) (unfold scan_quoted in refl)
  | inr s ↦ elim (Bool-cases (c == b'"')) [
    | inl q ↦ rw ((==_iff c b'"').0 q) (unfold scan_quoted in refl)
    | inr q ↦ rw (s, q) (scan_quoted_plain c rest done current s q)
  ]
]

-- The inner loop reads an escaped value up to the closing quote.
scan_quoted_runes :
    (v rest : Text) (done : List Text) (current : Text)
    → scan_quoted b'"' done current (escape_runes v ++ b'"' ∷ rest)
      ≡ scan done (current ++ v) true rest
unfolding escape_runes
scan_quoted_runes [] rest done current = rw append-nil (scan_quoted_close rest done current)
scan_quoted_runes (r ∷ v) rest done current = rw append_assoc (
    scan_quoted_rune r (escape_runes v ++ b'"' ∷ rest) done current
    ∙ scan_quoted_runes v rest done (current ++ r ∷ [])
    ∙ rw append_assoc)

classify_special : (r : ℕ) → is_special r ≡ false → classify r ≡ plain
unfolding is_special classify
classify_special r h = ground arith

-- The outer loop reads the runes of a value that needs no quotes.
scan_step :
    (r : ℕ) (rest : Text) (done : List Text) (current : Text) (b : Bool)
    → is_special r ≡ false
    → scan done current b (r ∷ rest) ≡ scan done (current ++ r ∷ []) true rest
unfolding scan scan_quoted
scan_step r rest done current b h = rw (classify_special r h, scan)

scan_plain :
    (v rest : Text) (done : List Text) (current : Text)
    → contains_special v ≡ false
    → scan done current true (v ++ rest) ≡ scan done (current ++ v) true rest
unfolding contains_special
scan_plain [] rest done current h = rw append-nil
scan_plain (r ∷ v) rest done current h =
    scan_step r (v ++ rest) done current true (ground arith)
    ∙ scan_plain v rest done (current ++ r ∷ []) (ground arith)
    ∙ rw append_assoc

scan_special :
    (v rest : Text) (done : List Text)
    → scan done [] false (quoted v ++ rest) ≡ scan done v true rest
unfolding quoted scan scan_quoted
scan_special v rest done = rw (escape-runes v, append_assoc) (scan_quoted_runes v rest done [])

-- Whatever the value, the outer loop reads what `QuoteIfNeeded` wrote and holds the value.
scan-quote_if_needed :
    (v rest : Text) (done : List Text)
    → scan done [] false (quote_if_needed v ++ rest) ≡ scan done v true rest
unfolding quote_if_needed
scan-quote_if_needed [] rest done = unfold scan scan_quoted in scan_quoted_close rest done []
scan-quote_if_needed (r ∷ v) rest done = elim (Bool-cases (contains_special (r ∷ v))) [
  | inl e ↦ rw (e, quote_if_needed) (scan_special (r ∷ v) rest done)
  | inr e ↦
      rw (e, quote_if_needed)
        (scan_step r (v ++ rest) done [] false (unfold contains_special in ground arith)
          ∙ scan_plain v rest done (r ∷ []) (unfold contains_special in ground arith))
]

scan_end : (v : Text) (done : List Text) → scan done v true [] ≡ tokens (done ++ v ∷ [])
unfolding scan scan_quoted
scan_end v done = refl

scan_blank :
    (v rest : Text) (done : List Text)
    → scan done v true (b' ' ∷ rest) ≡ scan (done ++ v ∷ []) [] false rest
unfolding scan scan_quoted
scan_blank v rest done = refl

scan_join :
    (v : Text) (vs : List Text) (done : List Text)
    → scan done [] false (join_from (quote_if_needed v) (map quote_if_needed vs) (b' ' ∷ []))
      ≡ tokens (done ++ v ∷ vs)
scan_join v [] done = rw append-nil at (scan-quote_if_needed v [] done) ∙ scan_end v done
scan_join v (w ∷ vs) done =
    scan-quote_if_needed v _ done
    ∙ scan_blank v _ done
    ∙ scan_join w vs (done ++ v ∷ [])
    ∙ rw append_assoc

-- For every list of values, whatever runes they hold and empty ones included, the line that has
-- `QuoteIfNeeded` of each, joined by single spaces, is split by `Tokenize` into exactly those
-- values, in order, and is never refused for an unterminated quote.
pub tokenize-join-quote_if_needed :
    (vs : List Text) → tokenize (join (map quote_if_needed vs) (codes " ")) ≡ tokens vs
unfolding tokenize scan scan_quoted
tokenize-join-quote_if_needed [] = refl
tokenize-join-quote_if_needed (v ∷ vs) = scan_join v vs []
