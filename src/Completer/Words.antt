-- ===== src/Completer/Words.antt =====
-- The words of a line that is rewritten: strings.Fields, strings.Join, and the blanks between.
use routercli.Base.{
  ℕ, true, false, List, [], ◌∷◌, ◌++◌, ◌≡◌, ◌≢◌, inl, inr, refl, sym, ap, subst, ◌∙◌, arith,
  append-nil, append_assoc, All, Text, codes, text_eq_iff, join, join_from, is_space, Bool-cases,
  ◌==◌, ==_iff,
}
use routercli.Command.Help.Layout.{fields, fields_from, flush}
use routercli.Completer.{ends_in_space, with_space}

-- A word is not empty and has no white space.
abbrev pub IsSolid : Text → Type 0
IsSolid s = All (λ r. is_space r ≡ false) s

abbrev pub IsWord : Text → Type 0
IsWord s = (s ≢ []) × IsSolid s

-- Reading a word, and then a blank or the end.
fields_from-word :
    (acc w s : Text) → IsSolid w → fields_from acc (w ++ s) ≡ fields_from (acc ++ w) s
unfolding fields_from
fields_from-word acc [] s h = ap (λ a. fields_from a s) (sym (append-nil acc))
fields_from-word acc (r ∷ w) s h = rw h.0 (
    fields_from-word (acc ++ r ∷ []) w s h.1
    ∙ ap (λ a. fields_from a s) (append_assoc acc (r ∷ []) w))

flush-some : (w : Text) (l : List Text) → w ≢ [] → flush w l ≡ w ∷ l
flush-some [] l h = absurd (h refl)
flush-some (r ∷ w) l h = refl

fields-blank : (w s : Text) → IsWord w → fields (w ++ (b' ' ∷ s)) ≡ w ∷ fields s
unfolding fields fields_from
fields-blank w s h = fields_from-word [] w (b' ' ∷ s) h.1 ∙ flush-some w (fields_from [] s) h.0

pub fields-end : (w : Text) → IsWord w → fields w ≡ w ∷ []
unfolding fields fields_from
fields-end w h =
    ap (fields_from []) (sym (append-nil w)) ∙ (fields_from-word [] w [] h.1 ∙ flush-some w [] h.0)

-- Words, each with a blank behind it.
abbrev pub blanked : List Text → Text
blanked [] = []
blanked (w ∷ ws) = w ++ (b' ' ∷ blanked ws)

pub blanked-append : (ws vs : List Text) → blanked (ws ++ vs) ≡ blanked ws ++ blanked vs
blanked-append [] vs = refl
blanked-append (w ∷ ws) vs =
    ap (λ s. w ++ (b' ' ∷ s)) (blanked-append ws vs)
    ∙ sym (append_assoc w (b' ' ∷ blanked ws) (blanked vs))

pub fields-blanked :
    (ws : List Text) (s : Text) → All IsWord ws → fields (blanked ws ++ s) ≡ ws ++ fields s
fields-blanked [] s k = refl
fields-blanked (w ∷ ws) s k =
    ap fields (append_assoc w (b' ' ∷ blanked ws) s)
    ∙ (fields-blank w (blanked ws ++ s) k.0 ∙ ap (◌∷◌ w) (fields-blanked ws s k.1))

blank_not_solid {ℓ} : {A : Type ℓ} (r : ℕ) → (r == b' ') ≡ true → is_space r ≡ false → A
blank_not_solid r e h = cc (subst (λ n. is_space n ≡ false) ((==_iff r b' ').0 e) h)

pub ends_in_space-solid : (s : Text) → IsSolid s → ends_in_space s ≡ false
unfolding ends_in_space
ends_in_space-solid [] h = refl
ends_in_space-solid (r ∷ []) h = elim (Bool-cases (r == b' ')) [
  | inl e ↦ blank_not_solid r e h.0
  | inr e ↦ e
]
ends_in_space-solid (r ∷ q ∷ s) h = ends_in_space-solid (q ∷ s) h.1

pub ends_in_space-append : (a b : Text) → b ≢ [] → ends_in_space (a ++ b) ≡ ends_in_space b
unfolding ends_in_space
ends_in_space-append [] b n = refl
ends_in_space-append (r ∷ []) [] n = absurd (n refl)
ends_in_space-append (r ∷ []) (q ∷ b) n = refl
ends_in_space-append (r ∷ s ∷ a) b n = ends_in_space-append (s ∷ a) b n

join_from_some : (w : Text) (ws : List Text) → w ≢ [] → join_from w ws (codes " ") ≢ []
join_from_some [] ws n = absurd (n refl)
join_from_some (r ∷ w) [] n = λ e. cc
join_from_some (r ∷ w) (v ∷ ws) n = λ e. cc

ends_in_space-join_from :
    (w : Text) (ws : List Text)
    → IsWord w
    → All IsWord ws
    → ends_in_space (join_from w ws (codes " ")) ≡ false
ends_in_space-join_from w [] h k = ends_in_space-solid w h.1
ends_in_space-join_from w (v ∷ ws) h k =
    ends_in_space-append w (b' ' ∷ join_from v ws (codes " ")) (λ e. cc)
    ∙ (ends_in_space-append (b' ' ∷ []) (join_from v ws (codes " ")) (join_from_some v ws k.0.0)
        ∙ ends_in_space-join_from v ws k.0 k.1)

blanked_some : (w : Text) (ws : List Text) → blanked (w ∷ ws) ≢ []
blanked_some [] ws = λ e. cc
blanked_some (r ∷ w) ws = λ e. cc

pub ends_in_space-blanked : (w : Text) (ws : List Text) → ends_in_space (blanked (w ∷ ws)) ≡ true
unfolding ends_in_space
ends_in_space-blanked w [] = ends_in_space-append w (b' ' ∷ []) (λ e. cc)
ends_in_space-blanked w (v ∷ ws) =
    ends_in_space-append w (b' ' ∷ blanked (v ∷ ws)) (λ e. cc)
    ∙ (ends_in_space-append (b' ' ∷ []) (blanked (v ∷ ws)) (blanked_some v ws)
        ∙ ends_in_space-blanked v ws)

with_space_same : (s : Text) → ends_in_space s ≡ true → with_space s ≡ s
with_space_same s e = ground arith

with_space_more : (s : Text) → s ≢ [] → ends_in_space s ≡ false → with_space s ≡ s ++ codes " "
with_space_more s n e = ground (arith, text_eq_iff s [])

with_space-blanked : (ws : List Text) → with_space (blanked ws) ≡ blanked ws
unfolding ends_in_space
with_space-blanked [] = refl
with_space-blanked (w ∷ ws) = with_space_same (blanked (w ∷ ws)) (ends_in_space-blanked w ws)

join_from-blank :
    (w : Text) (ws : List Text) → join_from w ws (codes " ") ++ codes " " ≡ blanked (w ∷ ws)
join_from-blank w [] = refl
join_from-blank w (v ∷ ws) =
    append_assoc w (b' ' ∷ join_from v ws (codes " ")) (codes " ")
    ∙ ap (λ s. w ++ (b' ' ∷ s)) (join_from-blank v ws)

not_nil_append : (a b : Text) → b ≢ [] → a ++ b ≢ []
not_nil_append [] b n = n
not_nil_append (r ∷ a) b n = λ e. cc

-- A line of words of which the last ones are joined, with the blank that it lacks.
pub with_space-joined :
    (ws vs : List Text)
    → All IsWord vs
    → with_space (blanked ws ++ join vs (codes " ")) ≡ blanked (ws ++ vs)
with_space-joined ws [] k =
    ap with_space (append-nil (blanked ws))
    ∙ (with_space-blanked ws ∙ ap blanked (sym (append-nil ws)))
with_space-joined ws (v ∷ vs) k =
    let joined = join_from v vs (codes " ") in
    let some_text = join_from_some v vs k.0.0 in
    with_space_more (blanked ws ++ joined) (not_nil_append (blanked ws) joined some_text)
      (ends_in_space-append (blanked ws) joined some_text ∙ ends_in_space-join_from v vs k.0 k.1)
    ∙ (append_assoc (blanked ws) joined (codes " ")
        ∙ (ap (λ s. blanked ws ++ s) (join_from-blank v vs) ∙ sym (blanked-append ws (v ∷ vs))))
