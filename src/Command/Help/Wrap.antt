-- ===== src/Command/Help/Wrap.antt =====
-- What wrapping keeps.
use routercli.Base.{
  ℕ, ◌+◌, ◌≤◌, false, List, [], ◌∷◌, ◌++◌, ◌≡◌, ◌≢◌, ◌⊎◌, inl, inr, refl, ap, ◌∙◌, arith,
  append_assoc, ltb, length, length-append, All, Text, codes, join, join_from, Bool-cases,
}
use routercli.Command.Roles.Gate.{Has}
use routercli.Command.Help.Layout.{fields, wrap_from, wrap_words, wrap_text}

abbrev sep : Text
sep = codes " "

join-cons : (a : Text) (l : List Text) → l ≢ [] → join (a ∷ l) sep ≡ a ++ (b' ' ∷ join l sep)
join-cons a [] h = absurd (h refl)
join-cons a (b ∷ l) h = refl

join-glued :
    (last word : Text) (words : List Text)
    → join ((last ++ (b' ' ∷ word)) ∷ words) sep ≡ last ++ (b' ' ∷ join (word ∷ words) sep)
join-glued last word [] = refl
join-glued last word (w ∷ words) = append_assoc last (b' ' ∷ word) (sep ++ join_from w words sep)

wrap_from_some : (width : ℕ) (last : Text) (words : List Text) → wrap_from width last words ≢ []
unfolding wrap_from
wrap_from_some width last [] = λ h. cc
wrap_from_some width last (word ∷ words) =
    elim (Bool-cases (ltb width (length last + 1 + length word))) [
      | inl e ↦ rw e (λ h. cc)
      | inr e ↦ rw e (wrap_from_some width (last ++ (b' ' ∷ word)) words)
    ]

-- The words of the lines, a line after another, are the words.
join-wrap_from :
    (width : ℕ) (last : Text) (words : List Text)
    → join (wrap_from width last words) sep ≡ join (last ∷ words) sep
unfolding wrap_from
join-wrap_from width last [] = refl
join-wrap_from width last (word ∷ words) =
    elim (Bool-cases (ltb width (length last + 1 + length word))) [
      | inl e ↦ rw e (
          join-cons last (wrap_from width word words) (wrap_from_some width word words)
          ∙ ap (λ x. last ++ (b' ' ∷ x)) (join-wrap_from width word words))
      | inr e ↦
          rw e (join-wrap_from width (last ++ (b' ' ∷ word)) words ∙ join-glued last word words)
    ]

-- A line fits, or it is one of the words alone.
abbrev pub Fits : ℕ → List Text → Text → Type 0
Fits width words line = (length line ≤ width) ⊎ Has line words

glued :
    (width : ℕ) (last word : Text)
    → ltb width (length last + 1 + length word) ≡ false
    → length (last ++ (b' ' ∷ word)) ≤ width
glued width last word e = ground (arith, length-append last (b' ' ∷ word))

-- The word that starts a line is one of the words, and a word that is added to a line fits.
wrap_from-Fits :
    (width : ℕ) (all : List Text) (last : Text) (words : List Text)
    → Fits width all last
    → All (λ w. Has w all) words
    → All (Fits width all) (wrap_from width last words)
unfolding wrap_from
wrap_from-Fits width all last [] h k = (h, tt)
wrap_from-Fits width all last (word ∷ words) h k =
    elim (Bool-cases (ltb width (length last + 1 + length word))) [
      | inl e ↦ rw e (h, wrap_from-Fits width all word words (inr k.0) k.1)
      | inr e ↦ rw e (
          wrap_from-Fits width all (last ++ (b' ' ∷ word)) words (inl (glued width last word e))
            k.1)
    ]

Has-all : (l all : List Text) → ((r : Text) → Has r l → Has r all) → All (λ w. Has w all) l
Has-all [] all h = tt
Has-all (a ∷ l) all h = (h a (inl refl), Has-all l all (λ r k. h r (inr k)))

wrap_words-Fits : (width : ℕ) (words : List Text) → All (Fits width words) (wrap_words width words)
wrap_words-Fits width [] = tt
wrap_words-Fits width (word ∷ words) =
    wrap_from-Fits width (word ∷ words) word words (inr (inl refl))
      (Has-all words (word ∷ words) (λ r k. inr k))

join-wrap_words :
    (width : ℕ) (words : List Text) → join (wrap_words width words) sep ≡ join words sep
join-wrap_words width [] = refl
join-wrap_words width (word ∷ words) = join-wrap_from width word words

-- Wrapping loses no word and changes none: the lines, with a blank between them, are the words of
-- the text with a blank between them. Every line fits the width, or is one word alone that does not.
wrap_text_lem :
    (text : Text) (width : ℕ)
    → (join (wrap_text text width) (codes " ") ≡ join (fields text) (codes " "))
      × All (Fits width (fields text)) (wrap_text text width)
unfolding wrap_text
wrap_text_lem text width =
    (join-wrap_words width (fields text), wrap_words-Fits width (fields text))
