-- ===== src/Paging/Filter/Laws.antt =====
-- What the output filters keep.
use routercli.Base.{
  true, false, Option, some, List, [], ◌∷◌, ◌++◌, ◌≡◌, inl, inr, refl, ap, Bool-cases, Option-cases,
  some-injective, All, Text, contains, subst,
}
use routercli.Paging.Filter.{
  FilterMode, substring, FilterKind, filter_include, filter_exclude, filter_begin, FilterStage,
  MatchFunc, keep, keep_not, from_first, apply_stage, new_matcher, apply_filters,
}

-- The third list holds the elements of the first two, each in its order.
pub data Interleaves : List Text → List Text → List Text → Type 0 where
  nil : Interleaves [] [] []
  left : {a b c : List Text} (l : Text) → Interleaves a b c → Interleaves (l ∷ a) b (l ∷ c)
  right : {a b c : List Text} (l : Text) → Interleaves a b c → Interleaves a (l ∷ b) (l ∷ c)

Interleaves-append : (a b : List Text) → Interleaves b a (a ++ b)
Interleaves-append [] [] = nil
Interleaves-append [] (l ∷ b) = left l (Interleaves-append [] b)
Interleaves-append (l ∷ a) b = right l (Interleaves-append a b)

Interleaves-swap : {a b c : List Text} → Interleaves a b c → Interleaves b a c
Interleaves-swap nil = nil
Interleaves-swap (left l i) = right l (Interleaves-swap i)
Interleaves-swap (right l i) = left l (Interleaves-swap i)

abbrev pub StartsWith : MatchFunc → List Text → Type 0
StartsWith matches [] = Unit
StartsWith matches (l ∷ ls) = matches l ≡ true

-- What a stage does to the lines: include keeps the lines that match and drops the others, exclude
-- the other way round, and begin drops lines that do not match up to the first that does.
abbrev pub Stages : FilterKind → MatchFunc → List Text → List Text → List Text → Type 0
Stages filter_include matches lines kept dropped =
    Interleaves kept dropped lines
    × All (λ l. matches l ≡ true) kept
    × All (λ l. matches l ≡ false) dropped
Stages filter_exclude matches lines kept dropped =
    Interleaves kept dropped lines
    × All (λ l. matches l ≡ false) kept
    × All (λ l. matches l ≡ true) dropped
Stages filter_begin matches lines kept dropped =
    (dropped ++ kept ≡ lines) × StartsWith matches kept × All (λ l. matches l ≡ false) dropped

keep-Stages :
    (matches : MatchFunc) (lines : List Text)
    → Stages filter_include matches lines (keep matches lines) (keep_not matches lines)
unfolding keep keep_not
keep-Stages matches [] = (nil, tt, tt)
keep-Stages matches (l ∷ lines) =
    let (i, k, d) = keep-Stages matches lines in
    elim (Bool-cases (matches l)) [
      | inl e ↦ rw e (left l i, (e, k), d)
      | inr e ↦ rw e (right l i, k, (e, d))
    ]

from_first-Stages :
    (matches : MatchFunc) (lines : List Text)
    → (dropped : List Text) × Stages filter_begin matches lines (from_first matches lines) dropped
unfolding from_first
from_first-Stages matches [] = ([], (refl, tt, tt))
from_first-Stages matches (l ∷ lines) =
    let (dropped, (e, s, d)) = from_first-Stages matches lines in
    elim (Bool-cases (matches l)) [
      | inl m ↦ rw m ([], (refl, m, tt))
      | inr m ↦ rw m (l ∷ dropped, (ap (◌∷◌ l) e, s, (m, d)))
    ]

-- Every stage keeps and drops lines as its kind says.
apply_stage-Stages :
    (lines : List Text) (kind : FilterKind) (matches : MatchFunc)
    → (dropped : List Text) × Stages kind matches lines (apply_stage lines kind matches) dropped
unfolding apply_stage
apply_stage-Stages lines filter_include matches =
    (keep_not matches lines, keep-Stages matches lines)
apply_stage-Stages lines filter_exclude matches =
    let (i, k, d) = keep-Stages matches lines in (keep matches lines, (Interleaves-swap i, d, k))
apply_stage-Stages lines filter_begin matches = from_first-Stages matches lines

-- A second stage of the same kind and pattern changes nothing.
apply_stage_idem :
    (lines : List Text) (kind : FilterKind) (matches : MatchFunc)
    → apply_stage (apply_stage lines kind matches) kind matches ≡ apply_stage lines kind matches
unfolding apply_stage
apply_stage_idem [] filter_include matches = refl
apply_stage_idem [] filter_exclude matches = refl
apply_stage_idem [] filter_begin matches = refl
apply_stage_idem (l ∷ lines) filter_include matches = elim (Bool-cases (matches l)) [
  | inl m ↦ rw m (rw m (ap (◌∷◌ l) (apply_stage_idem lines filter_include matches)))
  | inr m ↦ rw m (apply_stage_idem lines filter_include matches)
]
apply_stage_idem (l ∷ lines) filter_exclude matches = elim (Bool-cases (matches l)) [
  | inl m ↦ rw m (apply_stage_idem lines filter_exclude matches)
  | inr m ↦ rw m (rw m (ap (◌∷◌ l) (apply_stage_idem lines filter_exclude matches)))
]
apply_stage_idem (l ∷ lines) filter_begin matches = elim (Bool-cases (matches l)) [
  | inl m ↦ rw m (rw m)
  | inr m ↦ rw m (apply_stage_idem lines filter_begin matches)
]

Interleaves-trans :
    {a b c d e : List Text}
    → Interleaves a b c
    → Interleaves c d e
    → (x : List Text) × Interleaves a x e
Interleaves-trans nil nil = ([], nil)
Interleaves-trans (left l i) (left _ j) = let (x, k) = Interleaves-trans i j in (x, left l k)
Interleaves-trans (right l i) (left _ j) = let (x, k) = Interleaves-trans i j in (l ∷ x, right l k)
Interleaves-trans i (right l j) = let (x, k) = Interleaves-trans i j in (l ∷ x, right l k)

Stages-Interleaves :
    (kind : FilterKind) (matches : MatchFunc) (lines kept dropped : List Text)
    → Stages kind matches lines kept dropped
    → Interleaves kept dropped lines
Stages-Interleaves filter_include matches lines kept dropped s = s.0
Stages-Interleaves filter_exclude matches lines kept dropped s = s.0
Stages-Interleaves filter_begin matches lines kept dropped s =
    subst (Interleaves kept dropped) s.0 (Interleaves-append dropped kept)

module _ (compile : Text → Option MatchFunc) where
  -- Where `ApplyFilters` returns lines, they are lines that it was given, in the order that they had.
  apply_filters-Interleaves :
      (lines out : List Text) (stages : List FilterStage) (mode : FilterMode)
      → apply_filters compile lines stages mode ≡ some out
      → (dropped : List Text) × Interleaves out dropped lines
  unfolding apply_filters
  apply_filters-Interleaves lines out [] mode h =
      ([], subst (λ o. Interleaves o [] lines) (some-injective h) (Interleaves-append [] lines))
  apply_filters-Interleaves lines out (stage ∷ stages) mode h =
      elim (Option-cases (new_matcher compile stage.pattern mode)) [
        | inl e ↦ cc (rw (e, apply_filters) at h)
        | inr (matches, e) ↦
            let (dropped, s) = apply_stage-Stages lines stage.kind matches in
            let (more, i) =
              apply_filters-Interleaves (apply_stage lines stage.kind matches) out stages mode
                (rw (e, apply_filters) at h) in
            Interleaves-trans i (Stages-Interleaves stage.kind matches lines _ dropped s)
      ]

  -- A stage that stands twice in a row counts once, whatever the mode.
  apply_filters_twice :
      (lines : List Text) (stage : FilterStage) (rest : List FilterStage) (mode : FilterMode)
      → apply_filters compile lines (stage ∷ stage ∷ rest) mode
        ≡ apply_filters compile lines (stage ∷ rest) mode
  unfolding apply_filters
  apply_filters_twice lines stage rest mode =
      elim (Option-cases (new_matcher compile stage.pattern mode)) [
        | inl e ↦ rw (e, apply_filters)
        | inr (matches, e) ↦
            rw (e, apply_filters)
              (rw (e, apply_filters)
                (ap (λ l. apply_filters compile l rest mode)
                  (apply_stage_idem lines stage.kind matches)))
      ]

  -- In substring mode `ApplyFilters` never fails.
  apply_filters-substring :
      (lines : List Text) (stages : List FilterStage)
      → (out : List Text) × (apply_filters compile lines stages substring ≡ some out)
  unfolding apply_filters new_matcher
  apply_filters-substring lines [] = (lines, refl)
  apply_filters-substring lines (stage ∷ stages) =
      apply_filters-substring (apply_stage lines stage.kind (λ line. contains line stage.pattern))
        stages
