-- ===== src/Command/Build/Names.antt =====
-- A list of levels, by their names.
use routercli.Base.{
  some, List, [], ◌∷◌, ◌++◌, ◌≡◌, ◌⊎◌, inl, inr, refl, All, Text, text_eq, text_eq_iff,
  text_eq_refl, Bool-cases, some-injective, none_and_some, if_true, if_false, subst,
}
use routercli.Command.Context.{CommandLevel, find_level}

-- The list has a level of that name.
abbrev pub In : List CommandLevel → Text → Type 0
In levels name = (l : CommandLevel) × (find_level levels name ≡ some l)

pub find_level-name :
    (levels : List CommandLevel) (name : Text) (l : CommandLevel)
    → find_level levels name ≡ some l
    → l.name ≡ name
unfolding find_level
find_level-name [] name l h = cc
find_level-name (k ∷ levels) name l h = elim (Bool-cases (text_eq k.name name)) [
  | inl e ↦
      subst (λ x. x.name ≡ name) (some-injective (if_true _ _ _ e h))
        ((text_eq_iff k.name name).0 e)
  | inr e ↦ find_level-name levels name l (if_false _ _ _ e h)
]

pub In-here : (l : CommandLevel) (levels : List CommandLevel) → In (l ∷ levels) l.name
unfolding find_level
In-here l levels = (l, rw (text_eq_refl l.name) refl)

pub In-later :
    (l : CommandLevel) (levels : List CommandLevel) (name : Text)
    → In levels name
    → In (l ∷ levels) name
unfolding find_level
In-later l levels name (k, h) = elim (Bool-cases (text_eq l.name name)) [
  | inl e ↦ (l, rw e refl)
  | inr e ↦ (k, rw e h)
]

-- A level of the list, by the name that it is found under.
pub All-find_level :
    (P : CommandLevel → Type 0) (levels : List CommandLevel) (name : Text) (l : CommandLevel)
    → All P levels
    → find_level levels name ≡ some l
    → P l
unfolding find_level
All-find_level P [] name l all h = cc
All-find_level P (k ∷ levels) name l all h = elim (Bool-cases (text_eq k.name name)) [
  | inl e ↦ subst P (some-injective (if_true _ _ _ e h)) all.0
  | inr e ↦ All-find_level P levels name l all.1 (if_false _ _ _ e h)
]

pub In-cons :
    (l : CommandLevel) (levels : List CommandLevel) (name : Text)
    → In (l ∷ levels) name
    → (l.name ≡ name) ⊎ In levels name
unfolding find_level
In-cons l levels name (k, h) = elim (Bool-cases (text_eq l.name name)) [
  | inl e ↦ inl ((text_eq_iff l.name name).0 e)
  | inr e ↦ inr (k, if_false _ _ _ e h)
]

pub In-snoc-here : (levels : List CommandLevel) (l : CommandLevel) → In (levels ++ l ∷ []) l.name
In-snoc-here [] l = In-here l []
In-snoc-here (k ∷ levels) l = In-later k (levels ++ l ∷ []) l.name (In-snoc-here levels l)

pub In-snoc :
    (levels : List CommandLevel) (l : CommandLevel) (name : Text)
    → In levels name
    → In (levels ++ l ∷ []) name
unfolding find_level
In-snoc [] l name (k, h) = none_and_some refl h
In-snoc (m ∷ levels) l name h = elim (In-cons m levels name h) [
  | inl e ↦ subst (In (m ∷ (levels ++ l ∷ []))) e (In-here m (levels ++ l ∷ []))
  | inr k ↦ In-later m (levels ++ l ∷ []) name (In-snoc levels l name k)
]
