-- ===== src/Command/Stack/Merge.antt =====
-- What `MergeTrees` makes of two maps of commands.
use routercli.Base.{
  false, Option, none, some, ◌≡◌, ◌⊎◌, inl, inr, refl, ap, subst, sym, ◌∙◌, none_and_some, Text,
  text_eq, text_eq_iff, text_eq_refl, Bool-cases, Option-cases,
}
use routercli.Command.Tree.{Command, Tree, nil, entry, find}
use routercli.Command.Stack.{merge_trees, overlay_onto}

-- No key of the map is there twice.
abbrev pub HasKeys : Tree → Type 0
HasKeys nil = Unit
HasKeys (entry name c rest) = (find rest name ≡ none) × HasKeys rest

abbrev pub first {ℓ} : {A : Type ℓ} → Option A → Option A → Option A
first (some a) o = some a
first none o = o

-- A name that both maps have.
abbrev pub Shared : Tree → Tree → Type 0
Shared base overlay =
    (name : Text) × (a : Command) × (b : Command) × (find base name ≡ some a)
    × (find overlay name ≡ some b)

-- What is promised of the result: an error where a name is shared, and else each command of both and
-- no shared name.
abbrev pub IsMerge : Tree → Tree → Option Tree → Type 0
IsMerge base overlay none = Shared base overlay
IsMerge base overlay (some t) =
    (name : Text)
    → (find t name ≡ first (find base name) (find overlay name))
      × ((find base name ≡ none) ⊎ (find overlay name ≡ none))

first-none {ℓ} : {A : Type ℓ} (o : Option A) → first o none ≡ o
first-none none = refl
first-none (some a) = refl

find-entry : (name : Text) (c : Command) (t : Tree) → find (entry name c t) name ≡ some c
unfolding find
find-entry name c t = rw (text_eq_refl name) refl

find-other :
    (key : Text) (c : Command) (t : Tree) (name : Text)
    → text_eq key name ≡ false
    → find (entry key c t) name ≡ find t name
unfolding find
find-other key c t name e = rw e refl

-- One entry of the overlay moved onto the merged map.
module _ (merged : Tree) (key : Text) (c : Command) (rest : Tree) (free : find merged key ≡ none)
    (fresh : find rest key ≡ none) where
  Shared-moved : Shared (entry key c merged) rest → Shared merged (entry key c rest)
  Shared-moved (name, a, b, ha, hb) = elim (Bool-cases (text_eq key name)) [
    | inl e ↦ none_and_some (subst (λ n. find rest n ≡ none) ((text_eq_iff key name).0 e) fresh) hb
    | inr e ↦
        (name, a, b, sym (find-other key c merged name e) ∙ ha, find-other key c rest name e ∙ hb)
  ]

  -- A name of the result, as the rest of the overlay gives it.
  moved_name :
      (t : Tree) (name : Text)
      → IsMerge (entry key c merged) rest (some t)
      → (find t name ≡ first (find merged name) (find (entry key c rest) name))
        × ((find merged name ≡ none) ⊎ (find (entry key c rest) name ≡ none))
  moved_name t name h = elim (Bool-cases (text_eq key name)) [
    | inl e ↦
        subst
          (λ n.
            (find t n ≡ first (find merged n) (find (entry key c rest) n))
            × ((find merged n ≡ none) ⊎ (find (entry key c rest) n ≡ none)))
          ((text_eq_iff key name).0 e)
          (
            rw (free, find-entry key c rest)
                ((h key).0 ∙ ap (λ o. first o (find rest key)) (find-entry key c merged)),
            inl free,
          )
    | inr e ↦ rw (find-other key c rest name e) (
      (h name).0 ∙ ap (λ o. first o (find rest name)) (find-other key c merged name e),
      subst (λ o. (o ≡ none) ⊎ (find rest name ≡ none)) (find-other key c merged name e) (h name).1,
    )
  ]

  IsMerge-moved :
      (o : Option Tree) → IsMerge (entry key c merged) rest o → IsMerge merged (entry key c rest) o
  IsMerge-moved none h = Shared-moved h
  IsMerge-moved (some t) h = λ name. moved_name t name h

overlay_onto-IsMerge :
    (merged overlay : Tree) → HasKeys overlay → IsMerge merged overlay (overlay_onto merged overlay)
unfolding overlay_onto find
overlay_onto-IsMerge merged nil k = λ name. (rw (find, first-none) refl, inr refl)
overlay_onto-IsMerge merged (entry key c rest) k = elim (Option-cases (find merged key)) [
  | inl e ↦
      rw (overlay_onto, e)
        (IsMerge-moved merged key c rest e k.0 (overlay_onto (entry key c merged) rest)
          (overlay_onto-IsMerge (entry key c merged) rest k.1))
  | inr (a, e) ↦ rw (overlay_onto, e) (key, a, c, e, find-entry key c rest)
]

-- `MergeTrees` fails exactly where a name is in both maps: where it fails, there is such a name, and
-- where it returns, there is none. Then a name leads to the command of the map that has it, and to
-- none where neither does. The overlay has no key twice.
pub merge_trees-IsMerge :
    (base overlay : Tree) → HasKeys overlay → IsMerge base overlay (merge_trees base overlay)
unfolding merge_trees
merge_trees-IsMerge base overlay k = overlay_onto-IsMerge base overlay k
