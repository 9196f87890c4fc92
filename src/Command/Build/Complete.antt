-- ===== src/Command/Build/Complete.antt =====
-- `LoadTreeStructure` builds every level.
use routercli.Base.{
  true-false, ℕ, zero, suc, ◌≤◌, ◌<◌, true, Option, none, some, List, [], ◌∷◌, ◌≡◌, ◌≢◌, ◌⊎◌, inl,
  inr, refl, arith, length, All, Text, text_eq, text_eq_iff, text_eq_refl, Bool-cases, Option-cases,
  ap, sym, subst, ◌∙◌, none_and_some, some-injective, if_true, if_false,
}
use routercli.Command.Tree.{Tree}
use routercli.Command.Context.{CommandLevel, TreeStructure, find_level}
use routercli.Command.Build.{
  BuildError, no_order, common_unreadable, or_fail, Progress, raw_tree, waits, turn, build_order,
  chain_ends, endless, missing_parent, base_count, verify_level_hierarchy, load_tree_structure,
  level_switch_names, mark_common_commands, base, structure,
}
use routercli.Command.Build.Names.{In, All-find_level, find_level-name}
use routercli.Command.Build.Steps.{IsReady, Post, Any, and_then-Post, or_fail-Post}
use routercli.Command.Build.Turns.{Known, Built, ParentsFirst, IsSound, IsTurn, turn-IsTurn}
use routercli.Command.Build.Hierarchy.{stuck, verify_level_hierarchy-none}

-- No name is there twice.
abbrev pub HasNames : List CommandLevel → Type 0
HasNames [] = Unit
HasNames (l ∷ levels) = (find_level levels l.name ≡ none) × HasNames levels

-- Every level is in the order, as it was but for its tree, after its parent.
pub record IsOrder (levels order : List CommandLevel) : Type 0 where
  pub built : All (Built levels) order
  pub parents_first : ParentsFirst [] order
  pub complete : (name : Text) → In levels name → In order name

abbrev IsComplete : List CommandLevel → Progress → Type 0
IsComplete levels p = IsOrder levels p.order

Ends : List CommandLevel → CommandLevel → Type 0
Ends levels l = chain_ends (length levels) levels l.parent ≡ true

module _ (load_tree : Text → Option Tree) (common_tree : Tree) (switch_names : List Text)
    (levels : List CommandLevel) (ends : All (Ends levels) levels) where
  -- A turn over levels that remain is never idle.
  not_idle :
      (l : CommandLevel) (remaining : List CommandLevel) (p : Progress)
      → All (λ l. waits p l ≡ true) (l ∷ remaining)
      → All (Known levels) (l ∷ remaining)
      → ((name : Text) → In levels name → IsReady p name ⊎ In (l ∷ remaining) name)
      → ⊥
  unfolding Ends
  not_idle l remaining p all known covered = cc (
    stuck levels (l ∷ remaining) p all known covered (length levels) l all.0,
    All-find_level (Ends levels) levels l.name l ends known.0,
  )

  build_order-IsComplete :
      (fuel : ℕ) (remaining : List CommandLevel) (p : Progress)
      → length remaining ≤ fuel
      → All (Known levels) remaining
      → IsSound levels p
      → ((name : Text) → In levels name → IsReady p name ⊎ In remaining name)
      → Post (IsComplete levels) (build_order fuel load_tree common_tree switch_names remaining p)
  unfolding build_order find_level
  build_order-IsComplete fuel [] p hf known s covered = record {
    built = s.built;
    parents_first = s.parents_first;
    complete = λ name h. elim (covered name h) [
      | inl r ↦ s.ready name r
      | inr (l, i) ↦ none_and_some refl i
    ];
  }
  build_order-IsComplete zero (l ∷ remaining) p hf known s covered = omega (arith, hf)
  build_order-IsComplete (suc fuel) (l ∷ remaining) p hf known s covered =
      and_then-Post (IsTurn levels (l ∷ remaining) p) (IsComplete levels)
        (turn load_tree common_tree switch_names (l ∷ remaining) p) _
        (turn-IsTurn load_tree common_tree switch_names levels (l ∷ remaining) p known s)
        (λ t h. elim (Bool-cases t.progressed) [
          | inl e ↦ rw e (
              build_order-IsComplete fuel t.remaining t.progress (omega (arith, h.strictly e, hf))
                h.known h.sound (λ name k. h.kept name (covered name k)))
          | inr e ↦ absurd (not_idle l remaining p (h.idle e) known covered)
        ])

All-Known :
    (l : CommandLevel) (levels rest : List CommandLevel)
    → find_level levels l.name ≡ none
    → All (Known levels) rest
    → All (Known (l ∷ levels)) rest
unfolding find_level
All-Known l levels [] fresh k = tt
All-Known l levels (m ∷ rest) fresh k = elim (Bool-cases (text_eq l.name m.name)) [
  | inl e ↦
      none_and_some
        (subst (λ n. find_level levels n ≡ none) ((text_eq_iff l.name m.name).0 e) fresh) k.0
  | inr e ↦ (rw e k.0, All-Known l levels rest fresh k.1)
]

HasNames-Known : (levels : List CommandLevel) → HasNames levels → All (Known levels) levels
unfolding find_level
HasNames-Known [] h = tt
HasNames-Known (l ∷ levels) h =
    (rw (text_eq_refl l.name) refl, All-Known l levels levels h.0 (HasNames-Known levels h.1))

missing_parent-orderly :
    (levels rest : List CommandLevel) → missing_parent levels rest ≢ some no_order
unfolding missing_parent
missing_parent-orderly levels [] h = cc
missing_parent-orderly levels (l ∷ rest) h = ground (arith, missing_parent-orderly levels rest)

endless-orderly : (levels rest : List CommandLevel) → endless levels rest ≢ some no_order
unfolding endless
endless-orderly levels [] h = cc
endless-orderly levels (l ∷ rest) h = ground (arith, endless-orderly levels rest)

verify-orderly :
    (levels : List CommandLevel) (e : BuildError)
    → verify_level_hierarchy levels ≡ some e
    → e ≢ no_order
unfolding verify_level_hierarchy
verify-orderly levels e h =
    ground (arith, missing_parent-orderly levels levels, endless-orderly levels levels)

some_base :
    (levels : List CommandLevel) → verify_level_hierarchy levels ≡ none → 0 < base_count levels
unfolding verify_level_hierarchy
some_base levels h = ground arith

-- A level with `IsBase`, among those of a map.
base_level :
    (levels rest : List CommandLevel)
    → All (Known levels) rest
    → 0 < base_count rest
    → (l : CommandLevel) × Known levels l × (l.is_base ≡ true)
unfolding base_count
base_level levels [] k h = absurd (omega (arith, h))
base_level levels (l ∷ rest) k h = elim (Bool-cases l.is_base) [
  | inl e ↦ (l, k.0, e)
  | inr e ↦ base_level levels rest k.1 (
      subst (λ n. 0 < n) (sym (if_false l.is_base (suc (base_count rest)) (base_count rest) e refl))
        h)
]

base-some :
    (order : List CommandLevel) (name : Text) (l : CommandLevel)
    → find_level order name ≡ some l
    → l.is_base ≡ true
    → (b : CommandLevel) × (base order ≡ some b)
unfolding base find_level
base-some [] name l h e = none_and_some refl h
base-some (m ∷ order) name l h e = elim (Bool-cases m.is_base) [
  | inl k ↦ (m, rw k refl)
  | inr k ↦ elim (Bool-cases (text_eq m.name name)) [
    | inl t ↦
        absurd (
          true-false (sym e ∙ (ap (λ x. x.is_base) (sym (some-injective (if_true _ _ _ t h))) ∙ k)))
    | inr t ↦ let (b, g) = base-some order name l (if_false _ _ _ t h) e in (b, rw k g)
  ]
]

same_base :
    (levels : List CommandLevel) (l l' : CommandLevel)
    → Known levels l
    → l'.name ≡ l.name
    → Built levels l'
    → l'.is_base ≡ l.is_base
same_base levels l l' k e (b, kb, h) =
    let same : b ≡ l =
      some-injective (sym kb ∙ (ap (find_level levels) (sym (ap (λ x. x.name) h) ∙ e) ∙ k)) in
    ap (λ x. x.is_base) h ∙ ap (λ x. x.is_base) same

order_base :
    (levels order : List CommandLevel)
    → IsOrder levels order
    → All (Known levels) levels
    → 0 < base_count levels
    → (b : CommandLevel) × (base order ≡ some b)
order_base levels order o known count =
    let (l, k, e) = base_level levels levels known count in
    let (l', h) = o.complete l.name (l, k) in
    base-some order l.name l' h (
      same_base levels l l' k (find_level-name order l.name l' h)
        (All-find_level (Built levels) order l.name l' o.built h)
      ∙ e)

-- What a structure promises: an order of all the levels, and a base.
abbrev pub IsStructure : List CommandLevel → TreeStructure → Type 0
IsStructure levels s = IsOrder levels s.order × ((b : CommandLevel) × (base s.order ≡ some b))

start-IsSound :
    (levels : List CommandLevel) → IsSound levels (record { raw_trees = []; order = [] })
unfolding raw_tree
start-IsSound levels = record {
  built = tt;
  ready = λ name (t, h). none_and_some refl h;
  parents_first = tt;
}

-- `LoadTreeStructure` comes to an end, and never with the error that the build order cannot be
-- resolved: on levels of different names it fails for another reason, or it returns every level,
-- each with all its fields but the tree, after its parent.
pub load_tree_structure-IsStructure :
    (load_tree : Text → Option Tree) (levels : List CommandLevel) (common_path : Text)
    → HasNames levels
    → Post (IsStructure levels) (load_tree_structure load_tree levels common_path)
unfolding load_tree_structure Ends
load_tree_structure-IsStructure load_tree levels common_path names =
    elim (Option-cases (verify_level_hierarchy levels)) [
      | inr (e, h) ↦ rw (load_tree_structure, h) (verify-orderly levels e h)
      | inl h ↦
          rw (load_tree_structure, h)
            (and_then-Post Any (IsStructure levels)
              (or_fail (load_tree common_path) common_unreadable) _
              (or_fail-Post (load_tree common_path) common_unreadable (λ e. cc))
              (λ common a.
                and_then-Post (IsComplete levels) (IsStructure levels)
                  (build_order (length levels) load_tree (mark_common_commands common)
                    (level_switch_names levels) levels (record { raw_trees = []; order = [] }))
                  structure
                  (build_order-IsComplete load_tree (mark_common_commands common)
                    (level_switch_names levels) levels (verify_level_hierarchy-none levels h)
                    (length levels) levels (record { raw_trees = []; order = [] }) (omega arith)
                    (HasNames-Known levels names) (start-IsSound levels) (λ name k. inr k))
                  (λ p k. (
                    k,
                    order_base levels p.order k (HasNames-Known levels names) (some_base levels h),
                  ))))
    ]
