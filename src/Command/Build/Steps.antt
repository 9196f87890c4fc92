-- ===== src/Command/Build/Steps.antt =====
-- What one level and one turn over the levels that remain add to the progress.
use routercli.Base.{
  not, ◌&&◌, Option, none, some, List, [], ◌∷◌, ◌++◌, ◌≡◌, ◌≢◌, inl, inr, refl, Text, text_eq,
  Bool-cases,
}
use routercli.Command.Tree.{Tree}
use routercli.Command.Stack.{merge_trees}
use routercli.Command.Context.{CommandLevel}
use routercli.Command.Build.{
  BuildError, no_order, unreadable, parent_conflict, common_conflict, Result, ok, err, no_fuel,
  and_then, or_fail, or_nil, Progress, raw_tree, effective_raw, final_tree, resolve_level,
  filter_level_switch_commands,
}

abbrev pub IsReady : Progress → Text → Type 0
IsReady p name = (t : Tree) × (raw_tree p.raw_trees name ≡ some t)

-- What holds of a result, which is neither that there is no order nor that there is no fuel.
abbrev pub Post {ℓ} : {A : Type ℓ} → (A → Type 0) → Result A → Type 0
Post P (ok a) = P a
Post P (err e) = e ≢ no_order
Post P no_fuel = ⊥

pub and_then-Post {ℓ κ} :
    {A : Type ℓ} {B : Type κ} (P : A → Type 0) (Q : B → Type 0) (r : Result A) (run : A → Result B)
    → Post P r
    → ((a : A) → P a → Post Q (run a))
    → Post Q (and_then r run)
and_then-Post P Q (ok a) run h k = k a h
and_then-Post P Q (err e) run h k = h
and_then-Post P Q no_fuel run h k = absurd h

abbrev pub Any {ℓ} : {A : Type ℓ} → A → Type 0
Any a = Unit

pub or_fail-Post {ℓ} :
    {A : Type ℓ} (o : Option A) (e : BuildError) → e ≢ no_order → Post Any (or_fail o e)
or_fail-Post none e h = h
or_fail-Post (some a) e h = tt

effective_raw-Post :
    (switch_names : List Text) (p : Progress) (l : CommandLevel) (own : Tree)
    → Post Any (effective_raw switch_names p l own)
unfolding effective_raw
effective_raw-Post switch_names p l own =
    elim (Bool-cases (l.inherit_parent && not (text_eq l.parent []))) [
      | inl e ↦ rw e (
          or_fail-Post
            (merge_trees
              (filter_level_switch_commands (or_nil (raw_tree p.raw_trees l.parent)) switch_names)
              own)
            (parent_conflict l.name l.parent) (λ h. cc))
      | inr e ↦ rw e tt
    ]

final_tree-Post :
    (common_tree : Tree) (l : CommandLevel) (effective : Tree)
    → Post Any (final_tree common_tree l effective)
unfolding final_tree
final_tree-Post common_tree l effective = elim (Bool-cases (not l.skip_common_merge)) [
  | inl e ↦
      rw e (or_fail-Post (merge_trees effective common_tree) (common_conflict l.name) (λ h. cc))
  | inr e ↦ rw e tt
]

-- The progress that a level adds: it is ready, and the last of the order.
abbrev pub added : Progress → CommandLevel → Tree → Tree → Progress
added p l effective final = record {
  raw_trees = (l.name, effective) ∷ p.raw_trees;
  order = p.order ++ record l { tree = final } ∷ [];
}

abbrev pub IsAdded : Progress → CommandLevel → Progress → Type 0
IsAdded p l p' = (effective : Tree) × (final : Tree) × (p' ≡ added p l effective final)

pub resolve_level-IsAdded :
    (load_tree : Text → Option Tree) (common_tree : Tree) (switch_names : List Text) (p : Progress)
    (l : CommandLevel)
    → Post (IsAdded p l) (resolve_level load_tree common_tree switch_names p l)
unfolding resolve_level
resolve_level-IsAdded load_tree common_tree switch_names p l =
    and_then-Post Any (IsAdded p l)
      (or_fail (load_tree l.tree_file) (unreadable l.name l.tree_file)) _
      (or_fail-Post (load_tree l.tree_file) (unreadable l.name l.tree_file) (λ h. cc))
      (λ own a.
        and_then-Post Any (IsAdded p l) (effective_raw switch_names p l own) _
          (effective_raw-Post switch_names p l own)
          (λ effective b.
            and_then-Post Any (IsAdded p l) (final_tree common_tree l effective) _
              (final_tree-Post common_tree l effective) (λ final c. (effective, final, refl))))
