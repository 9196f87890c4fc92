-- ===== src/Command/Build/Hierarchy.antt =====
-- A hierarchy that `verifyLevelHierarchy` passes has an order in which every level is built.
use routercli.Base.{
  ℕ, zero, suc, true, false, Option, none, some, List, [], ◌∷◌, ◌≡◌, ◌⊎◌, inl, inr, refl, arith,
  length, All, Text, text_eq, Bool-cases, Option-cases, ap, sym, subst, ◌∙◌, none_and_some,
  some-injective, if_true, if_false,
}
use routercli.Command.Context.{CommandLevel, find_level}
use routercli.Command.Build.{
  BuildError, parent_cycle, or_else, Progress, raw_tree, waits, chain_ends, endless, missing_parent,
  verify_level_hierarchy,
}
use routercli.Command.Build.Names.{In, All-find_level, find_level-name}
use routercli.Command.Build.Steps.{IsReady}
use routercli.Command.Build.Turns.{Known}

waits_parts :
    (p : Progress) (l : CommandLevel)
    → waits p l ≡ true
    → (text_eq l.parent [] ≡ false) × (raw_tree p.raw_trees l.parent ≡ none)
unfolding waits
waits_parts p l w = ground arith

same_level :
    (levels : List CommandLevel) (name : Text) (q q' : CommandLevel)
    → find_level levels name ≡ some q
    → q'.name ≡ name
    → Known levels q'
    → q' ≡ q
same_level levels name q q' h e k = some-injective (sym k ∙ (ap (find_level levels) e ∙ h))

-- Where every level that remains waits for another that remains, no walk to a base ends.
module _ (levels remaining : List CommandLevel) (p : Progress) where
  pub stuck :
      All (λ l. waits p l ≡ true) remaining
      → All (Known levels) remaining
      → ((name : Text) → In levels name → IsReady p name ⊎ In remaining name)
      → (steps : ℕ) (l : CommandLevel) → waits p l ≡ true
      → chain_ends steps levels l.parent ≡ false
  unfolding chain_ends
  stuck all known covered zero l w = (waits_parts p l w).0
  stuck all known covered (suc steps) l w = elim (Option-cases (find_level levels l.parent)) [
    | inl n ↦ rw (chain_ends, (waits_parts p l w).0, n) refl
    | inr (q, h) ↦ elim (covered l.parent (q, h)) [
      | inl (t, r) ↦ none_and_some (waits_parts p l w).1 r
      | inr (q', h') ↦
          rw (chain_ends, (waits_parts p l w).0, h)
            (stuck all known covered steps q (
              subst (λ x. waits p x ≡ true)
                (same_level levels l.parent q q' h (find_level-name remaining l.parent q' h')
                  (All-find_level (Known levels) remaining l.parent q' known h'))
                (All-find_level (λ l. waits p l ≡ true) remaining l.parent q' all h')))
    ]
  ]

-- The walk of every level ends, as the check says.
endless-none :
    (levels rest : List CommandLevel)
    → endless levels rest ≡ none
    → All (λ l. chain_ends (length levels) levels l.parent ≡ true) rest
unfolding endless
endless-none levels [] h = tt
endless-none levels (l ∷ rest) h = elim (Bool-cases (chain_ends (length levels) levels l.parent)) [
  | inl e ↦ (e, endless-none levels rest (if_true _ _ _ e h))
  | inr e ↦ none_and_some {o = some (parent_cycle l.name)} (if_false _ _ _ e h) refl
]

or_else-none : (a b : Option BuildError) → or_else a b ≡ none → b ≡ none
or_else-none none b h = h
or_else-none (some e) b h = cc

pub passes :
    (levels : List CommandLevel)
    → verify_level_hierarchy levels ≡ none
    → or_else (missing_parent levels levels) (endless levels levels) ≡ none
unfolding verify_level_hierarchy
passes levels h = ground arith

pub verify_level_hierarchy-none :
    (levels : List CommandLevel)
    → verify_level_hierarchy levels ≡ none
    → All (λ l. chain_ends (length levels) levels l.parent ≡ true) levels
unfolding verify_level_hierarchy
verify_level_hierarchy-none levels h =
    endless-none levels levels
      (or_else-none (missing_parent levels levels) (endless levels levels) (passes levels h))
