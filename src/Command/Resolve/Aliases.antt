-- ===== src/Command/Resolve/Aliases.antt =====
-- The alias loop of `Resolve`: when it ends, and the trees on which it does not.
use routercli.Base.{
  ℕ, zero, suc, true, false, Option, none, some, List, [], ◌∷◌, ◌++◌, ◌≡◌, ◌≢◌, ◌⊎◌, inl, inr, refl,
  sym, ◌∙◌, ap, Bool-cases, Option-cases, subst, some-injective, Text, codes, text_eq, text_eq_iff,
}
use routercli.Command.Tree.{
  Command, command, Tree, nil, entry, Fields, fields, subcommands, find, is_empty,
}
use routercli.Command.Resolve.{
  ResolveResult, Outcome, returns, nil_dereference, no_fuel, chase, chase_nil, Selection, picked,
  no_match, several, select, walk, negate, resolve,
}
use routercli.Command.Resolve.Select.{Selects, select-Selects, find-Visible}
use routercli.Command.Resolve.Steps.{
  walk-nil, walk-no_match, walk-several, walk-picked, select-exact, select-picked,
  returns-injective,
}

-- At every level of the tree, each chain of aliases leads within `fuel` hops to a command that is no
-- alias.
mutual
  pub data IsResolvable (fuel : ℕ) : Command → Type 0 where
    below : {f : Fields} {s : Tree} → AreResolvable fuel s s → IsResolvable fuel (command f s)

  pub data AreResolvable (fuel : ℕ) : Tree → Tree → Type 0 where
    done : {whole : Tree} → AreResolvable fuel whole nil
    also :
        {whole : Tree} {name : Text} {c : Command} {rest : Tree} (real : Command)
        → chase fuel whole c ≡ returns real
        → IsResolvable fuel c
        → AreResolvable fuel whole rest
        → AreResolvable fuel whole (entry name c rest)

find-IsResolvable :
    (fuel : ℕ) (whole t : Tree) (name : Text) (c : Command)
    → AreResolvable fuel whole t
    → find t name ≡ some c
    → ((real : Command) × (chase fuel whole c ≡ returns real)) × IsResolvable fuel c
unfolding find
find-IsResolvable fuel whole nil name c w h = cc
find-IsResolvable fuel whole (entry key d rest) name c (also real e r w) h =
    elim (Bool-cases (text_eq key name)) [
      | inl same ↦
          let q : d ≡ c = some-injective (rw same at h) in
          subst (λ x. ((y : Command) × (chase fuel whole x ≡ returns y)) × IsResolvable fuel x) q
            ((real, e), r)
      | inr other ↦ find-IsResolvable fuel whole rest name c w (rw other at h)
    ]

chase-IsResolvable :
    (fuel hops : ℕ) (current : Tree) (c real : Command)
    → AreResolvable fuel current current
    → IsResolvable fuel c
    → chase hops current c ≡ returns real
    → IsResolvable fuel real
unfolding chase
chase-IsResolvable fuel zero current c real w r h =
    elim (Bool-cases (text_eq (fields c).alias [])) [
      | inl e ↦ subst (IsResolvable fuel) (returns-injective (rw e at h)) r
      | inr e ↦ cc (rw e at h)
    ]
chase-IsResolvable fuel (suc hops) current c real w r h =
    elim (Bool-cases (text_eq (fields c).alias [])) [
      | inl e ↦ subst (IsResolvable fuel) (returns-injective (rw (e, chase) at h)) r
      | inr e ↦ elim (Option-cases (find current (fields c).alias)) [
        | inl f ↦ cc (rw (f, chase) at (rw (e, chase) at h))
        | inr (next, f) ↦
            chase-IsResolvable fuel hops current next real w
              (find-IsResolvable fuel current current (fields c).alias next w f).1
              (rw (f, chase) at (rw (e, chase) at h))
      ]
    ]

IsResolvable-subcommands :
    (fuel : ℕ) (c : Command)
    → IsResolvable fuel c
    → AreResolvable fuel (subcommands c) (subcommands c)
IsResolvable-subcommands fuel (command f s) (below w) = w

-- What is picked is there.
picked_some :
    (current : Tree) (directives : Option Command) (tok name : Text) (cmd : Option Command)
    → select current directives tok ≡ picked name cmd
    → (c : Command) × (cmd ≡ some c)
picked_some current directives tok name cmd e =
    let s = subst (Selects current directives tok) e (select-Selects current directives tok) in
    elim s.1 [
      | inl (c, q, same) ↦ (c, q)
      | inr v ↦ let (c, g) = find-Visible name current tok v.1 in (c, sym s.0 ∙ g)
    ]

turn_returns :
    (fuel i : ℕ) (current : Tree) (directives : Option Command) (full rest : List Text) (tok : Text)
    → AreResolvable fuel current current
    → ((j : ℕ) (below : Tree) (d : Option Command) (f : List Text)
        → AreResolvable fuel below below
        → (r : ResolveResult) × (walk fuel j below d f rest ≡ returns r))
    → (s : Selection) → select current directives tok ≡ s
    → (r : ResolveResult) × (walk fuel i current directives full (tok ∷ rest) ≡ returns r)
turn_returns fuel i current directives full rest tok w next no_match e =
    (_, walk-no_match fuel i current directives full rest tok e)
turn_returns fuel i current directives full rest tok w next (several names) e =
    (_, walk-several fuel i current directives full rest tok names e)
turn_returns fuel i current directives full rest tok w next (picked name cmd) e =
    let (c, q) = picked_some current directives tok name cmd e in
    let f = select-picked current directives tok name cmd e ∙ q in
    let ((real, ch), ok) = find-IsResolvable fuel current current name c w f in
    let step =
      walk-picked fuel i current directives full rest tok name c real (e ∙ ap (picked name) q) ch in
    elim (Bool-cases (is_empty (subcommands real))) [
      | inl leaf ↦ (_, rw leaf at step)
      | inr inner ↦
          let (r, h) = next (suc i) (subcommands real) (some real) (full ++ name ∷ []) (
            IsResolvable-subcommands fuel real
              (chase-IsResolvable fuel fuel current c real w ok ch)) in
          (r, (rw inner at step) ∙ h)
    ]

walk_returns :
    (fuel i : ℕ) (current : Tree) (directives : Option Command) (full tokens : List Text)
    → AreResolvable fuel current current
    → (r : ResolveResult) × (walk fuel i current directives full tokens ≡ returns r)
walk_returns fuel i current directives full [] w = (_, walk-nil fuel i current directives full)
walk_returns fuel i current directives full (tok ∷ rest) w =
    turn_returns fuel i current directives full rest tok w
      (λ j t d f v. walk_returns fuel j t d f rest v) _ refl

-- On a tree where every chain of aliases leads within `fuel` hops to a command, `Resolve` returns a
-- result for every line: it neither dereferences nil nor runs out of fuel.
pub resolve-returns :
    (fuel : ℕ) (tree : Tree) (tokens : List Text)
    → AreResolvable fuel tree tree
    → (r : ResolveResult) × (resolve fuel tree tokens ≡ returns r)
unfolding resolve
resolve-returns fuel tree [] w = walk_returns fuel 0 tree none [] [] w
resolve-returns fuel tree (tok ∷ rest) w = elim (Bool-cases (text_eq tok (codes "no"))) [
  | inl e ↦
      let (r, h) = resolve-returns fuel tree rest w in
      (record r { negated = true }, rw (e, resolve) (ap negate h))
  | inr e ↦ let (r, h) = walk_returns fuel 0 tree none [] (tok ∷ rest) w in (r, rw (e, resolve) h)
]

not_alias : (c : Command) → (fields c).alias ≢ [] → text_eq (fields c).alias [] ≡ false
not_alias c a = elim (Bool-cases (text_eq (fields c).alias [])) [
  | inl e ↦ absurd (a ((text_eq_iff (fields c).alias []).0 e))
  | inr e ↦ e
]

chase_missing :
    (fuel : ℕ) (tree : Tree) (c : Command)
    → (fields c).alias ≢ []
    → find tree (fields c).alias ≡ none
    → chase (suc fuel) tree c ≡ nil_dereference
unfolding chase
chase_missing fuel tree c a n = rw (not_alias c a, chase) (rw (n, chase))

chase_self :
    (fuel : ℕ) (tree : Tree) (c : Command)
    → (fields c).alias ≢ []
    → find tree (fields c).alias ≡ some c
    → chase fuel tree c ≡ no_fuel
unfolding chase
chase_self zero tree c a n = rw (not_alias c a)
chase_self (suc fuel) tree c a n =
    rw (not_alias c a, chase) (rw (n, chase) (chase_self fuel tree c a n))

-- A walk that returns has ended the alias loop at its first token.
walk-eq-returns :
    (fuel : ℕ) (tree : Tree) (tok : Text) (rest : List Text) (c : Command) (r : ResolveResult)
    → select tree none tok ≡ picked tok (some c)
    → walk fuel 0 tree none [] (tok ∷ rest) ≡ returns r
    → (o : Outcome Command) → chase fuel tree c ≡ o
    → (real : Command) × (o ≡ returns real)
unfolding walk chase_nil
walk-eq-returns fuel tree tok rest c r s h (returns real) e = (real, refl)
walk-eq-returns fuel tree tok rest c r s h nil_dereference e =
    cc (rw (e, chase_nil) at (rw (s, walk) at h))
walk-eq-returns fuel tree tok rest c r s h no_fuel e = cc (rw (e, chase_nil) at (rw (s, walk) at h))

resolve-chase :
    (fuel : ℕ) (tree : Tree) (tok : Text) (rest : List Text) (c : Command) (r : ResolveResult)
    → text_eq tok (codes "no") ≡ false
    → find tree tok ≡ some c
    → ((real : Command) → chase fuel tree c ≢ returns real)
    → resolve fuel tree (tok ∷ rest) ≢ returns r
unfolding resolve
resolve-chase fuel tree tok rest c r m f x h =
    let t =
      walk-eq-returns fuel tree tok rest c r (select-exact tree none tok c f) (rw (m, resolve) at h)
        _ refl in
    x t.0 t.1

-- Where the first token is a key of an alias that names nothing in the map, or of a command that is
-- its own alias, `Resolve` returns no result, whatever follows and whatever the fuel.
pub resolve_broken_alias :
    (fuel : ℕ) (tree : Tree) (tok : Text) (rest : List Text) (c : Command) (r : ResolveResult)
    → text_eq tok (codes "no") ≡ false
    → find tree tok ≡ some c
    → (fields c).alias ≢ []
    → (find tree (fields c).alias ≡ none) ⊎ (find tree (fields c).alias ≡ some c)
    → resolve fuel tree (tok ∷ rest) ≢ returns r
resolve_broken_alias fuel tree tok rest c r m f a (inr n) =
    resolve-chase fuel tree tok rest c r m f (λ real h. cc (chase_self fuel tree c a n, h))
resolve_broken_alias zero tree tok rest c r m f a (inl n) =
    resolve-chase zero tree tok rest c r m f (unfold chase in λ real h. cc (not_alias c a, h))
resolve_broken_alias (suc fuel) tree tok rest c r m f a (inl n) =
    resolve-chase (suc fuel) tree tok rest c r m f (λ real h. cc (chase_missing fuel tree c a n, h))
