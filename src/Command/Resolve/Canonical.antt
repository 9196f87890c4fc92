-- ===== src/Command/Resolve/Canonical.antt =====
-- The line that `Resolve` spells out, with the full names in place of what was typed, resolves to
-- the same result. The completer writes this line over the one that was typed.
use routercli.Base.{
  ℕ, suc, Bool, true, false, Option, none, some, List, [], ◌∷◌, ◌++◌, ◌≡◌, inl, inr, refl, sym, ap,
  ◌∙◌, subst, Bool-cases, if◌then◌else◌, append-nil, append_assoc, Text, codes, text_eq,
  text_eq_iff,
}
use routercli.Command.Tree.{Command, Tree, subcommands, find, is_empty}
use routercli.Command.Resolve.{
  ResolveResult, Outcome, returns, nil_dereference, no_fuel, finish, walk, negate, resolve,
}
use routercli.Command.Resolve.Steps.{
  Entered, walk-nil, walk-cons, walk-picked, select-exact, select-picked, returns-injective,
}

-- The first token is not the word that negates.
abbrev NotNo : List Text → Type 0
NotNo [] = Unit
NotNo (tok ∷ rest) = text_eq tok (codes "no") ≡ false

record Again (fuel i : ℕ) (current : Tree) (directives : Option Command) (full tokens : List Text)
    (r : ResolveResult) : Type 0 where
  names : List Text
  full_name : r.full_name ≡ full ++ names
  positive : r.negated ≡ false
  same : walk fuel i current directives full (names ++ r.args) ≡ returns r
  not_no : NotNo tokens → find current (codes "no") ≡ none → NotNo (names ++ r.args)

-- A name that the map has is not "no" where the map has no "no".
key_not_no :
    (current : Tree) (name : Text) (c : Command)
    → find current name ≡ some c
    → find current (codes "no") ≡ none
    → text_eq name (codes "no") ≡ false
key_not_no current name c f n = elim (Bool-cases (text_eq name (codes "no"))) [
  | inl e ↦ cc (f, n, (text_eq_iff name (codes "no")).0 e)
  | inr e ↦ e
]

module _ (fuel i : ℕ) (current : Tree) (directives : Option Command) (full : List Text)
    (r : ResolveResult) where
  -- A walk that enters no command.
  ends-Again :
      (tokens : List Text)
      → walk fuel i current directives full tokens ≡ returns r
      → r ≡ finish full directives tokens
      → Again fuel i current directives full tokens r
  ends-Again tokens h q = record {
    names = [];
    full_name = rw (q, append-nil);
    positive = ap (λ t. t.negated) q;
    same =
        subst (λ l. walk fuel i current directives full l ≡ returns r) (sym (ap (λ t. t.args) q)) h;
    not_no = λ m n. rw (ap (λ t. t.args) q) m;
  }

  -- A walk that enters a command, from what holds of the rest of it.
  enters-Again :
      (tok : Text) (rest : List Text) (t : Entered fuel i current directives full rest tok r)
      (names : List Text)
      → r.full_name ≡ full ++ t.name ∷ names
      → r.negated ≡ false
      → (if is_empty (subcommands t.real)
          then returns (finish (full ++ t.name ∷ []) (some t.real) (names ++ r.args))
          else walk fuel
              (suc i)
              (subcommands t.real)
              (some t.real)
              (full ++ t.name ∷ [])
              (names ++ r.args))
        ≡ returns r
      → Again fuel i current directives full (tok ∷ rest) r
  enters-Again tok rest t names f p s =
      let found = select-picked current directives tok t.name (some t.cmd) t.selects in
      record {
        names = t.name ∷ names;
        full_name = f;
        positive = p;
        same =
            walk-picked fuel i current directives full (names ++ r.args) t.name t.name t.cmd t.real
              (select-exact current directives t.name t.cmd found) t.chases
            ∙ s;
        not_no = λ m n. key_not_no current t.name t.cmd found n;
      }

walk-Again :
    (fuel i : ℕ) (current : Tree) (directives : Option Command) (full tokens : List Text)
    (r : ResolveResult)
    → walk fuel i current directives full tokens ≡ returns r
    → r.ambiguous ≡ []
    → Again fuel i current directives full tokens r
walk-Again fuel i current directives full [] r h a =
    ends-Again fuel i current directives full r [] h
      (returns-injective (sym h ∙ walk-nil fuel i current directives full))
walk-Again fuel i current directives full (tok ∷ rest) r h a =
    elim (walk-cons fuel i current directives full rest tok r h a) [
      | inl (e, q) ↦ ends-Again fuel i current directives full r (tok ∷ rest) h q
      | inr t ↦ elim (Bool-cases (is_empty (subcommands t.real))) [
        | inl leaf ↦
            let done = returns-injective (rw leaf at t.goes_on) in
            enters-Again fuel i current directives full r tok rest t []
              (ap (λ q. q.full_name) (sym done)) (ap (λ q. q.negated) (sym done))
              (rw leaf (
                ap (λ l. returns (finish (full ++ t.name ∷ []) (some t.real) l))
                  (ap (λ q. q.args) (sym done))
                ∙ ap returns done))
        | inr inner ↦
            let later =
              walk-Again fuel (suc i) (subcommands t.real) (some t.real) (full ++ t.name ∷ []) rest
                r (rw inner at t.goes_on) a in
            enters-Again fuel i current directives full r tok rest t later.names
              (rw append_assoc at later.full_name) later.positive (rw inner later.same)
      ]
    ]

-- The line that spells a result out: `no` if it is negated, the full names, and the arguments.
abbrev pub canonical : ResolveResult → List Text
canonical r = (if r.negated then codes "no" ∷ [] else []) ++ (r.full_name ++ r.args)

resolve-walk :
    (fuel : ℕ) (tree : Tree) (tokens : List Text)
    → NotNo tokens
    → resolve fuel tree tokens ≡ walk fuel 0 tree none [] tokens
unfolding resolve
resolve-walk fuel tree [] m = refl
resolve-walk fuel tree (tok ∷ rest) m = rw (m, resolve)

pub resolve-no :
    (fuel : ℕ) (tree : Tree) (tok : Text) (rest : List Text)
    → text_eq tok (codes "no") ≡ true
    → resolve fuel tree (tok ∷ rest) ≡ negate (resolve fuel tree rest)
unfolding resolve
resolve-no fuel tree tok rest m = rw (m, resolve)

pub negate-eq-returns :
    (o : Outcome ResolveResult) (r : ResolveResult)
    → negate o ≡ returns r
    → (q : ResolveResult) × (o ≡ returns q) × (record q { negated = true } ≡ r)
negate-eq-returns (returns q) r h = (q, refl, returns-injective h)
negate-eq-returns nil_dereference r h = cc
negate-eq-returns no_fuel r h = cc

walk-canonical :
    (fuel : ℕ) (tree : Tree) (tokens : List Text) (r : ResolveResult)
    → find tree (codes "no") ≡ none
    → NotNo tokens
    → walk fuel 0 tree none [] tokens ≡ returns r
    → r.ambiguous ≡ []
    → resolve fuel tree (canonical r) ≡ returns r
walk-canonical fuel tree tokens r n m h a =
    let t = walk-Again fuel 0 tree none [] tokens r h a in
    let line : canonical r ≡ t.names ++ r.args =
      ap (λ b. (if b then codes "no" ∷ [] else []) ++ (r.full_name ++ r.args)) t.positive
      ∙ ap (λ f. f ++ r.args) t.full_name in
    ap (resolve fuel tree) line ∙ resolve-walk fuel tree (t.names ++ r.args) (t.not_no m n) ∙ t.same

-- A second `no` changes nothing.
no_canonical :
    (fuel : ℕ) (tree : Tree) (b : Bool) (q : ResolveResult)
    → q.negated ≡ b
    → resolve fuel tree (canonical q) ≡ returns q
    → resolve fuel tree (canonical (record q { negated = true }))
      ≡ returns (record q { negated = true })
no_canonical fuel tree true q e h =
    let same : record q { negated = true } ≡ q = λ i. record q { negated = sym e i } in
    subst (λ t. resolve fuel tree (canonical t) ≡ returns t) (sym same) h
no_canonical fuel tree false q e h =
    resolve-no fuel tree (codes "no") (q.full_name ++ q.args) refl
    ∙ ap negate (
        ap (λ b. resolve fuel tree ((if b then codes "no" ∷ [] else []) ++ (q.full_name ++ q.args)))
          (sym e)
        ∙ h)

-- Where the tree has no command "no", a line that `Resolve` understands without ambiguity and the
-- line that its result spells out, every abbreviation written in full, have the same result: the
-- same command, names, arguments, negation and `RunnableAsIs`.
pub resolve-canonical :
    (fuel : ℕ) (tree : Tree) (tokens : List Text) (r : ResolveResult)
    → find tree (codes "no") ≡ none
    → resolve fuel tree tokens ≡ returns r
    → r.ambiguous ≡ []
    → resolve fuel tree (canonical r) ≡ returns r
resolve-canonical fuel tree [] r n h a =
    walk-canonical fuel tree [] r n tt (sym (resolve-walk fuel tree [] tt) ∙ h) a
resolve-canonical fuel tree (tok ∷ rest) r n h a = elim (Bool-cases (text_eq tok (codes "no"))) [
  | inl e ↦
      let (q, inner, same) = negate-eq-returns _ r (sym (resolve-no fuel tree tok rest e) ∙ h) in
      subst (λ t. resolve fuel tree (canonical t) ≡ returns t) same
        (no_canonical fuel tree q.negated q refl
          (resolve-canonical fuel tree rest q n inner (ap (λ t. t.ambiguous) same ∙ a)))
  | inr e ↦
      walk-canonical fuel tree (tok ∷ rest) r n e (sym (resolve-walk fuel tree (tok ∷ rest) e) ∙ h)
        a
]
