-- ===== src/Command/Resolve/Consumes.antt =====
-- A line that resolves to a command has fewer arguments than tokens.
use routercli.Base.{
  ℕ, suc, ◌<◌, Option, none, some, List, [], ◌∷◌, ◌++◌, ◌≡◌, ◌≢◌, ◌⊎◌, inl, inr, sym, ◌∙◌, ap,
  subst, arith, length, Text, codes, text_eq, Bool-cases,
}
use routercli.Command.Tree.{Command, Tree, subcommands, is_empty}
use routercli.Command.Resolve.{ResolveResult, returns, finish, walk, resolve}
use routercli.Command.Resolve.Steps.{walk-nil, walk-cons, returns-injective}
use routercli.Command.Resolve.Canonical.{resolve-no, negate-eq-returns}

shorter :
    (rest : List Text) (r : ResolveResult)
    → (r.args ≡ rest) ⊎ (length r.args < length rest)
    → length r.args < suc (length rest)
shorter rest r (inl e) = subst (λ l. length l < suc (length rest)) (sym e) (omega arith)
shorter rest r (inr h) = omega (arith, h)

entered :
    {full : List Text} {directives : Option Command} (rest : List Text) (r : ResolveResult)
    → (r ≡ finish full directives rest) ⊎ (length r.args < length rest)
    → (r.args ≡ rest) ⊎ (length r.args < length rest)
entered rest r (inl e) = inl (ap (λ q. q.args) e)
entered rest r (inr h) = inr h

walk-args :
    (fuel i : ℕ) (current : Tree) (directives : Option Command) (full tokens : List Text)
    (r : ResolveResult)
    → walk fuel i current directives full tokens ≡ returns r
    → r.ambiguous ≡ []
    → (r ≡ finish full directives tokens) ⊎ (length r.args < length tokens)
walk-args fuel i current directives full [] r h a =
    inl (returns-injective (sym h ∙ walk-nil fuel i current directives full))
walk-args fuel i current directives full (tok ∷ rest) r h a =
    elim (walk-cons fuel i current directives full rest tok r h a) [
      | inl (e, q) ↦ inl q
      | inr t ↦ inr (elim (Bool-cases (is_empty (subcommands t.real))) [
        | inl leaf ↦
            shorter rest r (inl (ap (λ q. q.args) (sym (returns-injective (rw leaf at t.goes_on)))))
        | inr inner ↦ shorter rest r (
            entered rest r (
              walk-args fuel (suc i) (subcommands t.real) (some t.real) (full ++ t.name ∷ []) rest r
                (rw inner at t.goes_on) a))
      ])
    ]

-- Where a result has a command and is not ambiguous, a token was used for it.
pub resolve-args :
    (fuel : ℕ) (tree : Tree) (tokens : List Text) (r : ResolveResult)
    → resolve fuel tree tokens ≡ returns r
    → r.ambiguous ≡ []
    → r.directives ≢ none
    → length r.args < length tokens
unfolding resolve
resolve-args fuel tree [] r h a d = elim (walk-args fuel 0 tree none [] [] r h a) [
  | inl e ↦ absurd (d (ap (λ q. q.directives) e))
  | inr k ↦ k
]
resolve-args fuel tree (tok ∷ rest) r h a d = elim (Bool-cases (text_eq tok (codes "no"))) [
  | inl e ↦
      let (q, inner, same) = negate-eq-returns _ r (sym (resolve-no fuel tree tok rest e) ∙ h) in
      subst (λ q. length q.args < suc (length rest)) same
        (omega (
          arith,
          resolve-args fuel tree rest q inner (ap (λ t. t.ambiguous) same ∙ a)
              (λ n. d (sym (ap (λ t. t.directives) same) ∙ n)),
        ))
  | inr e ↦ elim (walk-args fuel 0 tree none [] (tok ∷ rest) r (rw (e, resolve) at h) a) [
    | inl k ↦ absurd (d (ap (λ q. q.directives) k))
    | inr k ↦ k
  ]
]
