-- ===== src/Completer/Unwrap.antt =====
-- The unwrapping of `help` ends.
use routercli.Base.{
  ℕ, zero, suc, ◌≤◌, Bool, true, false, none, List, [], ◌≡◌, ◌≢◌, refl, arith, length, Text,
}
use routercli.Command.Resolve.{ResolveResult, Outcome, returns, nil_dereference, no_fuel, resolve}
use routercli.Command.Resolve.Consumes.{resolve-args}
use routercli.Completer.{
  Env, unwraps, Unwrapped, unwrapped, endless, unwrap_with, help_prefix, unwrap_help_tokens,
  is_help_command,
}

unwraps_parts :
    (env : Env) (res : ResolveResult)
    → unwraps env res ≡ true
    → (res.ambiguous ≡ []) × (res.directives ≢ none)
unfolding unwraps is_help_command
unwraps_parts env res h = ground arith

unwrap_with-ends :
    (o : Outcome ResolveResult) (run : ResolveResult → Unwrapped)
    → o ≢ no_fuel
    → ((res : ResolveResult) → o ≡ returns res → run res ≢ endless)
    → unwrap_with o run ≢ endless
unwrap_with-ends nil_dereference run n k = λ h. cc
unwrap_with-ends no_fuel run n k = absurd (n refl)
unwrap_with-ends (returns res) run n k = k res refl

-- A turn that does not unwrap returns.
stays_ends :
    (b : Bool) (tokens : List Text) (prefix : Text) (more : Unwrapped)
    → (b ≡ true → more ≢ endless)
    → (elim b [ true ↦ more | false ↦ unwrapped tokens prefix ]) ≢ endless
stays_ends true tokens prefix more h = h refl
stays_ends false tokens prefix more h = λ e. cc

-- On a tree on which `Resolve` comes to an end, as many turns as there are tokens are enough for
-- `unwrapHelpTokens`, since each turn uses one: a Tab and a "?" end, for a line of any number of
-- `help`.
unwrap_help_tokens_ends :
    (turns : ℕ) (env : Env) (tokens : List Text) (prefix : Text)
    → ((words : List Text) → resolve env.fuel env.tree words ≢ no_fuel)
    → length tokens ≤ turns
    → unwrap_help_tokens turns env tokens prefix ≢ endless
unfolding unwrap_help_tokens
unwrap_help_tokens_ends zero env tokens prefix total h =
    unwrap_with-ends (resolve env.fuel env.tree tokens) _ (total tokens) (λ res e.
      stays_ends (unwraps env res) tokens prefix endless (λ u.
        let (a, d) = unwraps_parts env res u in
        absurd (omega (arith, h, resolve-args env.fuel env.tree tokens res e a d))))
unwrap_help_tokens_ends (suc turns) env tokens prefix total h =
    unwrap_with-ends (resolve env.fuel env.tree tokens) _ (total tokens) (λ res e.
      stays_ends (unwraps env res) tokens prefix
        (unwrap_help_tokens turns env res.args (help_prefix prefix res))
        (λ u.
          let (a, d) = unwraps_parts env res u in
          unwrap_help_tokens_ends turns env res.args (help_prefix prefix res) total
            (omega (arith, h, resolve-args env.fuel env.tree tokens res e a d))))
