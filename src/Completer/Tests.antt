-- ===== src/Completer/Tests.antt =====
-- Runs of a Tab, and the theorems about it at inputs that meet their hypotheses.
use routercli.Base.{true, false, none, some, [], ◌∷◌, ◌≡◌, refl, codes}
use routercli.Command.Tree.{command, Tree, nil, entry, plain_fields, find}
use routercli.Command.Resolve.{
  ResolveResult, returns, finish, finish_ambiguous, resolve, walk, select, chase_nil, candidates,
}
use routercli.Command.Args.{runnable_as_is}
use routercli.Command.Help.Names.{default_list_options}
use routercli.Command.Help.Layout.{fields}
use routercli.Completer.Keys.{on_change}
use routercli.Completer.{
  complete_resolved, Env, reset, unwrap_help_tokens, resolved_line, tab_tokens, no_prefix_of,
  unwraps, Change, changed, ambiguous_rewrite_buffer,
}
use routercli.Completer.Words.{IsWord, blanked}
use routercli.Completer.Rewrite.{KeepsMeaning, resolved_line-resolves}
use routercli.Completer.Lost.{IsAmbiguous, tab_drops_rest}

abbrev tree : Tree
tree =
    entry (codes "show") (command plain_fields nil)
      (entry (codes "shut") (command plain_fields nil) nil)

abbrev env : Env
env = record {
  fuel = 3;
  tree = tree;
  is_same = λ a b. false;
  translate = none;
  list_options = default_list_options;
  width = 80;
  current_prompt = codes "> ";
}

-- The arguments of a "help" that was unwrapped, with an empty one at the end.
abbrev shown : ResolveResult
shown = finish (codes "show" ∷ []) (some (command plain_fields nil)) (codes "x" ∷ [] ∷ [])

resolve-sho : resolve 3 tree (codes "sho" ∷ codes "x" ∷ [] ∷ []) ≡ returns shown
unfolding resolve walk select chase_nil candidates find runnable_as_is
resolve-sho = refl

rewrites :
    (complete_resolved env
      (codes "he sho x y")
      9
      (codes "he sho x ")
      true
      shown
      (blanked (codes "help" ∷ []))
      (no_prefix_of shown)).new_line
    ≡ some (codes "help show x y", 12)
unfolding complete_resolved resolved_line
rewrites = refl

help-IsWord : IsWord (codes "help")
help-IsWord = (λ h. cc, (refl, (refl, (refl, (refl, tt)))))

show-IsWord : IsWord (codes "show")
show-IsWord = (λ h. cc, (refl, (refl, (refl, (refl, tt)))))

resolved_line-resolves_example :
    KeepsMeaning env (codes "y") (codes "help" ∷ []) shown (codes "help show x y") 12
unfolding find
resolved_line-resolves_example =
    resolved_line-resolves env (codes "sho" ∷ codes "x" ∷ [] ∷ []) (codes "help" ∷ []) shown
      (codes "he sho x y") 9 (codes "he sho x ") true (codes "help show x y") 12 refl resolve-sho
      refl (help-IsWord, tt) (show-IsWord, tt) ((λ h. cc, (refl, tt)), tt) rewrites

-- "sh" is not typed out, and "r" is ambiguous.
abbrev below : Tree
below =
    entry (codes "running") (command plain_fields nil)
      (entry (codes "route") (command plain_fields nil) nil)

abbrev router : Env
router = record env { tree = entry (codes "show") (command plain_fields below) nil }

abbrev ambiguous : ResolveResult
ambiguous =
    finish_ambiguous (codes "show" ∷ []) (some (command plain_fields below))
      (codes "route" ∷ codes "running" ∷ []) 1 below

sh_r-IsAmbiguous : IsAmbiguous router (codes "sh r") (codes "sh" ∷ codes "r" ∷ []) [] ambiguous
unfolding resolve walk select chase_nil candidates find runnable_as_is unwrap_help_tokens tab_tokens
    fields unwraps
sh_r-IsAmbiguous = (refl, refl, λ h. cc)

tab_drops_rest_example :
    (change : Change) × (on_change router reset (codes "sh r now") 4 9 ≡ changed change)
    × (on_change router reset (codes "sh r") 4 9 ≡ changed change)
    × (change.new_line ≡ some (codes "show r", 6))
unfolding ambiguous_rewrite_buffer
tab_drops_rest_example =
    tab_drops_rest router reset (codes "sh r") (codes " now") (codes "sh" ∷ codes "r" ∷ []) []
      ambiguous sh_r-IsAmbiguous (λ h. cc)
