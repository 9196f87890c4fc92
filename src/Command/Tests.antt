-- ===== src/Command/Tests.antt =====
-- Runs of command/command.go on a small tree, and the theorems at inputs that meet their hypotheses.
use routercli.Base.{some, none, List, [], ◌∷◌, ◌≡◌, ◌≢◌, inl, refl, Text, codes}
use routercli.Command.Tree.{Command, command, Tree, nil, entry, Fields, find, plain_fields}
use routercli.Command.Args.{runnable_as_is}
use routercli.Command.Resolve.{
  ResolveResult, returns, finish, select, resolve, chase, walk, chase_nil, candidates,
}
use routercli.Command.Resolve.Select.{Selects, select-Selects}
use routercli.Command.Resolve.Canonical.{canonical, resolve-canonical}
use routercli.Command.Resolve.Aliases.{
  IsResolvable, below, AreResolvable, done, also, resolve-returns, resolve_broken_alias,
}

abbrev runnable_fields : Fields
runnable_fields = record plain_fields { run_func = some (codes "h") }

abbrev hostname : Command
hostname = command (record runnable_fields { min_args = some 1; max_args = some 1 }) nil

abbrev running_config : Command
running_config = command runnable_fields nil

abbrev show : Command
show = command plain_fields (entry (codes "running-config") running_config nil)

abbrev question : Command
question = command (record plain_fields { alias = codes "show" }) nil

abbrev broken : Command
broken = command (record plain_fields { alias = codes "gone" }) nil

abbrev tree : Tree
tree =
    entry (codes "hostname") hostname
      (entry (codes "show") show (entry (codes "?") question (entry (codes "b") broken nil)))

abbrev good_tree : Tree
good_tree =
    entry (codes "hostname") hostname (entry (codes "show") show (entry (codes "?") question nil))

abbrev words : Text → Text → List Text
words a b = a ∷ b ∷ []

abbrev sh_run : List Text
sh_run = words (codes "sh") (codes "run")

abbrev show_running_config : ResolveResult
show_running_config =
    finish (words (codes "show") (codes "running-config")) (some running_config) []

resolve-sh_run : resolve 1 tree sh_run ≡ returns show_running_config
unfolding resolve walk select chase_nil candidates find runnable_as_is
resolve-sh_run = refl

no-no : find tree (codes "no") ≡ none
unfolding find
no-no = refl

resolve-canonical_example :
    resolve 1 tree (canonical show_running_config) ≡ returns show_running_config
resolve-canonical_example =
    resolve-canonical 1 tree sh_run show_running_config no-no resolve-sh_run refl

select-Selects_example : Selects tree none (codes "sh") (select tree none (codes "sh"))
select-Selects_example = select-Selects tree none (codes "sh")

IsResolvable-show : IsResolvable 1 show
unfolding chase
IsResolvable-show = below (also running_config refl (below done) done)

AreResolvable-good_tree : AreResolvable 1 good_tree good_tree
unfolding chase find
AreResolvable-good_tree =
    also hostname refl (below done)
      (also show refl IsResolvable-show (also show refl (below done) done))

resolve-returns_example : (r : ResolveResult) × (resolve 1 good_tree sh_run ≡ returns r)
resolve-returns_example = resolve-returns 1 good_tree sh_run AreResolvable-good_tree

find-b : find tree (codes "b") ≡ some broken
unfolding find
find-b = refl

find-gone : find tree (codes "gone") ≡ none
unfolding find
find-gone = refl

resolve_broken_alias_example : resolve 5 tree (codes "b" ∷ []) ≢ returns show_running_config
resolve_broken_alias_example =
    resolve_broken_alias 5 tree (codes "b") [] broken show_running_config refl find-b (λ h. cc h)
      (inl find-gone)
