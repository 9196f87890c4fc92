-- ===== src/Command/Resolve.antt =====
-- command/command.go: `Resolve`.
--
-- The loop over the tokens is `walk`, which recurs on the tokens that are left and carries the
-- loop's variables: the index `i`, the map `current`, `directives` and `result.FullName`. The alias
-- loop takes fuel: `nil_dereference` is the panic on an alias that names nothing, and `no_fuel` is a
-- chain of aliases longer than the fuel, which in the source goes on.
mod Steps
pub mod Select
pub mod Canonical
pub mod Aliases
pub mod Consumes
use routercli.Base.{
  ℕ, zero, suc, Bool, true, false, not, ◌&&◌, Option, none, some, List, [], ◌∷◌, ◌++◌,
  if◌then◌else◌, Text, codes, text_eq, has_prefix, text_leb,
}
use routercli.Command.Tree.{Command, Tree, nil, entry, Fields, fields, subcommands, find, is_empty}
use routercli.Command.Args.{runnable_as_is}

pub record ResolveResult : Type 0 where
  pub full_name : List Text
  pub directives : Option Command
  pub args : List Text
  pub ambiguous : List Text
  pub ambig_at : ℕ
  pub negated : Bool
  pub ambiguous_tree : Option Tree
  pub runnable : Bool

pub data Outcome {ℓ} (A : Type ℓ) : Type ℓ where
  returns : A → Outcome A
  nil_dereference : Outcome A
  no_fuel : Outcome A

-- `for cmd.Alias != "" { cmd = current[cmd.Alias] }`.
unfoldable pub chase : ℕ → Tree → Command → Outcome Command
chase zero current cmd = if text_eq (fields cmd).alias [] then returns cmd else no_fuel
chase (suc fuel) current cmd = elim (text_eq (fields cmd).alias []) [
  | true ↦ returns cmd
  | false ↦ elim (find current (fields cmd).alias) [
    | none ↦ nil_dereference
    | some next ↦ chase fuel current next
  ]
]

-- The names that a token may abbreviate, in the order of the map.
unfoldable pub prefix_matches : Tree → Text → List Text
prefix_matches nil tok = []
prefix_matches (entry name c rest) tok =
    if has_prefix name tok && not (fields c).hidden
    then name ∷ prefix_matches rest tok
    else prefix_matches rest tok

-- `sort.Strings`.
pub insert : Text → List Text → List Text
insert a [] = a ∷ []
insert a (b ∷ l) = if text_leb a b then a ∷ b ∷ l else b ∷ insert a l

unfoldable pub sort_strings : List Text → List Text
unfolding insert
sort_strings [] = []
sort_strings (a ∷ l) = insert a (sort_strings l)

unfoldable pub candidates : Tree → Text → List Text
unfolding prefix_matches sort_strings
candidates current tok = sort_strings (prefix_matches current tok)

-- The result with the deferred `RunnableAsIs` filled in.
abbrev pub finish : List Text → Option Command → List Text → ResolveResult
finish full_name directives args = record {
  full_name = full_name;
  directives = directives;
  args = args;
  ambiguous = [];
  ambig_at = 0;
  negated = false;
  ambiguous_tree = none;
  runnable = runnable_as_is directives args;
}

abbrev pub finish_ambiguous : List Text → Option Command → List Text → ℕ → Tree → ResolveResult
finish_ambiguous full_name directives names i current = record {
  full_name = full_name;
  directives = directives;
  args = [];
  ambiguous = names;
  ambig_at = i;
  negated = false;
  ambiguous_tree = some current;
  runnable = runnable_as_is directives [];
}

-- What one turn of the loop makes of its token: the name and the command `cmd` (nil where the map
-- has no such name), nothing, or several names.
pub data Selection : Type 0 where
  picked : Text → Option Command → Selection
  no_match : Selection
  several : List Text → Selection

-- The `switch` on the number of candidates.
unfoldable pub select_prefix : Tree → Option Command → Text → List Text → Selection
select_prefix current directives tok [] = no_match
select_prefix current directives tok (name ∷ []) =
    if text_eq tok [] && runnable_as_is directives []
    then several (name ∷ [])
    else picked name (find current name)
select_prefix current directives tok (a ∷ b ∷ more) = several (a ∷ b ∷ more)

unfoldable pub select : Tree → Option Command → Text → Selection
unfolding select_prefix
select current directives tok = elim (find current tok) [
  | some cmd ↦ picked tok (some cmd)
  | none ↦ select_prefix current directives tok (candidates current tok)
]

unfoldable pub chase_nil : ℕ → Tree → Option Command → Outcome Command
unfolding chase
chase_nil fuel current none = nil_dereference
chase_nil fuel current (some cmd) = chase fuel current cmd

unfoldable pub walk : ℕ → ℕ → Tree → Option Command → List Text → List Text → Outcome ResolveResult
walk fuel i current directives full_name [] = returns (finish full_name directives [])
walk fuel i current directives full_name (tok ∷ rest) = elim (select current directives tok) [
  | no_match ↦ returns (finish full_name directives (tok ∷ rest))
  | several names ↦ returns (finish_ambiguous full_name directives names i current)
  | picked name cmd ↦ elim (chase_nil fuel current cmd) [
    | nil_dereference ↦ nil_dereference
    | no_fuel ↦ no_fuel
    | returns real ↦ elim (is_empty (subcommands real)) [
      | true ↦ returns (finish (full_name ++ name ∷ []) (some real) rest)
      | false ↦ walk fuel (suc i) (subcommands real) (some real) (full_name ++ name ∷ []) rest
    ]
  ]
]

abbrev pub negate : Outcome ResolveResult → Outcome ResolveResult
negate (returns r) = returns (record r { negated = true })
negate nil_dereference = nil_dereference
negate no_fuel = no_fuel

-- `Resolve`.
unfoldable pub resolve : ℕ → Tree → List Text → Outcome ResolveResult
resolve fuel tree [] = walk fuel 0 tree none [] []
resolve fuel tree (tok ∷ rest) = elim (text_eq tok (codes "no")) [
  | true ↦ negate (resolve fuel tree rest)
  | false ↦ walk fuel 0 tree none [] (tok ∷ rest)
]
