-- ===== src/Command/Verify.antt =====
-- command/verify.go: the checks of the loaded levels. A problem stands for its message. Two paths
-- lead to one command in memory where the levels share a tree, which `visited` of the source sees: the
-- address of a command, by its level and path, is the argument `address`. `message` is the message
-- of a handler that nothing reaches, by which the problems are sorted.
pub mod Levels
pub mod Reach
use routercli.Base.{
  ℕ, Bool, true, false, not, ◌&&◌, Option, none, some, List, [], ◌∷◌, ◌++◌, ◌==◌, if◌then◌else◌,
  Text, codes, text_eq, text_leb,
}
use routercli.Command.Tree.{Command, command, Tree, nil, entry, Fields}
use routercli.Command.Context.{CommandLevel, Role, RoleSet}
use routercli.Command.Registry.{Registry, lookup_handler}
use routercli.Command.Loader.{path_of}

pub data Problem : Type 0 where
  no_enter_command : Text → Problem
  enter_unregistered exit_unregistered : Text → Text → Problem
  unreachable : Text → Problem
  restricted_not_hidden level_two_hashes level_user_settable : Text → Problem
  level_not_hidden level_not_restricted : Text → Problem
  command_two_hashes command_user_settable command_not_hidden : Text → Problem
  level_role command_role : Text → Text → Problem

-- A condition that is a problem.
abbrev pub report : Bool → Problem → List Problem
report true p = p ∷ []
report false p = []

abbrev pub is_registered : Registry → Text → Bool
is_registered registry name = elim (lookup_handler registry name) [ none ↦ false | some f ↦ true ]

-- The body of the loop of `VerifyCommandLevels`.
unfoldable pub command_level_problems : Registry → CommandLevel → List Problem
command_level_problems registry level =
    if level.is_base
    then []
    else if text_eq level.enter_command []
    then no_enter_command level.name ∷ []
    else report (not (is_registered registry level.enter_command))
        (enter_unregistered level.name level.enter_command)
      ++ (if not (text_eq level.exit_command [])
          then report (not (is_registered registry level.exit_command))
              (exit_unregistered level.name level.exit_command)
          else [])

-- `VerifyCommandLevels`.
unfoldable pub verify_command_levels : Registry → List CommandLevel → List Problem
unfolding command_level_problems
verify_command_levels registry [] = []
verify_command_levels registry (level ∷ order) =
    command_level_problems registry level ++ verify_command_levels registry order

-- `collectRunNames`: the names that are added.
unfoldable pub collect_run_names : Tree → List Text
collect_run_names nil = []
collect_run_names (entry name (command f sub) rest) =
    (if not (text_eq f.run []) then f.run ∷ [] else [])
    ++ (collect_run_names sub ++ collect_run_names rest)

-- `referenced`, by its names.
unfoldable pub referenced : List CommandLevel → List Text
unfolding collect_run_names
referenced [] = []
referenced (level ∷ order) =
    (if not (text_eq level.enter_command []) then level.enter_command ∷ [] else [])
    ++ ((if not (text_eq level.exit_command []) then level.exit_command ∷ [] else [])
        ++ (collect_run_names level.tree ++ referenced order))

unfoldable pub has : List Text → Text → Bool
has [] name = false
has (n ∷ names) name = if text_eq n name then true else has names name

-- The names of the registry that are not referenced.
unfoldable pub unreferenced : List Text → Registry → List Text
unfolding has
unreferenced names [] = []
unreferenced names ((key, f) ∷ registry) =
    let rest = unreferenced names registry in if not (has names key) then key ∷ rest else rest

-- `sort.Slice` by the messages.
unfoldable pub insert_by : (Text → Text) → Text → List Text → List Text
insert_by message a [] = a ∷ []
insert_by message a (b ∷ l) =
    if text_leb (message a) (message b) then a ∷ b ∷ l else b ∷ insert_by message a l

unfoldable pub sort_by : (Text → Text) → List Text → List Text
unfolding insert_by
sort_by message [] = []
sort_by message (a ∷ l) = insert_by message a (sort_by message l)

-- `VerifyRegisteredCommandsAreReachable`, by the names of the handlers.
unfoldable pub verify_registered_commands_are_reachable :
    (Text → Text) → Registry → List CommandLevel → List Text
unfolding referenced unreferenced sort_by
verify_registered_commands_are_reachable message registry order =
    sort_by message (unreferenced (referenced order) registry)

abbrev pub is_set : Option Bool → Bool
is_set none = false
is_set (some b) = b

-- The body of the first loop of `VerifyVendorDefinedSecrets`.
unfoldable pub vendor_level_problems : CommandLevel → List Problem
vendor_level_problems level =
    report (level.vendor_restricted && not level.hidden) (restricted_not_hidden level.name)
    ++ (if text_eq level.vendor_defined_password_hash []
        then []
        else report (not (text_eq level.password_hash [])) (level_two_hashes level.name)
          ++ (report (is_set level.password_user_settable) (level_user_settable level.name)
              ++ (report (not level.hidden) (level_not_hidden level.name)
                  ++ report (not level.vendor_restricted) (level_not_restricted level.name))))

unfoldable pub vendor_levels_problems : List CommandLevel → List Problem
unfolding vendor_level_problems
vendor_levels_problems [] = []
vendor_levels_problems (level ∷ order) = vendor_level_problems level ++ vendor_levels_problems order

-- The checks of one command.
unfoldable pub vendor_command_problems : Text → Fields → List Problem
vendor_command_problems full f =
    if text_eq f.vendor_defined_password_hash []
    then []
    else report (not (text_eq f.password_hash [])) (command_two_hashes full)
      ++ (report (is_set f.password_user_settable) (command_user_settable full)
          ++ report (not f.hidden) (command_not_hidden full))

unfoldable pub is_visited : List ℕ → ℕ → Bool
is_visited [] a = false
is_visited (b ∷ visited) a = if b == a then true else is_visited visited a

-- The `walk` of a tree: the problems, and the commands that were visited.
unfoldable pub walk :
    (Text → Fields → List Problem) → (Text → ℕ) → List ℕ → Text → Tree → List Problem × List ℕ
unfolding is_visited
walk check address visited path nil = ([], visited)
walk check address visited path (entry name (command f sub) rest) =
    let full = path_of path name in
    let below = walk check address (address full ∷ visited) full sub in
    let skipped = walk check address visited path rest in
    let after = walk check address below.1 path rest in
    if is_visited visited (address full)
    then skipped
    else (check full f ++ (below.0 ++ after.0), after.1)

-- The loop over the levels.
unfoldable pub walk_levels :
    (Text → Fields → List Problem) → (Text → Text → ℕ) → List ℕ → List CommandLevel → List Problem
unfolding walk
walk_levels check address visited [] = []
walk_levels check address visited (level ∷ order) =
    let walked = walk check (address level.name) visited [] level.tree in
    walked.0 ++ walk_levels check address walked.1 order

-- `VerifyVendorDefinedSecrets`.
unfoldable pub verify_vendor_defined_secrets : (Text → Text → ℕ) → List CommandLevel → List Problem
unfolding vendor_levels_problems vendor_command_problems walk_levels
verify_vendor_defined_secrets address order =
    vendor_levels_problems order ++ walk_levels vendor_command_problems address [] order

-- `roles.ByName` is read through `Order`.
unfoldable pub has_role : List Role → Text → Bool
has_role [] name = false
has_role (r ∷ order) name = if text_eq r.name name then true else has_role order name

abbrev pub known_role : Option RoleSet → Text → Bool
known_role none name = false
known_role (some roles) name = has_role roles.order name

-- The roles of a list that are not declared, each as a problem.
unfoldable pub role_problems : (Text → Problem) → Option RoleSet → List Text → List Problem
unfolding has_role
role_problems problem roles [] = []
role_problems problem roles (r ∷ allowed_roles) =
    report (not (known_role roles r)) (problem r) ++ role_problems problem roles allowed_roles

unfoldable pub level_role_problems : Option RoleSet → List CommandLevel → List Problem
unfolding role_problems
level_role_problems roles [] = []
level_role_problems roles (level ∷ order) =
    role_problems (level_role level.name) roles level.allowed_roles
    ++ level_role_problems roles order

unfoldable pub command_role_problems : Option RoleSet → Text → Fields → List Problem
unfolding role_problems
command_role_problems roles full f = role_problems (command_role full) roles f.allowed_roles

-- `VerifyRoles`.
unfoldable pub verify_roles : (Text → Text → ℕ) → List CommandLevel → Option RoleSet → List Problem
unfolding level_role_problems command_role_problems walk_levels
verify_roles address order roles =
    level_role_problems roles order ++ walk_levels (command_role_problems roles) address [] order
