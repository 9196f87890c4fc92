-- ===== src/Command/Args/Agree.antt =====
-- How `runnableAsIs`, `AcceptsMoreArgs` and `ValidateArgs` answer the same question.
use routercli.Base.{
  ℕ, ◌+◌, ◌≤◌, true, Option, none, some, List, [], ◌∷◌, ◌++◌, ◌≡◌, ◌≢◌, ◌↔◌, ◌⊎◌, refl, arith,
  length, length-append, ap, All, Text,
}
use routercli.Command.Tree.{Command, command, fields}
use routercli.Command.Args.{
  strip_placeholder, runnable_as_is, accepts_more_args, too_many, first_too_long, check_length,
  validate_args,
}

-- The bounds that a command sets on the number of its arguments.
abbrev AtLeast : Option ℕ → ℕ → Type 0
AtLeast none n = Unit
AtLeast (some m) n = m ≤ n

abbrev AtMost : Option ℕ → ℕ → Type 0
AtMost none n = Unit
AtMost (some m) n = n ≤ m

first_too_long_iff :
    (limit : ℕ) (args : List Text)
    → (first_too_long limit args ≡ none) ↔ All (λ a. length a ≤ limit) args
unfolding first_too_long
first_too_long_iff limit [] = ground arith
first_too_long_iff limit (a ∷ args) = ground (arith, first_too_long_iff limit args)

check_length_iff :
    (limit : ℕ) (args : List Text)
    → (check_length limit args ≡ none) ↔ ((limit ≡ 0) ⊎ All (λ a. length a ≤ limit) args)
unfolding check_length
check_length_iff limit args = ground (arith, first_too_long_iff limit args)

-- `ValidateArgs` accepts exactly the arguments whose number lies within `MinArgs` and `MaxArgs`,
-- where those are set, and of which, unless `MaxArgLength` is zero, none has more runes than that.
validate_args_iff :
    (cmd : Command) (args : List Text)
    → (validate_args cmd args ≡ none) ↔ (
        AtLeast (fields cmd).min_args (length args)
        × AtMost (fields cmd).max_args (length args)
        × (((fields cmd).max_arg_length ≡ 0)
            ⊎ All (λ a. length a ≤ (fields cmd).max_arg_length) args))
unfolding validate_args
validate_args_iff (command f s) args = ground (arith, check_length_iff f.max_arg_length args)

-- A command is `RunnableAsIs` exactly where it has a handler and the arguments, less one trailing
-- empty one, are as many as `MinArgs` and `MaxArgs` ask for.
runnable_as_is_iff :
    (cmd : Command) (args : List Text)
    → (runnable_as_is (some cmd) args ≡ true) ↔ (
        ((fields cmd).run_func ≢ none)
        × AtLeast (fields cmd).min_args (length (strip_placeholder args))
        × AtMost (fields cmd).max_args (length (strip_placeholder args)))
unfolding runnable_as_is
runnable_as_is_iff (command f s) args = ground arith

-- For a command with no `MaxArgLength`, `RunnableAsIs` holds exactly where the command has a handler
-- and `ValidateArgs` accepts the arguments less one trailing empty one.
runnable_as_is-validate_args :
    (cmd : Command) (args : List Text)
    → (fields cmd).max_arg_length ≡ 0
    → (runnable_as_is (some cmd) args ≡ true)
      ↔ (((fields cmd).run_func ≢ none) × (validate_args cmd (strip_placeholder args) ≡ none))
runnable_as_is-validate_args cmd args z =
    ground (arith, runnable_as_is_iff cmd args, validate_args_iff cmd (strip_placeholder args))

strip_placeholder-append : (args : List Text) → strip_placeholder (args ++ [] ∷ []) ≡ args
unfolding strip_placeholder
strip_placeholder-append [] = refl
strip_placeholder-append (a ∷ []) = refl
strip_placeholder-append (a ∷ b ∷ rest) = ap (◌∷◌ a) (strip_placeholder-append (b ∷ rest))

-- A command with a handler that takes up to `m` arguments, no fewer than its `MinArgs` and of any
-- length, is reported as runnable with `m` arguments and an empty one behind them, a line that
-- `ValidateArgs` refuses.
runnable_but_refused :
    (cmd : Command) (args : List Text) (m : ℕ)
    → (fields cmd).run_func ≢ none
    → (fields cmd).max_args ≡ some m
    → AtLeast (fields cmd).min_args m
    → length args ≡ m
    → (runnable_as_is (some cmd) (args ++ [] ∷ []) ≡ true)
      × (validate_args cmd (args ++ [] ∷ []) ≡ some (too_many m (m + 1)))
unfolding validate_args
runnable_but_refused (command f s) args m h x low n = (
  ground (arith, runnable_as_is_iff (command f s) (args ++ [] ∷ []), strip_placeholder-append args),
  ground (arith, length-append args ([] ∷ [])),
)

-- `AcceptsMoreArgs` holds exactly where one more argument, in the place of a trailing empty one if
-- there is one, would keep within `MaxArgs`.
accepts_more_args_iff :
    (cmd : Command) (args : List Text)
    → (accepts_more_args (some cmd) args ≡ true)
      ↔ AtMost (fields cmd).max_args (length (strip_placeholder args ++ [] ∷ []))
unfolding accepts_more_args
accepts_more_args_iff (command f s) args =
    ground (arith, length-append (strip_placeholder args) ([] ∷ []))
