-- ===== src/Command/Args.antt =====
-- command/command.go: whether a command accepts the arguments that were typed. An argument is its
-- runes, and the bounds `MinArgs` and `MaxArgs` are natural numbers.
pub mod Agree
use routercli.Base.{
  ℕ, Bool, true, false, not, ◌&&◌, Option, none, some, List, [], ◌∷◌, ltb, if◌then◌else◌, length,
  Text, text_eq,
}
use routercli.Command.Tree.{Command, Fields, fields}

-- `args[:n-1]` where the last argument is empty.
unfoldable pub strip_placeholder : List Text → List Text
strip_placeholder [] = []
strip_placeholder (a ∷ []) = if text_eq a [] then [] else a ∷ []
strip_placeholder (a ∷ b ∷ rest) = a ∷ strip_placeholder (b ∷ rest)

-- `cmd.MinArgs != nil && n < *cmd.MinArgs`.
abbrev pub below_min : Option ℕ → ℕ → Bool
below_min none n = false
below_min (some m) n = ltb n m

-- `cmd.MaxArgs != nil && n > *cmd.MaxArgs`.
abbrev pub above_max : Option ℕ → ℕ → Bool
above_max none n = false
above_max (some m) n = ltb m n

-- `runnableAsIs`.
unfoldable pub runnable_as_is : Option Command → List Text → Bool
unfolding strip_placeholder
runnable_as_is none args = false
runnable_as_is (some cmd) args = elim (fields cmd).run_func [
  | none ↦ false
  | some f ↦
      let effective = strip_placeholder args in
      if below_min (fields cmd).min_args (length effective)
      then false
      else if above_max (fields cmd).max_args (length effective)
      then false
      else true
]

-- `AcceptsMoreArgs`.
unfoldable pub accepts_more_args : Option Command → List Text → Bool
unfolding strip_placeholder
accepts_more_args none args = false
accepts_more_args (some cmd) args = elim (fields cmd).max_args [
  | none ↦ true
  | some m ↦ ltb (length (strip_placeholder args)) m
]

-- The errors of `ValidateArgs`, with what their text shows.
pub data ArgError : Type 0 where
  not_enough : ℕ → ℕ → ArgError
  too_many : ℕ → ℕ → ArgError
  too_long : ℕ → Text → ArgError

-- The first argument longer than `limit`.
pub first_too_long : ℕ → List Text → Option ArgError
first_too_long limit [] = none
first_too_long limit (a ∷ args) =
    if ltb limit (length a) then some (too_long limit a) else first_too_long limit args

unfoldable pub check_length : ℕ → List Text → Option ArgError
unfolding first_too_long
check_length limit args = if ltb 0 limit then first_too_long limit args else none

abbrev check_max : Option ℕ → List Text → Option ArgError → Option ArgError
check_max none args rest = rest
check_max (some m) args rest = if ltb m (length args) then some (too_many m (length args)) else rest

abbrev check_min : Option ℕ → List Text → Option ArgError → Option ArgError
check_min none args rest = rest
check_min (some m) args rest =
    if ltb (length args) m then some (not_enough m (length args)) else rest

-- `ValidateArgs`: `none` is a nil error.
unfoldable pub validate_args : Command → List Text → Option ArgError
unfolding check_length
validate_args cmd args =
    check_min (fields cmd).min_args args
      (check_max (fields cmd).max_args args (check_length (fields cmd).max_arg_length args))
