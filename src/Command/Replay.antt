-- ===== src/Command/Replay.antt =====
-- command/replay.go and command/alias.go: `ReplayLines`, `LoadStartupConfig` and `ExpandAlias`. A
-- handler is the argument `run`, which takes the context to the one it leaves, with its error or in a
-- panic. The
-- output that is captured for the debug log, and a failure to capture it, are left out.
pub mod Resets
pub mod Prefix
use routercli.Base.{
  ℕ, Bool, true, false, not, ◌&&◌, ◌||◌, Option, none, some, List, [], ◌∷◌, ◌++◌, if◌then◌else◌,
  Text, codes, text_eq, has_prefix, trim_space, split,
}
use routercli.Tokenize.{Result, tokens, unterminated, tokenize}
use routercli.Auth.Model.{Session}
use routercli.Command.Tree.{Command, Tree, Fields, fields, Handler}
use routercli.Command.Args.{ArgError, validate_args}
use routercli.Command.Resolve.{Outcome, returns, nil_dereference, no_fuel, ResolveResult, resolve}
use routercli.Command.Context.{
  AppContext, CommandLevel, CommandLevelFrame, TreeStructure, find_level,
}
use routercli.Command.Stack.{current, new_command_level_stack}
use routercli.Command.Build.{base}

-- `level.Aliases[token]`.
unfoldable pub alias : List (Text × List Text) → Text → Option (List Text)
alias [] token = none
alias ((key, words) ∷ aliases) token = if text_eq key token then some words else alias aliases token

abbrev pub expanded : Option CommandLevel → Text → List Text → List Text
expanded none token rest = token ∷ rest
expanded (some level) token rest = elim (alias level.aliases token) [
  | none ↦ token ∷ rest
  | some expansion ↦ expansion ++ rest
]

-- `ExpandAlias`; a stack without a frame is a panic.
unfoldable pub expand_alias : AppContext → List Text → Option (List Text)
unfolding alias
expand_alias ctx [] = some []
expand_alias ctx (token ∷ rest) = elim (ctx.levels) [
  | none ↦ some (token ∷ rest)
  | some levels ↦ elim (current ctx.position) [
    | none ↦ none
    | some frame ↦ some (expanded (find_level levels.order frame.name) token rest)
  ]
]

-- The errors of a line, with the line.
pub data ReplayError : Type 0 where
  bad_tokens : Text → ℕ → ReplayError
  not_runnable : Text → Text → ReplayError
  bad_args : Text → ArgError → ReplayError
  failed : Text → Text → ReplayError

-- What is left of the context: after all lines, after an error, or after a panic, of a handler or
-- not.
pub data Replayed : Type 0 where
  went : AppContext → Replayed
  stopped : ReplayError → AppContext → Replayed
  panicked handler_panicked : AppContext → Replayed
  out_of_fuel : Replayed

-- What a handler leaves: the context, with its error, or the context at its panic.
pub data Ran : Type 0 where
  returned : AppContext → Option Text → Ran
  panics : AppContext → Ran

abbrev pub Handlers : Type 0
Handlers = Handler → AppContext → List Text → Ran

-- What a handler returned, its negation being reset. This is not deferred, so a panic passes it by.
abbrev pub after_run : Text → Ran → Replayed
after_run line (returned ctx none) = went (record ctx { negated = false })
after_run line (returned ctx (some e)) = stopped (failed line e) (record ctx { negated = false })
after_run line (panics ctx) = handler_panicked ctx

abbrev pub invalid : ResolveResult → Command → Option ArgError
invalid res cmd = if not res.negated then validate_args cmd res.args else none

-- The check of the arguments, and the run.
unfoldable pub run_handler :
    Handlers → AppContext → Text → ResolveResult → Command → Handler → Replayed
run_handler run ctx line res cmd f = elim (invalid res cmd) [
  | some e ↦ stopped (bad_args line e) ctx
  | none ↦ after_run line (run f (record ctx { negated = res.negated }) res.args)
]

-- `res.Command == nil || res.Command.RunFunc == nil`.
unfoldable pub run_result :
    Handlers → AppContext → Text → CommandLevelFrame → ResolveResult → Replayed
unfolding run_handler
run_result run ctx line frame res = elim (res.directives) [
  | none ↦ stopped (not_runnable line frame.name) ctx
  | some cmd ↦ elim (fields cmd).run_func [
    | none ↦ stopped (not_runnable line frame.name) ctx
    | some f ↦ run_handler run ctx line res cmd f
  ]
]

-- The tokens of a line, against the current level.
unfoldable pub run_tokens : ℕ → Handlers → AppContext → Text → List Text → Replayed
unfolding run_result
run_tokens fuel run ctx line words = elim (current ctx.position) [
  | none ↦ panicked ctx
  | some frame ↦ elim (resolve fuel frame.tree words) [
    | nil_dereference ↦ panicked ctx
    | no_fuel ↦ out_of_fuel
    | returns res ↦ run_result run ctx line frame res
  ]
]

-- The body of the loop, with the line trimmed.
unfoldable pub replay_line : ℕ → Handlers → AppContext → Text → Replayed
unfolding run_tokens
replay_line fuel run ctx line =
    if text_eq line [] || has_prefix line (codes "!") then went ctx else elim (tokenize line) [
      | unterminated q ↦ stopped (bad_tokens line q) ctx
      | tokens words ↦ run_tokens fuel run ctx line words
    ]

abbrev pub and_then : Replayed → (AppContext → Replayed) → Replayed
and_then (went ctx) next = next ctx
and_then (stopped e ctx) next = stopped e ctx
and_then (panicked ctx) next = panicked ctx
and_then (handler_panicked ctx) next = handler_panicked ctx
and_then out_of_fuel next = out_of_fuel

-- The loop.
unfoldable pub replay_each : ℕ → Handlers → AppContext → List Text → Replayed
unfolding replay_line
replay_each fuel run ctx [] = went ctx
replay_each fuel run ctx (line ∷ lines) =
    and_then (replay_line fuel run ctx (trim_space line)) (λ ctx'. replay_each fuel run ctx' lines)

-- A deferred function, which a panic runs as well.
abbrev pub deferred : (AppContext → AppContext) → Replayed → Replayed
deferred f (went ctx) = went (f ctx)
deferred f (stopped e ctx) = stopped e (f ctx)
deferred f (panicked ctx) = panicked (f ctx)
deferred f (handler_panicked ctx) = handler_panicked (f ctx)
deferred f out_of_fuel = out_of_fuel

abbrev pub set_replaying : Bool → AppContext → AppContext
set_replaying on ctx = record ctx { replaying_startup_config = on }

-- `ReplayLines`.
unfoldable pub replay_lines : ℕ → Handlers → AppContext → List Text → Bool → Replayed
unfolding replay_each
replay_lines fuel run ctx lines trusted =
    if trusted
    then deferred (set_replaying false) (replay_each fuel run (set_replaying true ctx) lines)
    else replay_each fuel run ctx lines

-- `resetToBase`; a nil session is a panic, after the position is set.
abbrev pub reset_to_base : CommandLevel → AppContext → AppContext
reset_to_base b ctx = record ctx {
  position = new_command_level_stack b.name b.prompt_suffix b.tree;
  session = elim (ctx.session) [
    | none ↦ none
    | some s ↦ some (record s { command_level = b.name })
  ];
}

-- What reading the file gives: its text, that there is none, or another error.
pub data ReadFile : Type 0 where
  contents : Text → ReadFile
  not_exist unreadable : ReadFile

pub data Startup : Type 0 where
  no_startup_config : AppContext → Startup
  read_error : AppContext → Startup
  no_base : AppContext → Startup
  replayed : Replayed → Startup

-- The panic on a nil session in `resetToBase`.
abbrev pub with_session : Option Session → AppContext → Replayed → Replayed
with_session none ctx r = panicked ctx
with_session (some s) ctx r = r

-- The reset that is deferred dereferences the session as well.
abbrev pub reset_after : CommandLevel → Replayed → Replayed
reset_after b (went ctx) =
    with_session ctx.session (reset_to_base b ctx) (went (reset_to_base b ctx))
reset_after b (stopped e ctx) =
    with_session ctx.session (reset_to_base b ctx) (stopped e (reset_to_base b ctx))
reset_after b (panicked ctx) = panicked (reset_to_base b ctx)
reset_after b (handler_panicked ctx) = handler_panicked (reset_to_base b ctx)
reset_after b out_of_fuel = out_of_fuel

abbrev levels_of : AppContext → List CommandLevel
levels_of ctx = elim (ctx.levels) [ none ↦ [] | some levels ↦ levels.order ]

-- `LoadStartupConfig`. `Base` panics without a base level, as does a nil `Levels`.
unfoldable pub load_startup_config : ℕ → Handlers → AppContext → ReadFile → Startup
unfolding replay_lines
load_startup_config fuel run ctx not_exist = no_startup_config ctx
load_startup_config fuel run ctx unreadable = read_error ctx
load_startup_config fuel run ctx (contents data') = elim (base (levels_of ctx)) [
  | none ↦ no_base ctx
  | some b ↦ replayed (
      with_session ctx.session (reset_to_base b ctx)
        (reset_after b (replay_lines fuel run (reset_to_base b ctx) (split b'\n' data') true)))
]
