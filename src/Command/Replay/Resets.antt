-- ===== src/Command/Replay/Resets.antt =====
-- What replay leaves behind, however it ends.
use routercli.Base.{
  ℕ, Bool, true, false, Option, none, some, List, [], ◌∷◌, ◌≡◌, inl, inr, refl, ap, some-injective,
  none_and_some, sym, Bool-cases, Option-cases, Text, codes, text_eq, has_prefix, trim_space, split,
  ◌||◌,
}
use routercli.Tokenize.{Result, tokens, unterminated, tokenize}
use routercli.Auth.Model.{Session}
use routercli.Command.Tree.{Command, fields, Handler}
use routercli.Command.Resolve.{ResolveResult, Outcome, returns, nil_dereference, no_fuel, resolve}
use routercli.Command.Context.{AppContext, CommandLevel, CommandLevelFrame}
use routercli.Command.Stack.{current, new_command_level_stack}
use routercli.Command.Build.{base}
use routercli.Command.Replay.{
  Handlers, Replayed, went, stopped, panicked, handler_panicked, Ran, returned, panics, out_of_fuel,
  and_then, deferred, after_run, invalid, run_handler, run_result, run_tokens, replay_line,
  replay_each, set_replaying, replay_lines, bad_tokens, reset_to_base, reset_after, with_session,
  Startup, replayed, no_base, read_error, no_startup_config, ReadFile, contents, not_exist,
  unreadable, load_startup_config, levels_of,
}

-- What holds of the context that is left, however replay ended: `P`, or `Q` after the panic of a
-- handler.
abbrev pub Leaves : (AppContext → Type 0) → (AppContext → Type 0) → Replayed → Type 0
Leaves P Q (went ctx) = P ctx
Leaves P Q (stopped e ctx) = P ctx
Leaves P Q (panicked ctx) = P ctx
Leaves P Q (handler_panicked ctx) = Q ctx
Leaves P Q out_of_fuel = Unit

abbrev Any : AppContext → Type 0
Any ctx = Unit

abbrev IsPositive : AppContext → Type 0
IsPositive ctx = ctx.negated ≡ false

after_run-Leaves : (line : Text) (r : Ran) → Leaves IsPositive Any (after_run line r)
after_run-Leaves line (returned ctx none) = refl
after_run-Leaves line (returned ctx (some e)) = refl
after_run-Leaves line (panics ctx) = tt

module _ (fuel : ℕ) (run : Handlers) (ctx : AppContext) (line : Text)
    (h : ctx.negated ≡ false) where
  run_handler-Leaves :
      (res : ResolveResult) (cmd : Command) (f : Handler)
      → Leaves IsPositive Any (run_handler run ctx line res cmd f)
  unfolding run_handler
  run_handler-Leaves res cmd f = elim (Option-cases (invalid res cmd)) [
    | inl e ↦
        rw (run_handler, e)
          (after_run-Leaves line (run f (record ctx { negated = res.negated }) res.args))
    | inr (a, e) ↦ rw (run_handler, e) h
  ]

  run_result-Leaves :
      (frame : CommandLevelFrame) (res : ResolveResult)
      → Leaves IsPositive Any (run_result run ctx line frame res)
  unfolding run_result
  run_result-Leaves frame res = elim (Option-cases res.directives) [
    | inl e ↦ rw (run_result, e) h
    | inr (cmd, e) ↦ elim (Option-cases (fields cmd).run_func) [
      | inl g ↦ rw (run_result, e, g) h
      | inr (f, g) ↦ rw (run_result, e, g) (run_handler-Leaves res cmd f)
    ]
  ]

  Leaves-outcome :
      (frame : CommandLevelFrame) (o : Outcome ResolveResult)
      → Leaves IsPositive Any (elim o [
        | nil_dereference ↦ panicked ctx
        | no_fuel ↦ out_of_fuel
        | returns res ↦ run_result run ctx line frame res
      ])
  Leaves-outcome frame nil_dereference = h
  Leaves-outcome frame no_fuel = tt
  Leaves-outcome frame (returns res) = run_result-Leaves frame res

  run_tokens-Leaves :
      (words : List Text) → Leaves IsPositive Any (run_tokens fuel run ctx line words)
  unfolding run_tokens
  run_tokens-Leaves words = elim (Option-cases (current ctx.position)) [
    | inl e ↦ rw (run_tokens, e) h
    | inr (frame, e) ↦ rw (run_tokens, e) (Leaves-outcome frame (resolve fuel frame.tree words))
  ]

  Leaves-tokens :
      (r : Result)
      → Leaves IsPositive Any (elim r [
        | unterminated q ↦ stopped (bad_tokens line q) ctx
        | tokens words ↦ run_tokens fuel run ctx line words
      ])
  Leaves-tokens (unterminated q) = h
  Leaves-tokens (tokens words) = run_tokens-Leaves words

  replay_line-Leaves : Leaves IsPositive Any (replay_line fuel run ctx line)
  unfolding replay_line
  replay_line-Leaves = elim (Bool-cases (text_eq line [] || has_prefix line (codes "!"))) [
    | inl e ↦ rw (replay_line, e) h
    | inr e ↦ rw (replay_line, e) (Leaves-tokens (tokenize line))
  ]

and_then-Leaves :
    (P Q : AppContext → Type 0) (r : Replayed) (next : AppContext → Replayed)
    → Leaves P Q r
    → ((ctx : AppContext) → P ctx → Leaves P Q (next ctx))
    → Leaves P Q (and_then r next)
and_then-Leaves P Q (went ctx) next h k = k ctx h
and_then-Leaves P Q (stopped e ctx) next h k = h
and_then-Leaves P Q (panicked ctx) next h k = h
and_then-Leaves P Q (handler_panicked ctx) next h k = h
and_then-Leaves P Q out_of_fuel next h k = tt

replay_each-Leaves :
    (fuel : ℕ) (run : Handlers) (ctx : AppContext) (lines : List Text)
    → ctx.negated ≡ false
    → Leaves IsPositive Any (replay_each fuel run ctx lines)
unfolding replay_each
replay_each-Leaves fuel run ctx [] h = h
replay_each-Leaves fuel run ctx (line ∷ lines) h =
    and_then-Leaves IsPositive Any (replay_line fuel run ctx (trim_space line))
      (λ ctx'. replay_each fuel run ctx' lines)
      (replay_line-Leaves fuel run ctx (trim_space line) h)
      (λ ctx' h'. replay_each-Leaves fuel run ctx' lines h')

-- The flags that replay sets while it runs.
abbrev pub IsReset : Bool → AppContext → Type 0
IsReset trusted ctx =
    (ctx.negated ≡ false) × (trusted ≡ true → ctx.replaying_startup_config ≡ false)

-- The waiver of the passwords that a trusted replay sets is not left set.
abbrev pub IsUnwaived : Bool → AppContext → Type 0
IsUnwaived trusted ctx = trusted ≡ true → ctx.replaying_startup_config ≡ false

deferred-Leaves :
    (r : Replayed)
    → Leaves IsPositive Any r
    → Leaves (IsReset true) (IsUnwaived true) (deferred (set_replaying false) r)
deferred-Leaves (went ctx) h = (h, λ e. refl)
deferred-Leaves (stopped e ctx) h = (h, λ e. refl)
deferred-Leaves (panicked ctx) h = (h, λ e. refl)
deferred-Leaves (handler_panicked ctx) h = λ e. refl
deferred-Leaves out_of_fuel h = tt

untrusted-Leaves :
    (r : Replayed) → Leaves IsPositive Any r → Leaves (IsReset false) (IsUnwaived false) r
untrusted-Leaves (went ctx) h = (h, λ e. cc)
untrusted-Leaves (stopped e ctx) h = (h, λ e. cc)
untrusted-Leaves (panicked ctx) h = (h, λ e. cc)
untrusted-Leaves (handler_panicked ctx) h = λ e. cc
untrusted-Leaves out_of_fuel h = tt

-- However `ReplayLines` ends, with an error or a panic too, after a trusted replay the flag that
-- waives the passwords is not set; and no negation is left set for the next line, where none was set
-- before and no handler panics. This holds whatever the handlers do to the context.
replay_lines-IsReset :
    (fuel : ℕ) (run : Handlers) (ctx : AppContext) (lines : List Text) (trusted : Bool)
    → ctx.negated ≡ false
    → Leaves (IsReset trusted) (IsUnwaived trusted) (replay_lines fuel run ctx lines trusted)
unfolding replay_lines
replay_lines-IsReset fuel run ctx lines true h =
    deferred-Leaves (replay_each fuel run (set_replaying true ctx) lines)
      (replay_each-Leaves fuel run (set_replaying true ctx) lines h)
replay_lines-IsReset fuel run ctx lines false h =
    untrusted-Leaves (replay_each fuel run ctx lines) (replay_each-Leaves fuel run ctx lines h)

-- The session is at the base level, and the stack has its frame alone.
abbrev pub IsAtBase : CommandLevel → AppContext → Type 0
IsAtBase b ctx =
    (ctx.position ≡ new_command_level_stack b.name b.prompt_suffix b.tree)
    × ((s : Session) → ctx.session ≡ some s → s.command_level ≡ b.name)

at_level :
    (o : Option Session) (name : Text) (s : Session)
    → (elim o [ none ↦ none | some s ↦ some (record s { command_level = name }) ]) ≡ some s
    → s.command_level ≡ name
at_level none name s h = none_and_some refl h
at_level (some t) name s h = ap (λ x. x.command_level) (sym (some-injective h))

reset_to_base-IsAtBase : (b : CommandLevel) (ctx : AppContext) → IsAtBase b (reset_to_base b ctx)
reset_to_base-IsAtBase b ctx = (refl, λ s h. at_level ctx.session b.name s h)

abbrev IsSettled : CommandLevel → AppContext → Type 0
IsSettled b ctx = IsAtBase b ctx × IsReset true ctx

with_session-Leaves :
    (P Q : AppContext → Type 0) (o : Option Session) (ctx : AppContext) (r : Replayed)
    → P ctx
    → Leaves P Q r
    → Leaves P Q (with_session o ctx r)
with_session-Leaves P Q none ctx r h k = h
with_session-Leaves P Q (some s) ctx r h k = k

-- What is promised after the panic of a handler: all that is deferred.
abbrev IsReverted : CommandLevel → AppContext → Type 0
IsReverted b ctx = IsAtBase b ctx × IsUnwaived true ctx

settled :
    (b : CommandLevel) (ctx : AppContext) → IsReset true ctx → IsSettled b (reset_to_base b ctx)
settled b ctx h = (reset_to_base-IsAtBase b ctx, h)

reset_after-Leaves :
    (b : CommandLevel) (r : Replayed)
    → Leaves (IsReset true) (IsUnwaived true) r
    → Leaves (IsSettled b) (IsReverted b) (reset_after b r)
reset_after-Leaves b (went ctx) h =
    with_session-Leaves (IsSettled b) (IsReverted b) ctx.session (reset_to_base b ctx)
      (went (reset_to_base b ctx)) (settled b ctx h) (settled b ctx h)
reset_after-Leaves b (stopped e ctx) h =
    with_session-Leaves (IsSettled b) (IsReverted b) ctx.session (reset_to_base b ctx)
      (stopped e (reset_to_base b ctx)) (settled b ctx h) (settled b ctx h)
reset_after-Leaves b (panicked ctx) h = settled b ctx h
reset_after-Leaves b (handler_panicked ctx) h = (reset_to_base-IsAtBase b ctx, h)
reset_after-Leaves b out_of_fuel h = tt

-- What `LoadStartupConfig` leaves: as it was where no file is read or there is no base level.
abbrev pub IsStarted : AppContext → Startup → Type 0
IsStarted ctx (no_startup_config c) = c ≡ ctx
IsStarted ctx (read_error c) = c ≡ ctx
IsStarted ctx (no_base c) = c ≡ ctx
IsStarted ctx (replayed r) =
    (b : CommandLevel) × (base (levels_of ctx) ≡ some b)
    × Leaves (λ c. IsAtBase b c × IsReset true c) (λ c. IsAtBase b c × IsUnwaived true c) r

-- After `LoadStartupConfig`, however the replay of the file ended, the session is back at the base
-- level with the base frame alone, and nothing of the replay is left set, but that a negation may be
-- after the panic of a handler. Without a file the context is as it was. No negation and no replay
-- is set before.
pub load_startup_config-IsStarted :
    (fuel : ℕ) (run : Handlers) (ctx : AppContext) (file : ReadFile)
    → ctx.negated ≡ false
    → ctx.replaying_startup_config ≡ false
    → IsStarted ctx (load_startup_config fuel run ctx file)
unfolding load_startup_config
load_startup_config-IsStarted fuel run ctx not_exist h g = refl
load_startup_config-IsStarted fuel run ctx unreadable h g = refl
load_startup_config-IsStarted fuel run ctx (contents data') h g =
    elim (Option-cases (base (levels_of ctx))) [
      | inl e ↦ rw (load_startup_config, e) refl
      | inr (b, e) ↦
          rw (load_startup_config, e)
            (
              b,
              e,
              with_session-Leaves (IsSettled b) (IsReverted b) ctx.session (reset_to_base b ctx)
                  (reset_after b
                    (replay_lines fuel run (reset_to_base b ctx) (split b'\n' data') true))
                  (settled b ctx (h, λ t. g))
                  (reset_after-Leaves b
                    (replay_lines fuel run (reset_to_base b ctx) (split b'\n' data') true)
                    (replay_lines-IsReset fuel run (reset_to_base b ctx) (split b'\n' data') true
                      h)),
            )
    ]
