-- ===== src/Command/Level/Moves.antt =====
-- What `EnterCommandLevel` and `ExitCommandLevel` do to the session, and when.
use routercli.Base.{
  ℕ, Option, none, some, List, [], ◌∷◌, ◌≡◌, ◌≢◌, ◌↔◌, inl, inr, refl, sym, ap, ◌∙◌, arith,
  Option-cases, none-some, if◌then◌else◌, Text, text_eq, text_eq_iff,
}
use routercli.Auth.Password.{Hashers}
use routercli.Command.Tree.{Tree}
use routercli.Auth.Model.{Session}
use routercli.Command.Context.{CommandLevel, CommandLevelFrame, CommandLevelStack, AppContext}
use routercli.Command.Stack.{current, set_root_tree}
use routercli.Command.Level.{
  Clock, LevelError, Move, moved, stayed, refused, panics, require_current_command_level,
  password_gate, put_level, move_to, enter_gated, or_panic, enter_from, enter_command_level,
}
use routercli.Command.Level.Gates.{IsAdmitted, IsInRole, role_refused_iff, password_gate_iff}

-- The session moved.
abbrev pub HasMoved : Move → Type 0
HasMoved (moved ctx) = Unit
HasMoved (stayed ctx) = ⊥
HasMoved (refused e ctx) = ⊥
HasMoved panics = ⊥

pub put_level-position :
    (ctx : AppContext) (level : CommandLevel) → (put_level ctx level).position ≡ ctx.position
put_level-position ctx level = elim (Option-cases (ctx.levels)) [
  | inl e ↦ rw (e, put_level) refl
  | inr (l, e) ↦ rw (e, put_level) refl
]

pub put_level-session :
    (ctx : AppContext) (level : CommandLevel) → (put_level ctx level).session ≡ ctx.session
put_level-session ctx level = elim (Option-cases (ctx.levels)) [
  | inl e ↦ rw (e, put_level) refl
  | inr (l, e) ↦ rw (e, put_level) refl
]

rooted_list :
    (l : List CommandLevelFrame) (frame : CommandLevelFrame) (name prompt_suffix : Text)
    (tree : Tree)
    → current (record { frames = l }) ≡ some frame
    → (m' : CommandLevelStack) × (set_root_tree (record { frames = l }) name prompt_suffix tree
        ≡ some m')
unfolding current set_root_tree
rooted_list [] frame name prompt_suffix tree e = absurd (none-some e)
rooted_list (root ∷ above) frame name prompt_suffix tree e = (_, refl)

-- A stack with a current frame has a root.
pub rooted :
    (m : CommandLevelStack) (frame : CommandLevelFrame) (name prompt_suffix : Text) (tree : Tree)
    → current m ≡ some frame
    → (m' : CommandLevelStack) × (set_root_tree m name prompt_suffix tree ≡ some m')
rooted m frame name prompt_suffix tree e = rooted_list (m.frames) frame name prompt_suffix tree e

move_to-HasMoved :
    (ctx : AppContext) (s : Session) (level : CommandLevel) (t : Option ℕ)
    (frame : CommandLevelFrame)
    → current ctx.position ≡ some frame
    → HasMoved (move_to ctx s level t)
unfolding move_to
move_to-HasMoved ctx s level t frame e =
    let (m, rooted_at) = rooted ctx.position frame level.name level.prompt_suffix level.tree e in
    rw (rooted_at, move_to, HasMoved) tt

enter_gated-HasMoved :
    (ctx : AppContext) (s : Session) (frame : CommandLevelFrame) (now : ℕ)
    (gate : CommandLevel × Option LevelError)
    → current ctx.position ≡ some frame
    → HasMoved (enter_gated ctx s now gate) ↔ (gate.1 ≡ none)
enter_gated-HasMoved ctx s frame now (level, none) e = (
  λ h. refl,
  λ h.
      move_to-HasMoved (put_level ctx level) s level (some now) frame
        (ap current (put_level-position ctx level) ∙ e),
)
enter_gated-HasMoved ctx s frame now (level, some err) e =
    (λ h. absurd h, λ h. absurd (none-some (sym h)))

pub or_panic-some :
    {A : Type 0} (o : Option A) (a : A) (run : A → Move) → o ≡ some a → or_panic o run ≡ run a
or_panic-some o a run e = ap (λ x. or_panic x run) e

module _ (hashers : Hashers) (ctx : AppContext) (level : CommandLevel) (clock : Clock)
    (answer : Option Text) (s : Session) (frame : CommandLevelFrame) where
  pub opened :
      ctx.session ≡ some s
      → current ctx.position ≡ some frame
      → enter_command_level hashers ctx level clock answer ≡ (
          if text_eq s.command_level level.name
          then stayed ctx
          else enter_from hashers ctx level clock answer s frame)
  unfolding enter_command_level
  opened e f =
      or_panic-some ctx.session s _ e
      ∙ ap (λ m. if text_eq s.command_level level.name then stayed ctx else m)
          (or_panic-some (current ctx.position) frame _ f)

  -- `EnterCommandLevel`, with a session and a current frame, moves the session exactly where it is
  -- at another level, the current frame is that of the parent, the role gate lets it pass, and the
  -- password gate does: a trusted replay, no password, the grace period of this level, a recent
  -- authentication at a level that grants the bypass, or the right answer outside a lockout.
  pub enter_command_level_iff :
      ctx.session ≡ some s
      → current ctx.position ≡ some frame
      → HasMoved (enter_command_level hashers ctx level clock answer) ↔ (
          (s.command_level ≢ level.name)
          × (frame.name ≡ level.parent)
          × IsInRole ctx level
          × IsAdmitted hashers ctx level clock answer)
  unfolding enter_from require_current_command_level
  enter_command_level_iff e f = rw (opened e f) (
      ground (
        arith,
        text_eq_iff s.command_level level.name,
        text_eq_iff frame.name level.parent,
        role_refused_iff ctx level,
        password_gate_iff hashers ctx level clock answer,
        enter_gated-HasMoved ctx s frame clock.answered
            (password_gate hashers ctx level clock answer) f,
      ))
