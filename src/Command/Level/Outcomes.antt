-- ===== src/Command/Level/Outcomes.antt =====
-- What `EnterCommandLevel` and `ExitCommandLevel` leave behind, on every way out.
use routercli.Base.{
  ℕ, true, false, Option, none, some, [], ◌≡◌, ◌≢◌, ◌⊎◌, inl, inr, refl, sym, ap, subst, ◌∙◌, arith,
  Bool-cases, some-injective, Text, text_eq, text_eq_iff, text_eq_refl,
}
use routercli.Auth.RateLimiter.{allow}
use routercli.Auth.Password.{Hashers}
use routercli.Auth.Model.{Session}
use routercli.Command.Context.{CommandLevel, CommandLevelFrame, CommandLevelStack, AppContext}
use routercli.Command.Stack.{new_command_level_stack, current, set_root_tree}
use routercli.Command.Level.{
  Clock, LevelError, Move, moved, stayed, refused, panics, require_current_command_level, checked,
  prompt_gate, password_gate, put_level, move_to, enter_gated, enter_from, enter_command_level,
  exit_command_level,
}
use routercli.Command.Level.Gates.{hash_of, IsInGrace, grace_iff}
use routercli.Command.Level.Moves.{
  put_level-position, put_level-session, rooted, or_panic-some, opened,
}

-- A level of the same name, prompt and tree.
abbrev IsLike : CommandLevel → CommandLevel → Type 0
IsLike a b = (a.name ≡ b.name) × (a.prompt_suffix ≡ b.prompt_suffix) × (a.tree ≡ b.tree)

prompt_gate-IsLike :
    (hashers : Hashers) (level : CommandLevel) (hash : Text) (clock : Clock) (answer : Option Text)
    → IsLike (prompt_gate hashers level hash clock answer).0 level
unfolding prompt_gate
prompt_gate-IsLike hashers level hash clock answer = ground arith

password_gate-IsLike :
    (hashers : Hashers) (ctx : AppContext) (level : CommandLevel) (clock : Clock)
    (answer : Option Text)
    → IsLike (password_gate hashers ctx level clock answer).0 level
unfolding password_gate
password_gate-IsLike hashers ctx level clock answer =
    ground (arith, prompt_gate-IsLike hashers level (hash_of level) clock answer)

prompt_gate-last :
    (hashers : Hashers) (level : CommandLevel) (hash : Text) (clock : Clock) (answer : Option Text)
    → (prompt_gate hashers level hash clock answer).0.last_authenticated_at
      ≢ level.last_authenticated_at
    → ((allow level.rate_limiter clock.asked).0 ≡ true) × (checked hashers hash answer ≡ true)
unfolding prompt_gate
prompt_gate-last hashers level hash clock answer h = ground arith

-- The time that a level was last authenticated changes only outside a replay, at a level with a
-- password, and within the grace period of an earlier prompt or by the right answer to a prompt that
-- the rate limiter allowed. A level without a password, the trust of another level and a replay
-- leave it as it was.
password_gate-last :
    (hashers : Hashers) (ctx : AppContext) (level : CommandLevel) (clock : Clock)
    (answer : Option Text)
    → (password_gate hashers ctx level clock answer).0.last_authenticated_at
      ≢ level.last_authenticated_at
    → (ctx.replaying_startup_config ≡ false)
      × (hash_of level ≢ [])
      × (IsInGrace ctx level clock.asked
          ⊎ (((allow level.rate_limiter clock.asked).0 ≡ true)
              × (checked hashers (hash_of level) answer ≡ true)))
unfolding password_gate
password_gate-last hashers ctx level clock answer h = ground (
  arith,
  text_eq_iff (hash_of level) [],
  grace_iff ctx level clock.asked,
  prompt_gate-last hashers level (hash_of level) clock answer,
)

-- What each way out leaves of the context, the session having been `s`.
abbrev pub Leaves : AppContext → Session → CommandLevel → ℕ → Move → Type 0
Leaves ctx s level now (moved c) =
    (c.session ≡ some (record s { command_level = level.name; command_level_entered_at = now }))
    × (set_root_tree ctx.position level.name level.prompt_suffix level.tree ≡ some c.position)
Leaves ctx s level now (stayed c) = (c ≡ ctx) × (s.command_level ≡ level.name)
Leaves ctx s level now (refused e c) = (c.session ≡ ctx.session) × (c.position ≡ ctx.position)
Leaves ctx s level now panics = current ctx.position ≡ none

same_root :
    (m n after : CommandLevelStack) (l level : CommandLevel)
    → IsLike l level
    → m ≡ n
    → set_root_tree m l.name l.prompt_suffix l.tree ≡ some after
    → set_root_tree n level.name level.prompt_suffix level.tree ≡ some after
same_root m n after l level like e root = cc

enter_gated-Leaves :
    (ctx : AppContext) (s : Session) (level : CommandLevel) (now : ℕ) (frame : CommandLevelFrame)
    (gate : CommandLevel × Option LevelError)
    → IsLike gate.0 level
    → current ctx.position ≡ some frame
    → Leaves ctx s level now (enter_gated ctx s now gate)
unfolding move_to
enter_gated-Leaves ctx s level now frame (l, some err) like e =
    (put_level-session ctx l, put_level-position ctx l)
enter_gated-Leaves ctx s level now frame (l, none) like e =
    let here = ap current (put_level-position ctx l) ∙ e in
    let (m, root) = rooted (put_level ctx l).position frame l.name l.prompt_suffix l.tree here in
    rw (root, move_to, Leaves)
      (
        ap (λ n. some (record s { command_level = n; command_level_entered_at = now })) like.0,
        same_root (put_level ctx l).position ctx.position m l level like (put_level-position ctx l)
            root,
      )

enter_from-Leaves :
    (hashers : Hashers) (ctx : AppContext) (level : CommandLevel) (clock : Clock)
    (answer : Option Text) (s : Session) (frame : CommandLevelFrame)
    → current ctx.position ≡ some frame
    → Leaves ctx s level clock.answered (enter_from hashers ctx level clock answer s frame)
unfolding enter_from require_current_command_level
enter_from-Leaves hashers ctx level clock answer s frame e = ground (
  arith,
  enter_gated-Leaves ctx s level clock.answered frame (password_gate hashers ctx level clock answer)
      (password_gate-IsLike hashers ctx level clock answer) e,
)

-- On every way out of `EnterCommandLevel`, with a session and a current frame: where it moves, the
-- session is at the level from the time of the answer on, keeps its other fields, and the root frame
-- is the level's; where it stays, nothing changes and the session was there; where it refuses, the
-- session and the position are as before; and it does not panic.
pub enter_command_level-Leaves :
    (hashers : Hashers) (ctx : AppContext) (level : CommandLevel) (clock : Clock)
    (answer : Option Text) (s : Session) (frame : CommandLevelFrame)
    → ctx.session ≡ some s
    → current ctx.position ≡ some frame
    → Leaves ctx s level clock.answered (enter_command_level hashers ctx level clock answer)
enter_command_level-Leaves hashers ctx level clock answer s frame e f =
    rw (opened hashers ctx level clock answer s frame e f)
      (elim (Bool-cases (text_eq s.command_level level.name)) [
        | inl same ↦ rw same (refl, (text_eq_iff s.command_level level.name).0 same)
        | inr other ↦ rw other (enter_from-Leaves hashers ctx level clock answer s frame f)
      ])

new_stack-current :
    (parent : CommandLevel)
    → (frame : CommandLevelFrame) × (current
          (new_command_level_stack parent.name parent.prompt_suffix parent.tree)
        ≡ some frame)
unfolding current
new_stack-current parent = (_, refl)

switched_back :
    (parent level : CommandLevel) (m : CommandLevelStack)
    → set_root_tree
        (new_command_level_stack parent.name parent.prompt_suffix parent.tree)
        level.name
        level.prompt_suffix
        level.tree
      ≡ some m
    → set_root_tree m parent.name parent.prompt_suffix parent.tree
      ≡ some (new_command_level_stack parent.name parent.prompt_suffix parent.tree)
unfolding set_root_tree
switched_back parent level m e = rw⁻¹ (some-injective e) refl

move_to-at :
    (c : AppContext) (t : Session) (level : CommandLevel) (m : CommandLevelStack)
    → set_root_tree c.position level.name level.prompt_suffix level.tree ≡ some m
    → move_to c t level none
      ≡ moved (record c { session = some (record t { command_level = level.name }); position = m })
unfolding move_to
move_to-at c t level m e = rw (e, move_to) refl

-- `ExitCommandLevel` undoes the move of `EnterCommandLevel` from a new stack at the parent: the
-- position is as it was, and the session is at the parent again, but for the time at which it
-- entered a level, which stays that of the level left.
exit-enter_command_level :
    (hashers : Hashers) (ctx c : AppContext) (level parent : CommandLevel) (clock : Clock)
    (answer : Option Text) (s : Session)
    → ctx.session ≡ some s
    → ctx.position ≡ new_command_level_stack parent.name parent.prompt_suffix parent.tree
    → enter_command_level hashers ctx level clock answer ≡ moved c
    → (c' : AppContext) × ((exit_command_level c level parent ≡ moved c')
        × (c'.position ≡ ctx.position)
        × (c'.session
            ≡ some (record s {
              command_level = parent.name;
              command_level_entered_at = clock.answered;
            })))
unfolding exit_command_level
exit-enter_command_level hashers ctx c level parent clock answer s e p entered =
    let m = new_command_level_stack parent.name parent.prompt_suffix parent.tree in
    let (frame, f) = new_stack-current parent in
    let left =
      subst (Leaves ctx s level clock.answered) entered
        (enter_command_level-Leaves hashers ctx level clock answer s frame e (ap current p ∙ f)) in
    let t = record s { command_level = level.name; command_level_entered_at = clock.answered } in
    let back = switched_back parent level c.position (rw p at left.1) in
    (
      record c { session = some (record t { command_level = parent.name }); position = m },
      (
        or_panic-some c.session t _ left.0
            ∙ rw (text_eq_refl level.name) (move_to-at c t parent m back),
        sym p,
        refl,
      ),
    )
