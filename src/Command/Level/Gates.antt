-- ===== src/Command/Level/Gates.antt =====
-- When `EnterCommandLevel` lets a session in.
use routercli.Base.{
  ℕ, ◌-◌, ◌<◌, true, false, Option, none, some, List, [], ◌∷◌, ◌≡◌, ◌≢◌, ◌↔◌, ◌⊎◌, inl, inr, arith,
  Option-cases, Text, text_eq_iff,
}
use routercli.Auth.RateLimiter.{allow}
use routercli.Auth.Password.{Hashers}
use routercli.Command.Context.{CommandLevel, TreeStructure, AppContext, effective_password_hash}
use routercli.Command.Roles.{authorized}
use routercli.Command.Roles.Gate.{authorized_nil}
use routercli.Command.Level.{
  Clock, within_reauth_grace_period, any_trusted, within_auth_bypass_trust, role_refused, checked,
  prompt_gate, password_gate,
}

-- The level was authenticated at `t`, not never, and less than `window` ago.
abbrev pub IsRecent : ℕ → ℕ → ℕ → Type 0
IsRecent window now t = (t ≢ 0) × (now - t < window)

-- A level of the list that grants the bypass was authenticated within the window.
abbrev pub HasRecentBypass : ℕ → ℕ → List CommandLevel → Type 0
HasRecentBypass window now [] = ⊥
HasRecentBypass window now (l ∷ order) =
    ((l.grant_auth_bypass ≡ true) × IsRecent window now l.last_authenticated_at)
    ⊎ HasRecentBypass window now order

any_trusted_iff :
    (window now : ℕ) (order : List CommandLevel)
    → (any_trusted window now order ≡ true) ↔ HasRecentBypass window now order
unfolding any_trusted
any_trusted_iff window now [] = ground arith
any_trusted_iff window now (l ∷ order) = ground (arith, any_trusted_iff window now order)

abbrev pub order_of : Option TreeStructure → List CommandLevel
order_of none = []
order_of (some levels) = levels.order

recent_needs_window :
    (window now : ℕ) (order : List CommandLevel) → window ≡ 0 → HasRecentBypass window now order → ⊥
recent_needs_window window now [] e h = h
recent_needs_window window now (l ∷ order) e h =
    ground (arith, recent_needs_window window now order e)

within_auth_bypass_trust_iff :
    (ctx : AppContext) (now : ℕ)
    → (within_auth_bypass_trust ctx now ≡ true)
      ↔ HasRecentBypass ctx.auth_bypass_trust_window now (order_of ctx.levels)
unfolding within_auth_bypass_trust
within_auth_bypass_trust_iff ctx now = elim (Option-cases (ctx.levels)) [
  | inl n ↦ rw n (ground arith)
  | inr (levels, e) ↦ rw e (
      ground (
        arith,
        any_trusted_iff ctx.auth_bypass_trust_window now levels.order,
        recent_needs_window ctx.auth_bypass_trust_window now levels.order,
      ))
]

-- What the level asks for as a password, the empty one being none.
abbrev pub hash_of : CommandLevel → Text
hash_of level = effective_password_hash level.vendor_defined_password_hash level.password_hash

-- A prompt of this level succeeded within the grace period.
abbrev pub IsInGrace : AppContext → CommandLevel → ℕ → Type 0
IsInGrace ctx level now = IsRecent ctx.reauth_grace_period now level.last_authenticated_at

-- The ways past the password gate.
abbrev pub IsAdmitted : Hashers → AppContext → CommandLevel → Clock → Option Text → Type 0
IsAdmitted hashers ctx level clock answer =
    (ctx.replaying_startup_config ≡ true)
    ⊎ ((hash_of level ≡ [])
        ⊎ (IsInGrace ctx level clock.asked
            ⊎ (HasRecentBypass ctx.auth_bypass_trust_window clock.asked (order_of ctx.levels)
                ⊎ (((allow level.rate_limiter clock.asked).0 ≡ true)
                    × (checked hashers (hash_of level) answer ≡ true)))))

-- The ways past the role gate.
abbrev pub IsInRole : AppContext → CommandLevel → Type 0
IsInRole ctx level =
    (ctx.replaying_startup_config ≡ true) ⊎ (authorized ctx level.allowed_roles ≡ true)

pub grace_iff :
    (ctx : AppContext) (level : CommandLevel) (now : ℕ)
    → (within_reauth_grace_period ctx level now ≡ true) ↔ IsInGrace ctx level now
unfolding within_reauth_grace_period
grace_iff ctx level now = ground arith

pub role_refused_iff :
    (ctx : AppContext) (level : CommandLevel)
    → (role_refused ctx level ≡ false) ↔ IsInRole ctx level
unfolding role_refused
role_refused_iff ctx level = ground (arith, authorized_nil ctx)

prompt_gate_iff :
    (hashers : Hashers) (level : CommandLevel) (hash : Text) (clock : Clock) (answer : Option Text)
    → ((prompt_gate hashers level hash clock answer).1 ≡ none)
      ↔ (((allow level.rate_limiter clock.asked).0 ≡ true) × (checked hashers hash answer ≡ true))
unfolding prompt_gate
prompt_gate_iff hashers level hash clock answer = ground arith

pub password_gate_iff :
    (hashers : Hashers) (ctx : AppContext) (level : CommandLevel) (clock : Clock)
    (answer : Option Text)
    → ((password_gate hashers ctx level clock answer).1 ≡ none)
      ↔ IsAdmitted hashers ctx level clock answer
unfolding password_gate
password_gate_iff hashers ctx level clock answer = ground (
  arith,
  text_eq_iff (hash_of level) [],
  grace_iff ctx level clock.asked,
  within_auth_bypass_trust_iff ctx clock.asked,
  prompt_gate_iff hashers level (hash_of level) clock answer,
)
