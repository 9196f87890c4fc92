-- ===== src/Command/Roles/Gate.antt =====
-- Who passes a role gate.
use routercli.Base.{true, false, List, [], ◌∷◌, ◌≡◌, ◌≢◌, ◌↔◌, ◌⊎◌, refl, arith, Text, text_eq_iff}
use routercli.Command.Context.{AppContext}
use routercli.Command.Roles.{current_user_roles, allowed, any_allowed, bypass_of, authorized}

-- The list has the text.
abbrev pub Has : Text → List Text → Type 0
Has r [] = ⊥
Has r (a ∷ l) = (r ≡ a) ⊎ Has r l

-- The two lists meet.
abbrev pub Meets : List Text → List Text → Type 0
Meets [] l = ⊥
Meets (r ∷ roles) l = Has r l ⊎ Meets roles l

allowed_iff : (r : Text) (l : List Text) → (allowed r l ≡ true) ↔ Has r l
unfolding allowed
allowed_iff r [] = ground arith
allowed_iff r (a ∷ l) = ground (arith, text_eq_iff r a, allowed_iff r l)

any_allowed_iff :
    (bypass : Text) (l roles : List Text)
    → (any_allowed bypass l roles ≡ true) ↔ ((bypass ≢ [] × Has bypass roles) ⊎ Meets roles l)
unfolding any_allowed
any_allowed_iff bypass l [] = ground arith
any_allowed_iff bypass l (r ∷ roles) = ground (
  arith,
  text_eq_iff bypass [],
  text_eq_iff r bypass,
  allowed_iff r l,
  any_allowed_iff bypass l roles,
)

pub authorized_nil : (ctx : AppContext) → authorized ctx [] ≡ true
unfolding authorized
authorized_nil ctx = refl

-- `Authorized` passes exactly where no role is asked for, where no login is required, where the
-- current user holds the bypass role and there is one, or where the user holds a role of the list.
-- The roles of the current user are those of its entry, and none without an authenticated session.
authorized_iff :
    (ctx : AppContext) (l : List Text)
    → (authorized ctx l ≡ true) ↔ (
        (l ≡ [])
        ⊎ ((ctx.auth_required ≡ false)
            ⊎ ((bypass_of ctx.roles ≢ [] × Has (bypass_of ctx.roles) (current_user_roles ctx))
                ⊎ Meets (current_user_roles ctx) l)))
unfolding authorized
authorized_iff ctx [] = ground arith
authorized_iff ctx (a ∷ l) =
    ground (arith, any_allowed_iff (bypass_of ctx.roles) (a ∷ l) (current_user_roles ctx))
