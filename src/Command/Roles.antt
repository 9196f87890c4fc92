-- ===== src/Command/Roles.antt =====
-- command/roles.go: `CurrentUserRoles` and `Authorized`.
pub mod Gate
use routercli.Base.{
  Bool, true, false, not, ◌&&◌, ◌||◌, Option, none, some, List, [], ◌∷◌, if◌then◌else◌, Text,
  text_eq,
}
use routercli.Auth.Model.{Session, User, Users, find_user}
use routercli.Command.Context.{RoleSet, AppContext}

abbrev pub roles_of : Users → Text → List Text
roles_of users name = elim (find_user users name) [ none ↦ [] | some u ↦ u.roles ]

-- `CurrentUserRoles`, nil being the empty list.
unfoldable pub current_user_roles : AppContext → List Text
current_user_roles ctx = elim (ctx.session) [
  | none ↦ []
  | some s ↦
      if not s.authenticated
      then []
      else elim (ctx.users) [ none ↦ [] | some users ↦ roles_of users s.username ]
]

-- The inner loop of `Authorized`.
unfoldable pub allowed : Text → List Text → Bool
allowed r [] = false
allowed r (a ∷ allowed_roles) = if text_eq r a then true else allowed r allowed_roles

-- The outer loop.
unfoldable pub any_allowed : Text → List Text → List Text → Bool
unfolding allowed
any_allowed bypass allowed_roles [] = false
any_allowed bypass allowed_roles (r ∷ roles) =
    if not (text_eq bypass []) && text_eq r bypass
    then true
    else if allowed r allowed_roles
    then true
    else any_allowed bypass allowed_roles roles

abbrev pub bypass_of : Option RoleSet → Text
bypass_of none = []
bypass_of (some roles) = roles.bypass_role

-- `Authorized`.
unfoldable pub authorized : AppContext → List Text → Bool
unfolding current_user_roles any_allowed
authorized ctx [] = true
authorized ctx (a ∷ allowed_roles) =
    if not ctx.auth_required
    then true
    else any_allowed (bypass_of ctx.roles) (a ∷ allowed_roles) (current_user_roles ctx)
