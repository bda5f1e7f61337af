-- ===== src/Access.antt =====
-- Who may call what: the users that tokens stand for, and the guards of the game event server in
-- game-event-server/src/common.
use msa_tuto_server.Base.{
  String, Bool, true, false, Option, none, some, List, ◌==◌, any, includes, is_some, not,
  if◌then◌else◌,
}
use msa_tuto_server.Http.{M, throw, unauthorized, forbidden}

-- What `JwtStrategy.validate` attaches to a request.
pub record AuthUser : Type 0 where
  pub user_id : String
  pub email : Option String
  pub roles : List String

-- `user?.[data]` of the `User` decorator, at a key that names a text.
unfoldable pub user_property : String → Option AuthUser → Option String
user_property key none = none
user_property key (some u) =
    if key == "userId" then some u.user_id else if key == "email" then u.email else none

-- `user?.roles?.includes(role)`
abbrev pub has_role : Option AuthUser → String → Bool
has_role none role = false
has_role (some u) role = includes u.roles role

-- `RolesGuard.canActivate`: a handler with no `Roles` decorator is open.
unfoldable pub roles_guard : Option (List String) → Option AuthUser → Bool
roles_guard none user = true
roles_guard (some required) user = any (has_role user) required

-- `JwtAuthGuard.canActivate`: `passport` is what the passport guard answers.
unfoldable pub jwt_guard : Bool → Bool → Bool
jwt_guard is_public passport = if is_public then true else passport

-- A handler behind the two guards, for the user that passport attached; nest answers a guard that
-- does not let a request through with an exception.
abbrev pub guarded : {S A : Type 0} → Bool → Option (List String) → Option AuthUser → M S A → M S A
guarded is_public required caller handler =
    if not (jwt_guard is_public (is_some caller))
    then throw (unauthorized "Unauthorized")
    else if not (roles_guard required caller)
    then throw (forbidden "Forbidden resource")
    else handler
