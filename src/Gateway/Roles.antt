-- ===== src/Gateway/Roles.antt =====
-- roles/roles.service.ts, which the gateway and the authentication server share word for word, and
-- the gateway's common/guards/roles.guard.ts.
use msa_tuto_server.Base.{
  String, Bool, true, false, ◌&&◌, ◌||◌, Option, none, some, List, [], ◌∷◌, ◌++◌, ◌==◌, includes,
  any, if◌then◌else◌,
}
use msa_tuto_server.Http.{forbidden, failure, Result, ok, err}

unfoldable pub get_role_permissions : String → List String
get_role_permissions role =
    if role == "ADMIN"
    then "all" ∷ []
    else if role == "OPERATOR"
    then "create_event" ∷ "create_reward" ∷ "read_reward" ∷ []
    else if role == "AUDITOR"
    then "read_reward" ∷ []
    else if role == "USER"
    then "request_reward" ∷ []
    else []

unfoldable pub validate_role_permission : String → String → Bool
unfolding get_role_permissions
validate_role_permission role permission =
    let permissions = get_role_permissions role in
    includes permissions permission || includes permissions "all"

-- `getUserPermissions`; repetitions are dropped by the source, which no membership test can see.
unfoldable pub get_user_permissions : List String → List String
unfolding get_role_permissions
get_user_permissions [] = []
get_user_permissions (r ∷ rs) = get_role_permissions r ++ get_user_permissions rs

abbrev pub is_missing : Option (List String) → Bool
is_missing none = true
is_missing (some []) = true
is_missing (some (x ∷ xs)) = false

-- The check of permissions at the end of `canActivate`.
abbrev pub permission_check : Option (List String) → List String → Result Bool
permission_check none roles = ok true
permission_check (some []) roles = ok true
permission_check (some (p ∷ ps)) roles =
    let owned = get_user_permissions roles in
    if any (λ q. includes owned q || includes owned "all") (p ∷ ps)
    then ok true
    else err (forbidden "필요한 권한이 없습니다")

-- The checks of a user with roles who is no administrator; `undefined.some` throws.
abbrev pub role_check : Option (List String) → Option (List String) → List String → Result Bool
role_check none permissions roles =
    err (failure "Cannot read properties of undefined (reading 'some')")
role_check (some required) permissions roles =
    if any (includes roles) required
    then permission_check permissions roles
    else err (forbidden "User does not have sufficient permissions.")

-- `RolesGuard.canActivate`: `user` is the roles of the request's user, if it has any.
unfoldable pub roles_guard :
    Option (List String) → Option (List String) → Option (List String) → Result Bool
unfolding get_user_permissions
roles_guard required_roles required_permissions none =
    if is_missing required_roles && is_missing required_permissions
    then ok true
    else err (forbidden "User has no roles")
roles_guard required_roles required_permissions (some roles) =
    if is_missing required_roles && is_missing required_permissions
    then ok true
    else if includes roles "ADMIN"
    then ok true
    else role_check required_roles required_permissions roles
