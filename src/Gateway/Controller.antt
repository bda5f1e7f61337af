-- ===== src/Gateway/Controller.antt =====
-- gateway/gateway.controller.ts: what becomes of a request that the guards let through. The proxied
-- call and the message go out to other services, so they are outcomes here.
use msa_tuto_server.Base.{
  String, Bool, true, ◌&&◌, ◌||◌, not, Option, none, some, List, [], ◌∷◌, ◌++◌, includes, any,
  is_some, if◌then◌else◌,
}
use msa_tuto_server.Access.{AuthUser}
use msa_tuto_server.Gateway.Path.{Text, Params, codes, match_path}
use msa_tuto_server.Gateway.Routes.{ProxyRouteConfig}
use msa_tuto_server.Gateway.Service.{RouteResult, starts_with, get_route_config_for_path}
use msa_tuto_server.Gateway.Roles.{validate_role_permission}

pub record Request : Type 0 where
  pub method : String
  -- with its leading slash
  pub path : Text
  pub params : Params
  pub user : Option AuthUser

pub data Outcome : Type 0 where
  -- handed to the next handler
  passed : Outcome
  not_found unauthorized forbidden : Outcome
  -- an event on the queue with this pattern, and the answer 202
  queued : String → Request → Outcome
  -- a call of the service at this URL
  proxied : Option String → Request → Outcome

-- `req.path.substring(1)`
abbrev pub drop_first : Text → Text
drop_first [] = []
drop_first (c ∷ s) = s

-- `(req.user as any)?.roles || []`
abbrev pub roles_of : Option AuthUser → List String
roles_of none = []
roles_of (some u) = u.roles

-- The roles of a route ask for one of them, if there are any.
abbrev pub role_allowed : Option (List String) → List String → Bool
role_allowed none owned = true
role_allowed (some []) owned = true
role_allowed (some (r ∷ rs)) owned = any (includes owned) (r ∷ rs)

-- The permissions of a route: the nested loops stop at the first role that grants one.
abbrev pub permission_allowed : Option (List String) → List String → Bool
permission_allowed none owned = true
permission_allowed (some []) owned = true
permission_allowed (some (p ∷ ps)) owned =
    includes owned "admin" || any (λ r. any (validate_role_permission r) (p ∷ ps)) owned

-- `{ ...req.params, ...matchResult.params }`, if the pattern matches
abbrev pub with_match : Request → Option Params → Request
with_match req none = req
with_match req (some ps) = record req { params = ps ++ req.params }

abbrev pub dispatch : ProxyRouteConfig → Request → Outcome
dispatch config req = elim config.rabbitmq [
  | none ↦ proxied config.target_url req
  | some pattern ↦
      if config.use_message_queue then queued pattern req else proxied config.target_url req
]

-- The checks of a route, and what follows them.
unfoldable pub authorize : ProxyRouteConfig → Request → Outcome
authorize config req =
    if config.require_auth && not (is_some req.user)
    then unauthorized
    else if not (role_allowed config.roles (roles_of req.user))
    then forbidden
    else if not (permission_allowed config.permissions (roles_of req.user))
    then forbidden
    else dispatch config req

abbrev pub with_route : Text → Request → Option RouteResult → Outcome
with_route path req none = not_found
with_route path req (some found) =
    authorize found.route_config (with_match req (match_path found.matched_pattern path))

unfoldable pub handle_request : List ProxyRouteConfig → Request → Outcome
unfolding authorize
handle_request routes req =
    let path = drop_first req.path in
    if starts_with (codes "/health") req.path
    then passed
    else with_route path req (get_route_config_for_path routes path req.method)
