-- ===== src/Gateway/Authorization.antt =====
-- What the gateway has checked when it forwards a request, and which routes it may choose.
use msa_tuto_server.Base.{
  ◌≡◌, refl, Bool, true, false, Option, none, some, List, is_some, arith, Bool-cases, inl, inr,
}
use msa_tuto_server.Access.{AuthUser}
use msa_tuto_server.Gateway.Path.{Text, Params, codes, match_path}
use msa_tuto_server.Gateway.Routes.{ProxyRouteConfig}
use msa_tuto_server.Gateway.Service.{RouteResult, starts_with, get_route_config_for_path}
use msa_tuto_server.Gateway.Controller.{
  Request, Outcome, queued, proxied, roles_of, role_allowed, permission_allowed, with_match,
  authorize, with_route, handle_request, drop_first,
}

-- The request leaves the gateway, by either way.
abbrev pub is_forwarded : Outcome → Bool
is_forwarded (queued pattern req) = true
is_forwarded (proxied url req) = true
is_forwarded _ = false

-- The route's demands on the user.
pub record IsAuthorized (config : ProxyRouteConfig) (user : Option AuthUser) : Type 0 where
  pub known : config.require_auth ≡ true → is_some user ≡ true
  pub role : role_allowed config.roles (roles_of user) ≡ true
  pub permission : permission_allowed config.permissions (roles_of user) ≡ true

authorize-IsAuthorized :
    (config : ProxyRouteConfig) (req : Request)
    → is_forwarded (authorize config req) ≡ true
    → IsAuthorized config req.user
unfolding authorize
authorize-IsAuthorized config req h = record {
  known = λ r. ground arith;
  role = ground arith;
  permission = ground arith;
}

with_route-IsAuthorized :
    (path : Text) (req : Request) (result : Option RouteResult)
    → is_forwarded (with_route path req result) ≡ true
    → (found : RouteResult) × (result ≡ some found) × IsAuthorized found.route_config req.user
with_route-IsAuthorized path req none h = absurd (cc h)
with_route-IsAuthorized path req (some found) h =
    (found, refl, same_user (match_path found.matched_pattern path) h)
  where
    same_user :
        (m : Option Params)
        → is_forwarded (authorize found.route_config (with_match req m)) ≡ true
        → IsAuthorized found.route_config req.user
    same_user none h = authorize-IsAuthorized found.route_config req h
    same_user (some ps) h = authorize-IsAuthorized found.route_config (with_match req (some ps)) h

-- A request leaves the gateway, as a call or as a message, only if a route was found for it and its
-- user meets every demand of that route: authentication, roles and permissions.
pub handle_request-IsAuthorized :
    (routes : List ProxyRouteConfig) (req : Request)
    → is_forwarded (handle_request routes req) ≡ true
    → (found : RouteResult) × (get_route_config_for_path routes (drop_first req.path) req.method
        ≡ some found)
      × IsAuthorized found.route_config req.user
unfolding handle_request
handle_request-IsAuthorized routes req h =
    elim (Bool-cases (starts_with (codes "/health") req.path)) [
      | inl health ↦ absurd (cc (rw health at h))
      | inr other ↦ with_route-IsAuthorized _ req _ (rw other at h)
    ]
