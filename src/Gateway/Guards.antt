-- ===== src/Gateway/Guards.antt =====
-- common/guards/jwt-auth.guard.ts and auth/jwt.strategy.ts of the gateway, and the way of a request
-- through its guards to the controller. The application registers the guards, and the controller asks
-- for them again, which checks the same a second time. The handler asks for no roles of its own.
use msa_tuto_server.Base.{
  ℕ, String, Bool, Option, none, some, List, [], ◌∷◌, any, or_else, if◌then◌else◌,
}
use msa_tuto_server.Http.{Result, ok, err}
use msa_tuto_server.Access.{AuthUser}
use msa_tuto_server.Auth.Tokens.{Payload, Jwt}
use msa_tuto_server.Auth.Guards.{Passport, handle_answer, attached}
use msa_tuto_server.Gateway.Path.{Text, codes, text_eq}
use msa_tuto_server.Gateway.Routes.{ProxyRouteConfig}
use msa_tuto_server.Gateway.Roles.{roles_guard}
use msa_tuto_server.Gateway.Controller.{Request, Outcome, handle_request}

-- `JwtStrategy.validate`; a verified token always has a payload.
abbrev pub user_of : Payload → AuthUser
user_of p = record { user_id = p.sub; email = p.email; roles = or_else p.roles [] }

abbrev pub validate : Payload → Result AuthUser
validate p = ok (user_of p)

-- `publicPaths`
abbrev pub open_paths : List Text
open_paths =
    codes "/auth/login"
    ∷ codes "/auth/register"
    ∷ codes "/auth/refresh-token"
    ∷ codes "/health"
    ∷ codes "/health/liveness"
    ∷ codes "/health/readiness"
    ∷ codes "/api-docs"
    ∷ []

abbrev pub is_open : Text → Bool
is_open path = any (λ p. text_eq p path) open_paths

abbrev pub roles_in : Option AuthUser → Option (List String)
roles_in none = none
roles_in (some u) = some u.roles

abbrev pub request_of : String → Text → Option AuthUser → Request
request_of method path user = record { method = method; path = path; params = []; user = user }

abbrev pub after_roles : Result Bool → Outcome → Result Outcome
after_roles (ok b) outcome = ok outcome
after_roles (err e) outcome = err e

abbrev pub after_guard :
    List ProxyRouteConfig → String → Text → Result (Option AuthUser) → Result Outcome
after_guard routes method path (err e) = err e
after_guard routes method path (ok user) =
    after_roles (roles_guard none none (roles_in user))
      (handle_request routes (request_of method path user))

module _ (jwt : Jwt) (passport : Passport jwt AuthUser) where
  -- `JwtAuthGuard.canActivate`, with the user that it leaves in the request; its `handleRequest` is
  -- that of the authentication server.
  unfoldable pub gateway_guard : ℕ → Text → Option String → Result (Option AuthUser)
  gateway_guard now path header =
      if is_open path then ok none else attached (handle_answer (passport.run now header validate))

  -- A request by its method, its path and its authorization header.
  unfoldable pub receive :
      List ProxyRouteConfig → ℕ → String → Text → Option String → Result Outcome
  receive routes now method path header =
      after_guard routes method path (gateway_guard now path header)
