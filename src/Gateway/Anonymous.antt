-- ===== src/Gateway/Anonymous.antt =====
-- What the gateway forwards without a verified token, by the tables of the repository.
use msa_tuto_server.Base.{
  ℕ, String, ◌≡◌, refl, subst, true, Option, none, some, List, [], ◌∷◌, any, ◌⊎◌, inl, inr,
  Bool-cases, arith, All,
}
use msa_tuto_server.Http.{Result, ok, err}
use msa_tuto_server.Access.{AuthUser}
use msa_tuto_server.Auth.Tokens.{Payload, Jwt}
use msa_tuto_server.Auth.AdminGuard.{user_of_answer}
use msa_tuto_server.Auth.Guards.{Passport, handle_answer, attached}
use msa_tuto_server.Gateway.Path.{Text, codes, text_eq, match_path}
use msa_tuto_server.Gateway.Routes.{ProxyRouteConfig, all_routes}
use msa_tuto_server.Gateway.Service.{
  RouteResult, setup_routes, sort_routes, get_route_config_for_path,
}
use msa_tuto_server.Gateway.Roles.{roles_guard}
use msa_tuto_server.Gateway.Controller.{Outcome, handle_request, drop_first}
use msa_tuto_server.Gateway.Authorization.{is_forwarded, IsAuthorized, handle_request-IsAuthorized}
use msa_tuto_server.Gateway.Guards.{
  user_of, validate, open_paths, is_open, gateway_guard, after_guard, request_of, receive,
}
use msa_tuto_server.Gateway.Reached.{is_closed, closed_refused}

-- The table as the service sets it up.
abbrev pub table : (Text → Option String) → Option String → Option String → List ProxyRouteConfig
table env auth game = setup_routes env (all_routes auth game)

module _ (env : Text → Option String) (auth game : Option String) where
  refresh_closed : is_closed (table env auth game) (codes "auth/refresh-token") ≡ true
  unfolding setup_routes sort_routes match_path
  refresh_closed = refl

  docs_closed : is_closed (table env auth game) (codes "api-docs") ≡ true
  unfolding setup_routes sort_routes match_path
  docs_closed = refl

text_eq-true : (s t : Text) → text_eq s t ≡ true → s ≡ t
text_eq-true [] [] h = refl
text_eq-true [] (d ∷ t) h = absurd (cc h)
text_eq-true (c ∷ s) [] h = absurd (cc h)
text_eq-true (c ∷ s) (d ∷ t) h =
    let same : c ≡ d = ground arith in
    let rest : text_eq s t ≡ true = ground arith in λ i. same i ∷ text_eq-true s t rest i

each :
    (P : Text → Type 0) (ps : List Text) (path : Text)
    → any (λ p. text_eq p path) ps ≡ true
    → All P ps
    → P path
each P [] path h k = absurd (cc h)
each P (p ∷ ps) path h k = elim (Bool-cases (text_eq p path)) [
  | inl t ↦ subst P (text_eq-true p path t) k.0
  | inr f ↦ each P ps path (rw f at h) k.1
]

-- The request bears a verified token, and its user meets the demands of the route that was found.
pub record IsVerified (jwt : Jwt) (passport : Passport jwt AuthUser)
    (routes : List ProxyRouteConfig) (now : ℕ) (method : String) (path : Text)
    (header : Option String) : Type 0 where
  pub token : String
  pub payload : Payload
  pub borne : passport.extract header ≡ some token
  pub verified : jwt.verify now token ≡ ok payload
  pub found : RouteResult
  pub chosen : get_route_config_for_path routes (drop_first path) method ≡ some found
  pub authorized : IsAuthorized found.route_config (some (user_of payload))

module _ (env : Text → Option String) (auth game : Option String) (method : String) where
  -- What the table of the repository lets through of the open paths.
  open_forwarded :
      (path : Text)
      → is_open path ≡ true
      → is_forwarded (handle_request (table env auth game) (request_of method path none)) ≡ true
      → (path ≡ codes "/auth/login") ⊎ (path ≡ codes "/auth/register")
  unfolding handle_request
  open_forwarded path h k =
      each
        (λ q.
          is_forwarded (handle_request (table env auth game) (request_of method q none)) ≡ true
          → (q ≡ codes "/auth/login") ⊎ (q ≡ codes "/auth/register"))
        open_paths path h
        (
          λ g. inl refl,
          (
            λ g. inr refl,
            (
              λ g. absurd (
                  closed_refused (table env auth game) method (codes "/auth/refresh-token")
                    (refresh_closed env auth game) g),
              (
                λ g. absurd (cc g),
                (
                  λ g. absurd (cc g),
                  (
                    λ g. absurd (cc g),
                    (
                      λ g. absurd (
                          closed_refused (table env auth game) method (codes "/api-docs")
                            (docs_closed env auth game) g),
                      tt,
                    ),
                  ),
                ),
              ),
            ),
          ),
        )
        k

module _ (jwt : Jwt) (passport : Passport jwt AuthUser) (env : Text → Option String)
    (auth game : Option String) (now : ℕ) (method : String) (path : Text) (header : Option String)
    (outcome : Outcome) where
  -- The gateway forwards a request, as a call or as a message, only to the paths /auth/login and
  -- /auth/register, or if it bears a token that the JWT library verifies at that time and the user of
  -- the token meets every demand of the route found for it, by the table of the repository whatever
  -- the environment.
  pub receive-IsVerified :
      receive jwt passport (table env auth game) now method path header ≡ ok outcome
      → is_forwarded outcome ≡ true
      → ((path ≡ codes "/auth/login") ⊎ (path ≡ codes "/auth/register"))
        ⊎ IsVerified jwt passport (table env auth game) now method path header
  unfolding receive gateway_guard roles_guard
  receive-IsVerified h k = elim (Bool-cases (is_open path)) [
    | inl t ↦ inl (open_forwarded env auth game method path t (opened (rw t at h)))
    | inr f ↦ inr (guarded_by _ refl (rw f at h))
  ]
    where
      opened :
          after_guard (table env auth game) method path (ok none) ≡ ok outcome
          → is_forwarded (handle_request (table env auth game) (request_of method path none)) ≡ true
      opened g =
          let same : handle_request (table env auth game) (request_of method path none) ≡ outcome =
            cc g in
          rw same k

      guarded_by :
          (r : Result AuthUser)
          → handle_answer (passport.run now header validate) ≡ r
          → after_guard (table env auth game) method path (attached r) ≡ ok outcome
          → IsVerified jwt passport (table env auth game) now method path header
      guarded_by (err e) q g = absurd (cc g)
      guarded_by (ok u) q g =
          let (token, p, borne, verified, same) =
            passport.run_law now header validate u
              (user_of_answer (passport.run now header validate) u q) in
          let sent : handle_request (table env auth game) (request_of method path (some u))
              ≡ outcome =
            cc g in
          let (found, chosen, authorized) =
            handle_request-IsAuthorized (table env auth game) (request_of method path (some u))
              (rw sent k) in
          let user : user_of p ≡ u = cc same in
          record {
            token = token;
            payload = p;
            borne = borne;
            verified = verified;
            found = found;
            chosen = chosen;
            authorized = rw user authorized;
          }
