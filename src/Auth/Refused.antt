-- ===== src/Auth/Refused.antt =====
-- Requests whose token is not accepted get past no guard.
use msa_tuto_server.Base.{
  String, ◌≡◌, refl, ◌∙◌, ap, ◌⊎◌, inl, inr, Option, none, some, List, [], ◌∷◌, includes, false,
  Bool-cases,
}
use msa_tuto_server.Http.{Exception, Result, ok, err, M, continue}
use msa_tuto_server.Auth.Tokens.{validate_jwt_token}
use msa_tuto_server.Auth.Session.{Store}
use msa_tuto_server.Auth.Guards.{
  JwtUserDto, strategy_validate, handle_answer, jwt_guard, roles_guard, public_paths, no_permission,
}
use msa_tuto_server.Auth.Server.{
  Platform, Request, post_register, post_login, post_refresh, post_logout, get_users, post_role,
  delete_role, Call, authenticated, permitted, handle_request,
}
use msa_tuto_server.Auth.AdminGuard.{user_of_answer}

-- Every request but a registration and a login stands behind the guard.
abbrev pub IsGuarded : Request → Type 0
IsGuarded (post_register dto id) = ⊥
IsGuarded (post_login email password) = ⊥
IsGuarded _ = Unit

-- The handler throws, and nothing is written.
abbrev pub IsRefused : {S A : Type 0} → M S A → S → Type 0
IsRefused m s = (x : Exception) × (m s ≡ (err x, s))

module _ {K : Type 0} (platform : Platform K) (call : Call) (token : String) (s : Store K)
    (borne : platform.passport.extract call.header ≡ some token)
    (refused : validate_jwt_token platform.redis platform.jwt call.draw.now token s.cache
      ≡ none) where
  no_user :
      (u : JwtUserDto)
      → handle_answer (
          platform.passport.run call.draw.now call.header (
            strategy_validate platform.redis platform.jwt call.draw.now
              (platform.passport.extract call.header)
              s.cache))
        ≡ ok u
      → ⊥
  unfolding strategy_validate
  no_user u h =
      let answer = platform.passport.run call.draw.now call.header (
        strategy_validate platform.redis platform.jwt call.draw.now
          (platform.passport.extract call.header) s.cache) in
      let (t, p, same, verified, validated) =
        platform.passport.run_law call.draw.now call.header _ u (user_of_answer answer u h) in
      cc (rw (borne, refused) at validated)

  unauthenticated :
      (path : String)
      → ((x : Exception) × (authenticated platform call path s ≡ (err x, s)))
        ⊎ (authenticated platform call path s ≡ (ok none, s))
  unfolding authenticated jwt_guard
  unauthenticated path = elim (Bool-cases (includes public_paths path)) [
    | inl t ↦ inr (rw t refl)
    | inr f ↦ inl (by_answer _ refl f)
  ]
    where
      by_answer :
          (r : Result JwtUserDto)
          → handle_answer (
              platform.passport.run call.draw.now call.header (
                strategy_validate platform.redis platform.jwt call.draw.now
                  (platform.passport.extract call.header)
                  s.cache))
            ≡ r
          → includes public_paths path ≡ false
          → (x : Exception) × (authenticated platform call path s ≡ (err x, s))
      by_answer (err x) q f = (x, rw (f, q) refl)
      by_answer (ok u) q f = absurd (no_user u q)

  user-IsRefused :
      {A : Type 0} (path : String) (f : Option JwtUserDto → M (Store K) A)
      → IsRefused (f none) s
      → IsRefused (λ t. continue (authenticated platform call path t) f) s
  user-IsRefused path f (x, q) = elim (unauthenticated path) [
    | inl (y, h) ↦ (y, ap (λ r. continue r f) h)
    | inr h ↦ (x, ap (λ r. continue r f) h ∙ q)
  ]

  role-IsRefused :
      {A : Type 0} (path role : String) (roles : List String) (f : Unit {0} → M (Store K) A)
      → IsRefused (λ t. continue (permitted platform call path (role ∷ roles) t) f) s
  unfolding roles_guard
  role-IsRefused path role roles f =
      let (x, q) =
        user-IsRefused path (λ user t. (roles_guard (role ∷ roles) user, t))
          (no_permission, refl) in
      (x, ap (λ r. continue r f) q)

  pub handle_request-IsRefused :
      (request : Request) → IsGuarded request → IsRefused (handle_request platform call request) s
  handle_request-IsRefused (post_register dto id) h = absurd h
  handle_request-IsRefused (post_login email password) h = absurd h
  handle_request-IsRefused (post_refresh t) h = user-IsRefused "/auth/refresh" _ (_, refl)
  handle_request-IsRefused post_logout h = user-IsRefused "/auth/logout" _ (_, refl)
  handle_request-IsRefused get_users h = role-IsRefused "/users" "ADMIN" ("AUDITOR" ∷ []) _
  handle_request-IsRefused (post_role id role) h = role-IsRefused _ "ADMIN" [] _
  handle_request-IsRefused (delete_role id role) h = role-IsRefused _ "ADMIN" [] _
