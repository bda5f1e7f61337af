-- ===== src/Auth/AdminGuard.antt =====
-- What is known of a request that the guards let through to the handlers of an admin.
use msa_tuto_server.Base.{
  ℕ, String, ◌≡◌, refl, ◌∙◌, ap, true, inl, inr, Option, none, some, List, [], ◌∷◌, ◌++◌, includes,
  arith, Bool-cases,
}
use msa_tuto_server.Http.{Result, ok, err, M, lift, continue, ◌>>=◌}
use msa_tuto_server.Auth.Users.{user}
use msa_tuto_server.Auth.Tokens.{Payload, Jwt, Redis}
use msa_tuto_server.Auth.Session.{Store}
use msa_tuto_server.Auth.Guards.{
  JwtUserDto, Answered, user_of, strategy_validate, is_valid, jwt_guard, handle_answer, attached,
  check_roles, roles_guard, public_paths,
}
use msa_tuto_server.Auth.Server.{Platform, Call, Answer, authenticated, permitted}
use msa_tuto_server.Auth.SameRoles.{role_lists, KeepsRoles}

-- The call bears a verified token whose roles include `ADMIN`.
pub record HasAdmin {K : Type 0} (platform : Platform K) (call : Call) : Type 0 where
  pub token : String
  pub payload : Payload
  pub owned : List String
  pub borne : platform.passport.extract call.header ≡ some token
  pub verified : platform.jwt.verify call.draw.now token ≡ ok payload
  pub roles : payload.roles ≡ some owned
  pub is_admin : includes owned "ADMIN" ≡ true

-- What a request does to the roles of the users.
pub data RoleEffect {K : Type 0} (platform : Platform K) (call : Call) (s t : Store K)
    : Type 0 where
  same : KeepsRoles s t → RoleEffect platform call s t
  registered :
      role_lists t.people.users ≡ role_lists s.people.users ++ (user ∷ []) ∷ []
      → RoleEffect platform call s t
  by_admin : HasAdmin platform call → RoleEffect platform call s t

check_roles-admin :
    (owned : Option (List String))
    → check_roles ("ADMIN" ∷ []) owned ≡ ok tt
    → (l : List String) × (owned ≡ some l) × (includes l "ADMIN" ≡ true)
check_roles-admin none h = absurd (cc h)
check_roles-admin (some l) h = (l, refl, ground arith)

pub user_of_answer :
    {U : Type 0} (a : Answered U) (u : U) → handle_answer a ≡ ok u → a.user ≡ some u
unfolding handle_answer
user_of_answer a u h = ground arith

validated_roles :
    {K : Type 0} (redis : Redis K) (jwt : Jwt) (now : ℕ) (token : Option String) (s : K)
    (p : Payload) (u : JwtUserDto)
    → strategy_validate redis jwt now token s p ≡ ok u
    → p.roles ≡ u.roles
unfolding strategy_validate
validated_roles redis jwt now token s p u h = elim (Bool-cases (is_valid redis jwt now token s)) [
  | inl t ↦ let same : user_of p ≡ u = cc (rw t at h) in ap (λ (v : JwtUserDto). v.roles) same
  | inr f ↦ absurd (cc (rw f at h))
]

module _ {K : Type 0} (platform : Platform K) (call : Call) where
  answer-HasAdmin :
      (s : K) (u : JwtUserDto)
      → handle_answer (
          platform.passport.run call.draw.now call.header (
            strategy_validate platform.redis platform.jwt call.draw.now
              (platform.passport.extract call.header)
              s))
        ≡ ok u
      → check_roles ("ADMIN" ∷ []) u.roles ≡ ok tt
      → HasAdmin platform call
  unfolding handle_answer strategy_validate
  answer-HasAdmin s u h k =
      let answer = platform.passport.run call.draw.now call.header (
        strategy_validate platform.redis platform.jwt call.draw.now
          (platform.passport.extract call.header) s) in
      let (token, p, borne, verified, validated) =
        platform.passport.run_law call.draw.now call.header _ u (user_of_answer answer u h) in
      let (owned, claimed, is_admin) = check_roles-admin u.roles k in
      record {
        token = token;
        payload = p;
        owned = owned;
        borne = borne;
        verified = verified;
        roles =
            validated_roles platform.redis platform.jwt call.draw.now _ s p u validated ∙ claimed;
        is_admin = is_admin;
      }

  guarded_answer :
      (s : K) (r : Result JwtUserDto)
      → handle_answer (
          platform.passport.run call.draw.now call.header (
            strategy_validate platform.redis platform.jwt call.draw.now
              (platform.passport.extract call.header)
              s))
        ≡ r
      → (t : Store K)
      → (continue (attached r, t) (λ user. lift (roles_guard ("ADMIN" ∷ []) user))).0 ≡ ok tt
      → HasAdmin platform call
  unfolding roles_guard
  guarded_answer s (err e) q t h = absurd (cc h)
  guarded_answer s (ok u) q t h = answer-HasAdmin s u q h

  permitted-HasAdmin :
      (path : String) (s : Store K)
      → (permitted platform call path ("ADMIN" ∷ []) s).0 ≡ ok tt
      → HasAdmin platform call
  unfolding authenticated jwt_guard roles_guard
  permitted-HasAdmin path s h = elim (Bool-cases (includes public_paths path)) [
    | inl t ↦ absurd (cc (rw t at h))
    | inr f ↦ guarded_answer s.cache _ refl s (rw f at h)
  ]

  continue_state :
      {A : Type 0} (r : Result A) (roles : List String) (f : A → Result (Unit {0})) (s : Store K)
      → (continue (r, s) (λ a. lift (f a))).1 ≡ s
  continue_state (ok a) roles f s = refl
  continue_state (err e) roles f s = refl

  pub permitted-state :
      (path : String) (roles : List String) (s : Store K)
      → (permitted platform call path roles s).1 ≡ s
  unfolding authenticated
  permitted-state path roles s =
      continue_state
        (jwt_guard platform.redis platform.jwt platform.passport call.draw.now path call.header
          s.cache)
        roles (roles_guard roles) s

  -- What stands behind the guards for an admin.
  after_permission :
      (r : Result (Unit {0}) × Store K) (m : Unit {0} → M (Store K) Answer) (s : Store K)
      → r.1 ≡ s
      → (r.0 ≡ ok tt → HasAdmin platform call)
      → RoleEffect platform call s (continue r m).1
  after_permission (err e, t) m s q h =
      RoleEffect.same (ap (λ (z : Store K). role_lists z.people.users) q)
  after_permission (ok u, t) m s q h = RoleEffect.by_admin (h refl)

  pub guarded-RoleEffect :
      (path : String) (m : Unit {0} → M (Store K) Answer) (s : Store K)
      → RoleEffect platform call s ((permitted platform call path ("ADMIN" ∷ []) >>= m) s).1
  guarded-RoleEffect path m s =
      after_permission (permitted platform call path ("ADMIN" ∷ []) s) m s
        (permitted-state path _ s) (permitted-HasAdmin path s)
