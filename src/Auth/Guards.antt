-- ===== src/Auth/Guards.antt =====
-- auth/guards, auth/strategies/jwt.strategy.ts and auth/decorators. Passport is a parameter: it reads
-- the token of the authorization header, verifies it, and calls the strategy with its payload.
use msa_tuto_server.Base.{
  ℕ, String, ◌≡◌, Bool, false, Option, none, some, List, [], ◌∷◌, ◌==◌, any, includes, is_some,
  if◌then◌else◌, template, begins_with,
}
use msa_tuto_server.Http.{Exception, unauthorized, forbidden, Result, ok, err}
use msa_tuto_server.Auth.Tokens.{Payload, Jwt, Redis, validate_jwt_token}

-- What the strategy attaches to a request; a refresh token has neither email nor roles.
pub record JwtUserDto : Type 0 where
  pub user_id : String
  pub email : Option String
  pub roles : Option (List String)

-- The arguments of `handleRequest`: `err`, `user` and the message of `info`.
pub record Answered (U : Type 0) : Type 0 where
  pub error : Option Exception
  pub user : Option U
  pub info : Option String

pub record Passport (jwt : Jwt) (U : Type 0) : Type 0 where
  -- `ExtractJwt.fromAuthHeaderAsBearerToken`
  pub extract : Option String → Option String
  pub run : ℕ → Option String → (Payload → Result U) → Answered U
  -- The user is the strategy's, for the payload of a verified token.
  pub run_law :
      (now : ℕ) (header : Option String) (validate : Payload → Result U) (u : U)
      → (run now header validate).user ≡ some u
      → (token : String) × (p : Payload) × (extract header ≡ some token)
        × (jwt.verify now token ≡ ok p)
        × (validate p ≡ ok u)

abbrev pub user_of : Payload → JwtUserDto
user_of p = record { user_id = p.sub; email = p.email; roles = p.roles }

abbrev pub invalid_token : Exception
invalid_token = unauthorized "유효하지 않은 토큰입니다"

module _ {K : Type 0} (redis : Redis K) (jwt : Jwt) where
  -- A missing token is no valid one.
  abbrev pub is_valid : ℕ → Option String → K → Bool
  is_valid now none s = false
  is_valid now (some token) s = is_some (validate_jwt_token redis jwt now token s)

  -- `JwtStrategy.validate`
  unfoldable pub strategy_validate : ℕ → Option String → K → Payload → Result JwtUserDto
  strategy_validate now token s p =
      if is_valid now token s then ok (user_of p) else err invalid_token

abbrev pub public_paths : List String
public_paths = "/auth/login" ∷ "/auth/register" ∷ "/health" ∷ "/api-docs" ∷ []

abbrev pub without_user : Option String → Exception
without_user none = unauthorized "Authentication required"
without_user (some m) =
    if m == ""
    then unauthorized "Authentication required"
    else unauthorized (template ("Authentication failed: " ∷ m ∷ []))

-- `JwtAuthGuard.handleRequest`
unfoldable pub handle_answer : {U : Type 0} → Answered U → Result U
handle_answer a = elim a.error [
  | some e ↦ err e
  | none ↦ elim a.user [ some u ↦ ok u | none ↦ err (without_user a.info) ]
]

abbrev pub attached : {U : Type 0} → Result U → Result (Option U)
attached (ok u) = ok (some u)
attached (err e) = err e

-- `JwtAuthGuard.canActivate`, with the user that it leaves in the request.
unfoldable pub jwt_guard :
    {K : Type 0} (redis : Redis K) (jwt : Jwt)
    → Passport jwt JwtUserDto
    → ℕ
    → String
    → Option String
    → K
    → Result (Option JwtUserDto)
jwt_guard redis jwt passport now path header s =
    if includes public_paths path
    then ok none
    else attached (
        handle_answer
          (passport.run now header (strategy_validate redis jwt now (passport.extract header) s)))

abbrev pub no_permission : Exception
no_permission = forbidden "권한이 없습니다"

-- `RolesGuard.canActivate`, of a user with these roles.
abbrev pub check_roles : List String → Option (List String) → Result (Unit {0})
check_roles required none = err no_permission
check_roles required (some owned) =
    if includes owned "ADMIN"
    then ok tt
    else if any (includes owned) required
    then ok tt
    else err no_permission

unfoldable pub roles_guard : List String → Option JwtUserDto → Result (Unit {0})
roles_guard [] user = ok tt
roles_guard (r ∷ rs) none = err no_permission
roles_guard (r ∷ rs) (some u) = check_roles (r ∷ rs) u.roles

abbrev drop_chars : String → String → String
drop_chars String.[] s = s
drop_chars (String.◌∷◌ d p) String.[] = String.[]
drop_chars (String.◌∷◌ d p) (String.◌∷◌ c s) = drop_chars p s

-- `s.replace(p, '')`
abbrev pub remove_first : String → String → String
remove_first p String.[] = String.[]
remove_first p (String.◌∷◌ c s) =
    let rest = remove_first p s in
    if begins_with p (String.◌∷◌ c s) then drop_chars p (String.◌∷◌ c s) else String.◌∷◌ c rest

-- The `AuthToken` decorator.
unfoldable pub auth_token : Option String → String
auth_token none = ""
auth_token (some header) = remove_first "Bearer " header
