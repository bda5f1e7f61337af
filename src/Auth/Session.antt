-- ===== src/Auth/Session.antt =====
-- auth/auth.service.ts: `login`, `register`, `refreshToken` and `generateTokens`, over the users and
-- the cache. The clock, the ids that uuid gives and the ObjectId of a new user are arguments. The
-- keys of users that the users service deletes from the cache are read by no code.
use msa_tuto_server.Base.{
  ℕ, String, Bool, true, false, not, Option, none, some, List, [], ◌∷◌, map, if◌then◌else◌,
}
use msa_tuto_server.Http.{
  Exception, unauthorized, conflict, internal, M, pure, throw, rethrow, ◌>>=◌, ◌>>◌,
}
use msa_tuto_server.Mongo.{Collection}
use msa_tuto_server.Auth.Users.{
  Role, user, operator, auditor, admin, User, CreateUserDto, Users, Bcrypt, same_email, create,
  find_by_id, validate_user,
}
use msa_tuto_server.Auth.Tokens.{Jwt, Texts, Redis, save_refresh_token, validate_refresh_token}

abbrev pub role_text : Role → String
role_text user = "USER"
role_text operator = "OPERATOR"
role_text auditor = "AUDITOR"
role_text admin = "ADMIN"

pub record Store (K : Type 0) : Type 0 where
  pub people : Users
  pub cache : K

module _ {K : Type 0} where
  abbrev pub on_people : {A : Type 0} → M Users A → M (Store K) A
  on_people m s = let (r, us) = m s.people in (r, record s { people = us })

  abbrev pub on_cache : {A : Type 0} → M K A → M (Store K) A
  on_cache m s = let (r, k) = m s.cache in (r, record s { cache = k })

pub record Tokens : Type 0 where
  pub access_token : String
  pub refresh_token : String

-- The answer of `login` and of `register`.
pub record Session : Type 0 where
  pub tokens : Tokens
  pub id : String
  pub email : String
  pub name : String
  pub roles : List Role

pub record RegisterDto : Type 0 where
  pub name : String
  pub email : String
  pub password : String

-- The lifetimes of the two tokens in seconds, from the configuration.
pub record Lifetimes : Type 0 where
  pub access : ℕ
  pub refresh : ℕ

-- What one request draws: the time, and the ids of the two tokens.
pub record Draw : Type 0 where
  pub now : ℕ
  pub token_id : String
  pub refresh_id : String

abbrev pub invalid_refresh_token : Exception
invalid_refresh_token = unauthorized "유효하지 않은 리프레시 토큰입니다"

-- The catch clauses.
abbrev pub keep_unauthorized : String → Exception → Exception
keep_unauthorized message (unauthorized m) = unauthorized m
keep_unauthorized message _ = internal message

-- `error.status === 409`
abbrev pub keep_status_409 : String → Exception → Exception
keep_status_409 message (conflict m) = conflict m
keep_status_409 message _ = internal message

abbrev pub token_failure : Exception → Exception
token_failure e = internal "토큰 생성 중 오류가 발생했습니다"

abbrev pub session_of : User → Tokens → Session
session_of u tokens = record {
  tokens = tokens;
  id = u.id;
  email = u.email;
  name = u.name;
  roles = u.roles;
}

module _ (jwt : Jwt) (lifetimes : Lifetimes) where
  -- The two tokens that `generateTokens` signs.
  abbrev pub signed : Draw → String → String → List Role → Tokens
  signed draw user_id email roles = record {
    access_token = jwt.sign draw.now lifetimes.access (record {
      sub = user_id;
      email = some email;
      roles = some (map role_text roles);
      jti = draw.token_id;
    });
    refresh_token =
        jwt.sign draw.now lifetimes.refresh
          (record { sub = user_id; email = none; roles = none; jti = draw.refresh_id });
  }

module _ {K : Type 0} (redis : Redis K) (jwt : Jwt) (texts : Texts) (lifetimes : Lifetimes) where
  unfoldable pub generate_tokens : Draw → String → String → List Role → M K Tokens
  generate_tokens draw user_id email roles s =
      let tokens = signed jwt lifetimes draw user_id email roles in
      rethrow token_failure (
        (save_refresh_token redis jwt texts draw.now user_id tokens.refresh_token >> pure tokens) s)

module _ {K : Type 0} (redis : Redis K) (jwt : Jwt) (texts : Texts) (lifetimes : Lifetimes)
    (c : Collection User same_email) where
  -- The tokens of a user that was let in, and the answer.
  abbrev pub open_session : Draw → User → M (Store K) Session
  open_session draw u = do
    tokens ← on_cache (generate_tokens redis jwt texts lifetimes draw u.id u.email u.roles)
    pure (session_of u tokens)

  -- `login` from the user on that `validateUser` gave.
  abbrev pub admit : Draw → Option User → M (Store K) Session
  admit draw none = throw (unauthorized "이메일 또는 비밀번호가 잘못되었습니다")
  admit draw (some u) =
      if not u.is_active then throw (unauthorized "이 계정은 비활성화되었습니다") else open_session draw u

  unfoldable pub login : Bcrypt → Draw → String → String → M (Store K) Session
  login bcrypt draw email password s =
      rethrow (keep_unauthorized "로그인 처리 중 오류가 발생했습니다")
        ((on_people (validate_user c bcrypt email password draw.now) >>= admit draw) s)

  -- `{ ...registerDto, roles: [Role.USER] }`
  abbrev pub new_account : RegisterDto → CreateUserDto
  new_account dto = record {
    name = dto.name;
    email = dto.email;
    password = dto.password;
    roles = some (user ∷ []);
  }

  unfoldable pub register : Bcrypt → Draw → RegisterDto → String → M (Store K) Session
  register bcrypt draw dto id s =
      rethrow (keep_status_409 "회원가입 처리 중 오류가 발생했습니다")
        ((on_people (create c bcrypt (new_account dto) id) >>= open_session draw) s)

  -- `refreshToken` from the user on that `findById` gave.
  abbrev pub renew : Draw → String → User → M (Store K) Tokens
  renew draw user_id u =
      if not u.is_active
      then throw (unauthorized "유효하지 않은 사용자입니다")
      else on_cache (generate_tokens redis jwt texts lifetimes draw user_id u.email u.roles)

  -- The body of the `try`, with the answer of `validateRefreshToken`.
  abbrev pub refresh_if : Bool → Draw → String → M (Store K) Tokens
  refresh_if false draw user_id = throw invalid_refresh_token
  refresh_if true draw user_id = on_people (find_by_id c user_id) >>= renew draw user_id

  unfoldable pub refresh_token : Draw → String → String → M (Store K) Tokens
  refresh_token draw user_id token s = rethrow (keep_unauthorized "토큰 갱신 중 오류가 발생했습니다") (
      refresh_if (validate_refresh_token redis jwt texts draw.now user_id token s.cache) draw
        user_id s)
