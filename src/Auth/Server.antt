-- ===== src/Auth/Server.antt =====
-- auth/auth.controller.ts and users/users.controller.ts: what the auth server does with a request,
-- its guards included.
use msa_tuto_server.Base.{String, Option, none, some, List, [], ◌∷◌, template}
use msa_tuto_server.Http.{failure, Result, M, pure, throw, lift, rethrow, ◌>>=◌, ◌>>◌}
use msa_tuto_server.Mongo.{Collection}
use msa_tuto_server.Auth.Users.{
  Role, User, Users, Bcrypt, same_email, keep_none, add_role, remove_role,
}
use msa_tuto_server.Auth.Tokens.{Jwt, Texts, Redis, logout}
use msa_tuto_server.Auth.Session.{
  role_text, Store, on_people, on_cache, Tokens, Session, RegisterDto, Lifetimes, Draw, login,
  register, refresh_token,
}
use msa_tuto_server.Auth.Guards.{JwtUserDto, Passport, jwt_guard, roles_guard, auth_token}

-- What the server stands on.
pub record Platform (K : Type 0) : Type 0 where
  pub redis : Redis K
  pub jwt : Jwt
  pub texts : Texts
  pub lifetimes : Lifetimes
  pub users : Collection User same_email
  -- `find()`
  pub find_users : List User → Result (List User)
  -- `cacheService.delete` of the two keys of a user, which no code writes or reads; it may throw
  pub delete_key : String → Result (Unit {0})
  pub bcrypt : Bcrypt
  pub passport : Passport jwt JwtUserDto

-- A new user gets the ObjectId `id`. A path with a role that there is not removes none.
pub data Request : Type 0 where
  post_register : RegisterDto → (id : String) → Request
  post_login : (email password : String) → Request
  post_refresh : (token : String) → Request
  post_logout : Request
  get_users : Request
  post_role delete_role : (id : String) → Role → Request

pub record Call : Type 0 where
  pub draw : Draw
  -- the authorization header
  pub header : Option String
  pub request : Request

pub data Answer : Type 0 where
  opened : Session → Answer
  refreshed : Tokens → Answer
  logged_out : Answer
  listed : List User → Answer
  changed : User → Answer

module _ {K : Type 0} (platform : Platform K) where
  -- `JwtAuthGuard` on a path.
  unfoldable pub authenticated : Call → String → M (Store K) (Option JwtUserDto)
  authenticated call path s = (
    jwt_guard platform.redis platform.jwt platform.passport call.draw.now path call.header s.cache,
    s,
  )

  -- `user.userId`
  abbrev pub user_id_of : Option JwtUserDto → M (Store K) String
  user_id_of none = throw (failure "Cannot read properties of undefined (reading 'userId')")
  user_id_of (some u) = pure u.user_id

  abbrev pub permitted : Call → String → List String → M (Store K) (Unit {0})
  permitted call path roles = do user ← authenticated call path; lift (roles_guard roles user)

  -- `UsersService.findAll`
  abbrev pub find_all : M Users (List User)
  find_all s = (rethrow (keep_none "사용자 조회 중 오류가 발생했습니다") (platform.find_users s.users, s))

  abbrev pub open_refresh : Call → String → M (Store K) Answer
  open_refresh call token = do
    user ← authenticated call "/auth/refresh"
    user_id ← user_id_of user
    tokens ←
        refresh_token platform.redis platform.jwt platform.texts platform.lifetimes platform.users
          call.draw user_id token
    pure (refreshed tokens)

  abbrev pub close : Call → M (Store K) Answer
  close call = do
    user ← authenticated call "/auth/logout"
    user_id ← user_id_of user
    on_cache (logout platform.redis platform.jwt call.draw.now user_id (auth_token call.header))
    pure logged_out

  abbrev pub handle_request : Call → Request → M (Store K) Answer
  handle_request call (post_register dto id) = do
    session ←
        register platform.redis platform.jwt platform.texts platform.lifetimes platform.users
          platform.bcrypt call.draw dto id
    pure (opened session)
  handle_request call (post_login email password) = do
    session ←
        login platform.redis platform.jwt platform.texts platform.lifetimes platform.users
          platform.bcrypt call.draw email password
    pure (opened session)
  handle_request call (post_refresh token) = open_refresh call token
  handle_request call post_logout = close call
  handle_request call get_users = do
    permitted call "/users" ("ADMIN" ∷ "AUDITOR" ∷ [])
    users ← on_people find_all
    pure (listed users)
  handle_request call (post_role id role) = do
    permitted call (template ("/users/" ∷ id ∷ "/roles" ∷ [])) ("ADMIN" ∷ [])
    u ← on_people (add_role platform.users platform.delete_key id role)
    pure (changed u)
  handle_request call (delete_role id role) = do
    permitted call (template ("/users/" ∷ id ∷ "/roles/" ∷ role_text role ∷ [])) ("ADMIN" ∷ [])
    u ← on_people (remove_role platform.users platform.delete_key id role)
    pure (changed u)

  unfoldable pub handle : Call → M (Store K) Answer
  handle call = handle_request call call.request

  -- The store after requests in a row, whatever was answered.
  unfoldable pub serve : List Call → Store K → Store K
  serve [] s = s
  serve (call ∷ calls) s = serve calls (handle call s).1
