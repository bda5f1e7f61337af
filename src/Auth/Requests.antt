-- ===== src/Auth/Requests.antt =====
-- Relations between the stores before and after a request to the auth server: one that the calls of
-- its services follow is followed by any sequence of requests.
use msa_tuto_server.Base.{
  ◌≡◌, refl, sym, subst, String, ◌==◌, Bool, true, false, Option, none, some, List, [], ◌∷◌,
  Bool-cases, inl, inr,
}
use msa_tuto_server.Http.{Result, ok, err, M, pure, rethrow, continue}
use msa_tuto_server.Http.Moves.{
  Moves, IsPath, Moves-bind, Moves-rethrow, Moves-picked, rethrow_state,
}
use msa_tuto_server.Auth.Users.{
  Role, User, Users, create, validate_user, add_role, remove_role, find_by_id, or_missing,
  keep_not_found, keep_none,
}
use msa_tuto_server.Auth.Tokens.{logout, validate_refresh_token}
use msa_tuto_server.Auth.Session.{
  RegisterDto, new_account, Store, on_people, on_cache, Draw, generate_tokens, open_session, admit,
  login, register, renew, refresh_if, refresh_token, session_of,
}
use msa_tuto_server.Auth.Guards.{JwtUserDto, auth_token}
use msa_tuto_server.Auth.Server.{
  refreshed, logged_out, opened, listed, changed, Platform, Request, post_register, post_login,
  post_refresh, post_logout, get_users, post_role, delete_role, Call, authenticated, user_id_of,
  permitted, handle_request, handle, serve, find_all,
}
use msa_tuto_server.Auth.AdminGuard.{permitted-state}

-- What the services may do to the users and to the cache, one call after another.
pub record IsFollowed {K : Type 0} (platform : Platform K) (R : Store K → Store K → Type 0)
    : Type 0 where
  pub path : IsPath R
  pub creates :
      (dto : RegisterDto) (id : String)
      → Moves R (
          on_people (
            create platform.users platform.bcrypt
              (new_account platform.redis platform.jwt platform.texts platform.lifetimes
                platform.users dto)
              id))
  pub validates :
      (draw : Draw) (email password : String)
      → Moves R (on_people (validate_user platform.users platform.bcrypt email password draw.now))
  pub adds_role :
      (id : String) (role : Role)
      → Moves R (on_people (add_role platform.users platform.delete_key id role))
  pub removes_role :
      (id : String) (role : Role)
      → Moves R (on_people (remove_role platform.users platform.delete_key id role))
  pub generates :
      (draw : Draw) (u : User) (user_id : String)
      → Moves R (
          on_cache (
            generate_tokens platform.redis platform.jwt platform.texts platform.lifetimes draw
              user_id u.email u.roles))
  pub logs_out :
      (call : Call) (user_id : String)
      → Moves R (
          on_cache
            (logout platform.redis platform.jwt call.draw.now user_id (auth_token call.header)))

module _ {K : Type 0} (platform : Platform K) (R : Store K → Store K → Type 0)
    (followed : IsFollowed platform R) where
  Moves-unchanged : {A : Type 0} (m : M (Store K) A) → ((s : Store K) → (m s).1 ≡ s) → Moves R m
  Moves-unchanged m h = record { run = λ s. subst (λ t. R s t) (sym (h s)) (followed.path.stay s) }

  Moves-pure : {A : Type 0} (a : A) → Moves R (pure a)
  Moves-pure a = record { run = λ s. followed.path.stay s }

  Moves-open_session :
      (draw : Draw) (u : User)
      → Moves R (
          open_session platform.redis platform.jwt platform.texts platform.lifetimes platform.users
            draw u)
  Moves-open_session draw u =
      Moves-bind followed.path _ (λ tokens. pure (session_of u tokens))
        (followed.generates draw u u.id) (λ tokens. Moves-pure _)

  Moves-admit :
      (draw : Draw) (r : Option User)
      → Moves R (
          admit platform.redis platform.jwt platform.texts platform.lifetimes platform.users draw r)
  Moves-admit draw none = Moves-unchanged _ (λ s. refl)
  Moves-admit draw (some u) = elim (Bool-cases u.is_active) [
    | inl t ↦ rw t (Moves-open_session draw u)
    | inr f ↦ rw f (Moves-unchanged _ (λ s. refl))
  ]

  find_by_id_state :
      (id : String) (r : Result (Option User)) (us : Users)
      → (rethrow (keep_not_found "사용자 조회 중 오류가 발생했습니다") (continue (r, us) (or_missing id))).1 ≡ us
  find_by_id_state id (ok none) us = refl
  find_by_id_state id (ok (some u)) us = refl
  find_by_id_state id (err e) us = refl

  Moves-find_by_id : (id : String) → Moves R (on_people (find_by_id platform.users id))
  unfolding find_by_id
  Moves-find_by_id id = Moves-unchanged _ (λ s i. record s {
    people =
        find_by_id_state id (platform.users.find_one (λ u. u.id == id) s.people.users) s.people i;
  })

  Moves-renew :
      (draw : Draw) (user_id : String) (u : User)
      → Moves R (
          renew platform.redis platform.jwt platform.texts platform.lifetimes platform.users draw
            user_id u)
  Moves-renew draw user_id u = elim (Bool-cases u.is_active) [
    | inl t ↦ rw t (followed.generates draw u user_id)
    | inr f ↦ rw f (Moves-unchanged _ (λ s. refl))
  ]

  Moves-refresh_if :
      (valid : Bool) (draw : Draw) (user_id : String)
      → Moves R (
          refresh_if platform.redis platform.jwt platform.texts platform.lifetimes platform.users
            valid draw user_id)
  Moves-refresh_if false draw user_id = Moves-unchanged _ (λ s. refl)
  Moves-refresh_if true draw user_id =
      Moves-bind followed.path _ _ (Moves-find_by_id user_id) (Moves-renew draw user_id)

  Moves-refresh_token :
      (draw : Draw) (user_id token : String)
      → Moves R (
          refresh_token platform.redis platform.jwt platform.texts platform.lifetimes platform.users
            draw user_id token)
  unfolding refresh_token
  Moves-refresh_token draw user_id token = Moves-picked R _ _ (λ s.
      Moves-refresh_if
        (validate_refresh_token platform.redis platform.jwt platform.texts draw.now user_id token
          s.cache)
        draw user_id)

  Moves-permitted :
      (call : Call) (path : String) (roles : List String)
      → Moves R (permitted platform call path roles)
  Moves-permitted call path roles = Moves-unchanged _ (permitted-state platform call path roles)

  Moves-authenticated : (call : Call) (path : String) → Moves R (authenticated platform call path)
  unfolding authenticated
  Moves-authenticated call path = Moves-unchanged _ (λ s. refl)

  Moves-user_id_of : (user : Option JwtUserDto) → Moves R (user_id_of platform user)
  Moves-user_id_of none = Moves-unchanged _ (λ s. refl)
  Moves-user_id_of (some u) = Moves-unchanged _ (λ s. refl)

  -- The handlers, each with the answer that it makes of what its service returned.
  Moves-handle_request :
      (call : Call) (request : Request) → Moves R (handle_request platform call request)
  unfolding register login
  Moves-handle_request call (post_register dto id) =
      Moves-bind followed.path _ (λ session. pure (opened session))
        (Moves-rethrow R _ _
          (Moves-bind followed.path _ _ (followed.creates dto id) (Moves-open_session call.draw)))
        (λ session. Moves-pure _)
  Moves-handle_request call (post_login email password) =
      Moves-bind followed.path _ (λ session. pure (opened session))
        (Moves-rethrow R _ _ (
          Moves-bind followed.path _ _ (followed.validates call.draw email password)
            (Moves-admit call.draw)))
        (λ session. Moves-pure _)
  Moves-handle_request call (post_refresh token) =
      Moves-bind followed.path _ _ (Moves-authenticated call "/auth/refresh") (λ user.
        Moves-bind followed.path _ _ (Moves-user_id_of user) (λ user_id.
          Moves-bind followed.path _ (λ tokens. pure (refreshed tokens))
            (Moves-refresh_token call.draw user_id token) (λ tokens. Moves-pure _)))
  Moves-handle_request call post_logout =
      Moves-bind followed.path _ _ (Moves-authenticated call "/auth/logout") (λ user.
        Moves-bind followed.path _ _ (Moves-user_id_of user) (λ user_id.
          Moves-bind followed.path _ (λ done. pure logged_out) (followed.logs_out call user_id)
            (λ done. Moves-pure _)))
  Moves-handle_request call get_users =
      Moves-bind followed.path _ _ (Moves-permitted call "/users" _) (λ done.
        Moves-bind followed.path (on_people (find_all platform)) (λ users. pure (listed users))
          (Moves-unchanged _ (λ s i. record s {
            people =
                rethrow_state (keep_none "사용자 조회 중 오류가 발생했습니다")
                  (platform.find_users s.people.users, s.people) i;
          }))
          (λ users. Moves-pure _))
  Moves-handle_request call (post_role id role) =
      Moves-bind followed.path _ _ (Moves-permitted call _ _) (λ done.
        Moves-bind followed.path _ (λ u. pure (changed u)) (followed.adds_role id role)
          (λ u. Moves-pure _))
  Moves-handle_request call (delete_role id role) =
      Moves-bind followed.path _ _ (Moves-permitted call _ _) (λ done.
        Moves-bind followed.path _ (λ u. pure (changed u)) (followed.removes_role id role)
          (λ u. Moves-pure _))

  pub serve-Moves : (calls : List Call) (s : Store K) → R s (serve platform calls s)
  unfolding serve handle
  serve-Moves [] s = followed.path.stay s
  serve-Moves (call ∷ calls) s =
      followed.path.follow s (handle platform call s).1 _
        ((Moves-handle_request call call.request).run s)
        (serve-Moves calls (handle platform call s).1)
