-- ===== src/Auth/Escalation.antt =====
-- Who can give roles to whom, over any requests to the auth server.
use msa_tuto_server.Base.{
  ℕ, zero, suc, String, ◌≡◌, refl, ◌∙◌, ap, ◌⊎◌, inl, inr, Option, none, some, List, [], ◌∷◌, ◌++◌,
  All,
}
use msa_tuto_server.Http.{Result, ok, err, pure, continue}
use msa_tuto_server.Http.Moves.{Moves, Moves-bind, rethrow_state, pure_state}
use msa_tuto_server.Auth.Users.{user, User, Users, create}
use msa_tuto_server.Auth.Tokens.{logout}
use msa_tuto_server.Auth.Session.{
  Store, on_people, on_cache, open_session, register, new_account, RegisterDto,
}
use msa_tuto_server.Auth.Guards.{JwtUserDto, auth_token}
use msa_tuto_server.Auth.Server.{
  refreshed, logged_out, opened, listed, Platform, Request, post_register, post_login, post_refresh,
  post_logout, get_users, post_role, delete_role, Call, authenticated, user_id_of, permitted,
  open_refresh, close, handle_request, handle, serve, find_all,
}
use msa_tuto_server.Auth.SameRoles.{
  role_lists, SameRoles, KeepsRoles, KeepsRoles-IsPath, create-role_lists,
}
use msa_tuto_server.Auth.SessionRoles.{
  open_session-KeepsRoles, login-KeepsRoles, refresh_token-KeepsRoles,
}
use msa_tuto_server.Auth.AdminGuard.{HasAdmin, RoleEffect, permitted-state, guarded-RoleEffect}

module _ {K : Type 0} (platform : Platform K) (call : Call) where
  register-RoleEffect :
      (dto : RegisterDto) (id : String) (s : Store K)
      → RoleEffect platform call s
          (register platform.redis platform.jwt platform.texts platform.lifetimes platform.users
            platform.bcrypt call.draw dto id s).1
  unfolding register
  register-RoleEffect dto id s = rw (rethrow_state _ _) (
      opened_for
        (create platform.users platform.bcrypt
          (new_account platform.redis platform.jwt platform.texts platform.lifetimes platform.users
            dto)
          id s.people)
        (create-role_lists platform.users platform.bcrypt _ id s.people))
    where
      opened_for :
          (r : Result User × Users)
          → SameRoles s.people r.1
            ⊎ (role_lists r.1.users ≡ role_lists s.people.users ++ (user ∷ []) ∷ [])
          → RoleEffect platform call s
              (continue
                (r.0, record s { people = r.1 })
                (open_session platform.redis platform.jwt platform.texts platform.lifetimes
                  platform.users call.draw)).1
      opened_for (err e, us) (inl h) = RoleEffect.same h
      opened_for (err e, us) (inr h) = RoleEffect.registered h
      opened_for (ok u, us) (inl h) =
          RoleEffect.same ((open_session-KeepsRoles platform call.draw u).run _ ∙ h)
      opened_for (ok u, us) (inr h) =
          RoleEffect.registered ((open_session-KeepsRoles platform call.draw u).run _ ∙ h)

  authenticated-KeepsRoles : (path : String) → Moves KeepsRoles (authenticated platform call path)
  unfolding authenticated
  authenticated-KeepsRoles path = record { run = λ s. refl }

  user_id_of-KeepsRoles : (user : Option JwtUserDto) → Moves KeepsRoles (user_id_of platform user)
  user_id_of-KeepsRoles none = record { run = λ s. refl }
  user_id_of-KeepsRoles (some u) = record { run = λ s. refl }

  open_refresh-KeepsRoles : (token : String) → Moves KeepsRoles (open_refresh platform call token)
  open_refresh-KeepsRoles token =
      Moves-bind KeepsRoles-IsPath _ _ (authenticated-KeepsRoles "/auth/refresh") (λ user.
        Moves-bind KeepsRoles-IsPath _ _ (user_id_of-KeepsRoles user) (λ user_id.
          Moves-bind KeepsRoles-IsPath _ (λ tokens. pure (refreshed tokens))
            (refresh_token-KeepsRoles platform call.draw user_id token)
            (λ tokens. record { run = λ s. refl })))

  close-KeepsRoles : Moves KeepsRoles (close platform call)
  close-KeepsRoles =
      Moves-bind KeepsRoles-IsPath _ _ (authenticated-KeepsRoles "/auth/logout") (λ user.
        Moves-bind KeepsRoles-IsPath _ _ (user_id_of-KeepsRoles user) (λ user_id.
          Moves-bind KeepsRoles-IsPath
            (on_cache
              (logout platform.redis platform.jwt call.draw.now user_id (auth_token call.header)))
            (λ done. pure logged_out) (record { run = λ s. refl })
            (λ done. record { run = λ s. refl })))

  -- What a request does to the roles of the users.
  pub handle-RoleEffect : (s : Store K) → RoleEffect platform call s (handle platform call s).1
  unfolding handle
  handle-RoleEffect s = of_request call.request
    where
      of_request :
          (request : Request)
          → RoleEffect platform call s (handle_request platform call request s).1
      of_request (post_register dto id) =
          rw
            (pure_state
              (register platform.redis platform.jwt platform.texts platform.lifetimes platform.users
                platform.bcrypt call.draw dto id s)
              opened)
            (register-RoleEffect dto id s)
      of_request (post_login email password) = RoleEffect.same (
          (Moves-bind KeepsRoles-IsPath _ (λ session. pure (opened session))
              (login-KeepsRoles platform call.draw email password)
              (λ session. record { run = λ s. refl })).run
            s)
      of_request (post_refresh token) = RoleEffect.same ((open_refresh-KeepsRoles token).run s)
      of_request post_logout = RoleEffect.same (close-KeepsRoles.run s)
      of_request get_users = RoleEffect.same (listing.run s)
        where
          permitted-KeepsRoles :
              Moves KeepsRoles (permitted platform call "/users" ("ADMIN" ∷ "AUDITOR" ∷ []))
          permitted-KeepsRoles = record {
            run = λ s.
                ap (λ (z : Store K). role_lists z.people.users)
                  (permitted-state platform call "/users" _ s);
          }

          listing : Moves KeepsRoles (handle_request platform call get_users)
          listing = Moves-bind KeepsRoles-IsPath _ _ permitted-KeepsRoles (λ done.
              Moves-bind KeepsRoles-IsPath (on_people (find_all platform))
                (λ users. pure (listed users))
                (record {
                  run = λ s.
                      ap (λ (z : Users). role_lists z.users)
                        (rethrow_state _ (platform.find_users s.people.users, s.people));
                })
                (λ users. record { run = λ s. refl }))
      of_request (post_role id role) = guarded-RoleEffect platform call _ _ s
      of_request (delete_role id role) = guarded-RoleEffect platform call _ _ s

abbrev pub copies : {A : Type 0} → ℕ → A → List A
copies zero a = []
copies (suc n) a = a ∷ copies n a

append_copies :
    {A : Type 0} (xs : List A) (a : A) (n : ℕ)
    → (xs ++ a ∷ []) ++ copies n a ≡ xs ++ copies (suc n) a
append_copies [] a n = refl
append_copies (x ∷ xs) a n = ap (λ l. x ∷ l) (append_copies xs a n)

append_none : {A : Type 0} (xs : List A) → xs ≡ xs ++ []
append_none [] = refl
append_none (x ∷ xs) = ap (λ l. x ∷ l) (append_none xs)

module _ {K : Type 0} (platform : Platform K) where
  -- Over any requests none of which bears a verified token with the role ADMIN, no user's roles
  -- change, and every user who is added has the role USER alone.
  pub serve-role_lists :
      (calls : List Call) (s : Store K)
      → All (λ call. ¬ HasAdmin platform call) calls
      → (n : ℕ) × (role_lists (serve platform calls s).people.users
          ≡ role_lists s.people.users ++ copies n (user ∷ []))
  unfolding serve
  serve-role_lists [] s h = (0, append_none _)
  serve-role_lists (call ∷ calls) s h =
      let (n, later) = serve-role_lists calls (handle platform call s).1 h.1 in
      elim (handle-RoleEffect platform call s) [
        | RoleEffect.same q ↦ (n, later ∙ ap (λ l. l ++ copies n (user ∷ [])) q)
        | RoleEffect.registered q ↦
            (suc n, later ∙ ap (λ l. l ++ copies n (user ∷ [])) q ∙ append_copies _ (user ∷ []) n)
        | RoleEffect.by_admin a ↦ absurd (h.0 a)
      ]
