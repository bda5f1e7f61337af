-- ===== src/Auth/SessionRoles.antt =====
-- Requests that change no roles: to log in and to refresh a token.
use msa_tuto_server.Base.{String, refl, Bool, true, false, inl, inr, Option, none, some, Bool-cases}
use msa_tuto_server.Http.{M, pure}
use msa_tuto_server.Http.Moves.{Moves, Moves-bind, Moves-rethrow, Moves-picked}
use msa_tuto_server.Auth.Users.{User, Users}
use msa_tuto_server.Auth.Tokens.{validate_refresh_token}
use msa_tuto_server.Auth.Session.{
  on_people, on_cache, Draw, generate_tokens, open_session, admit, login, renew, refresh_if,
  refresh_token, session_of,
}
use msa_tuto_server.Auth.Server.{Platform}
use msa_tuto_server.Auth.SameRoles.{
  SameRoles, KeepsRoles, KeepsRoles-IsPath, validate_user-SameRoles, find_by_id-SameRoles,
}

module _ {K : Type 0} where
  on_people-KeepsRoles :
      {A : Type 0} (m : M Users A) → Moves SameRoles m → Moves KeepsRoles (on_people {K = K} m)
  on_people-KeepsRoles m h = record { run = λ s. h.run s.people }

module _ {K : Type 0} (platform : Platform K) where
  pub open_session-KeepsRoles :
      (draw : Draw) (u : User)
      → Moves KeepsRoles (
          open_session platform.redis platform.jwt platform.texts platform.lifetimes platform.users
            draw u)
  open_session-KeepsRoles draw u =
      Moves-bind KeepsRoles-IsPath
        (on_cache (
          generate_tokens platform.redis platform.jwt platform.texts platform.lifetimes draw u.id
            u.email u.roles))
        (λ tokens. pure (session_of u tokens)) (record { run = λ s. refl })
        (λ tokens. record { run = λ s. refl })

  admit-KeepsRoles :
      (draw : Draw) (r : Option User)
      → Moves KeepsRoles (
          admit platform.redis platform.jwt platform.texts platform.lifetimes platform.users draw r)
  admit-KeepsRoles draw none = record { run = λ s. refl }
  admit-KeepsRoles draw (some u) = elim (Bool-cases u.is_active) [
    | inl t ↦ rw t (open_session-KeepsRoles draw u)
    | inr f ↦ rw f (record { run = λ s. refl })
  ]

  pub login-KeepsRoles :
      (draw : Draw) (email password : String)
      → Moves KeepsRoles (
          login platform.redis platform.jwt platform.texts platform.lifetimes platform.users
            platform.bcrypt draw email password)
  unfolding login
  login-KeepsRoles draw email password = Moves-rethrow KeepsRoles _ _ (
      Moves-bind KeepsRoles-IsPath _ _
        (on_people-KeepsRoles _
          (validate_user-SameRoles platform.users platform.bcrypt email password draw.now))
        (admit-KeepsRoles draw))

  renew-KeepsRoles :
      (draw : Draw) (user_id : String) (u : User)
      → Moves KeepsRoles (
          renew platform.redis platform.jwt platform.texts platform.lifetimes platform.users draw
            user_id u)
  renew-KeepsRoles draw user_id u = elim (Bool-cases u.is_active) [
    | inl t ↦ rw t (record { run = λ s. refl })
    | inr f ↦ rw f (record { run = λ s. refl })
  ]

  refresh_if-KeepsRoles :
      (valid : Bool) (draw : Draw) (user_id : String)
      → Moves KeepsRoles (
          refresh_if platform.redis platform.jwt platform.texts platform.lifetimes platform.users
            valid draw user_id)
  refresh_if-KeepsRoles false draw user_id = record { run = λ s. refl }
  refresh_if-KeepsRoles true draw user_id =
      Moves-bind KeepsRoles-IsPath _ _
        (on_people-KeepsRoles _ (find_by_id-SameRoles platform.users user_id))
        (renew-KeepsRoles draw user_id)

  pub refresh_token-KeepsRoles :
      (draw : Draw) (user_id token : String)
      → Moves KeepsRoles (
          refresh_token platform.redis platform.jwt platform.texts platform.lifetimes platform.users
            draw user_id token)
  unfolding refresh_token
  refresh_token-KeepsRoles draw user_id token = Moves-picked KeepsRoles _ _ (λ s.
      refresh_if-KeepsRoles
        (validate_refresh_token platform.redis platform.jwt platform.texts draw.now user_id token
          s.cache)
        draw user_id)
