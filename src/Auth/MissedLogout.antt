-- ===== src/Auth/MissedLogout.antt =====
-- A logout whose header the decorator does not read as a token.
use msa_tuto_server.Base.{ℕ, String, ◌≡◌, refl, sym, ◌∙◌, ap, subst, Option, none, some}
use msa_tuto_server.Http.{M, pure}
use msa_tuto_server.Http.Moves.{Moves, IsPath, Moves-bind, Moves-rethrow}
use msa_tuto_server.Auth.Tokens.{
  Jwt, Redis, refresh_key, blacklist_key, revoke, logout, logout_failure, validate_listed,
  validate_jwt_token,
}
use msa_tuto_server.Auth.Session.{Store, on_cache}
use msa_tuto_server.Auth.Guards.{JwtUserDto, auth_token}
use msa_tuto_server.Auth.Server.{
  Platform, Call, post_logout, logged_out, authenticated, user_id_of, handle_request, handle,
}
use msa_tuto_server.Auth.Logout.{keys_apart}

-- The same access tokens are accepted, with the same payloads.
pub record Accepts {K : Type 0} (redis : Redis K) (jwt : Jwt) (s t : K) : Type 0 where
  pub run :
      (now : ℕ) (token : String)
      → validate_jwt_token redis jwt now token t ≡ validate_jwt_token redis jwt now token s

module _ {K : Type 0} (redis : Redis K) (jwt : Jwt) where
  Accepts-IsPath : IsPath (Accepts redis jwt)
  Accepts-IsPath = record {
    stay = λ s. record { run = λ now token. refl };
    follow = λ s t u f g. record { run = λ now token. g.run now token ∙ f.run now token };
  }

  revoke-Accepts :
      (now : ℕ) (user_id token : String)
      → jwt.decode token ≡ none
      → Moves (Accepts redis jwt) (revoke redis jwt now user_id token (jwt.decode token))
  revoke-Accepts now user_id token h = rw h (record { run = λ s. Accepts-IsPath.stay s })

  del-Accepts : (user_id : String) → Moves (Accepts redis jwt) (redis.del (refresh_key user_id))
  unfolding validate_jwt_token
  del-Accepts user_id = record {
    run = λ s. record {
      run = λ now token. ap (validate_listed redis jwt now token) (
          redis.del_law now (refresh_key user_id) (blacklist_key token) s
            (keys_apart user_id token));
    };
  }

  logout-Accepts :
      (now : ℕ) (user_id token : String)
      → jwt.decode token ≡ none
      → Moves (Accepts redis jwt) (logout redis jwt now user_id token)
  unfolding logout
  logout-Accepts now user_id token h =
      Moves-rethrow (Accepts redis jwt) (logout_failure redis jwt) _ (
        Moves-bind Accepts-IsPath _ _ (revoke-Accepts now user_id token h)
          (λ done. del-Accepts user_id))

module _ {K : Type 0} (platform : Platform K) (call : Call) where
  abbrev Same : Store K → Store K → Type 0
  Same s t = Accepts platform.redis platform.jwt s.cache t.cache

  Same-IsPath : IsPath Same
  Same-IsPath = record {
    stay = λ s. (Accepts-IsPath platform.redis platform.jwt).stay s.cache;
    follow = λ s t u f g.
        (Accepts-IsPath platform.redis platform.jwt).follow s.cache t.cache u.cache f g;
  }

  authenticated-Same : (path : String) → Moves Same (authenticated platform call path)
  unfolding authenticated
  authenticated-Same path = record { run = λ s. Same-IsPath.stay s }

  user_id_of-Same : (user : Option JwtUserDto) → Moves Same (user_id_of platform user)
  user_id_of-Same none = record { run = λ s. Same-IsPath.stay s }
  user_id_of-Same (some u) = record { run = λ s. Same-IsPath.stay s }

  on_cache-Same :
      {A : Type 0} (m : M K A)
      → Moves (Accepts platform.redis platform.jwt) m
      → Moves Same (on_cache m)
  on_cache-Same m h = record { run = λ s. h.run s.cache }

  -- A logout revokes no access token if what the decorator makes of its header is no token, whatever
  -- token passport took from the same header: every token is accepted after it that was before, at
  -- any time, also when the logout was answered as done.
  pub logout_missed :
      (s : Store K)
      → call.request ≡ post_logout
      → platform.jwt.decode (auth_token call.header) ≡ none
      → Accepts platform.redis platform.jwt s.cache (handle platform call s).1.cache
  unfolding handle
  logout_missed s is_logout unread =
      subst (λ r. Same s (handle_request platform call r s).1) (sym is_logout) (closing.run s)
    where
      closing : Moves Same (handle_request platform call post_logout)
      closing = Moves-bind Same-IsPath _ _ (authenticated-Same "/auth/logout") (λ user.
          Moves-bind Same-IsPath _ _ (user_id_of-Same user) (λ user_id.
            Moves-bind Same-IsPath _ (λ done. pure logged_out)
              (on_cache-Same _ (
                logout-Accepts platform.redis platform.jwt call.draw.now user_id
                  (auth_token call.header) unread))
              (λ done. record { run = λ t. Same-IsPath.stay t })))
