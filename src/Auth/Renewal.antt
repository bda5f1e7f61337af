-- ===== src/Auth/Renewal.antt =====
-- Refresh tokens over a session: a refresh replaces the token, a logout ends it.
use msa_tuto_server.Base.{ℕ, String, ◌≡◌, ◌≢◌, refl, true, false, Option, none, some}
use msa_tuto_server.Http.{Result, ok, err}
use msa_tuto_server.Http.Success.{rethrow-ok, continue-Passed}
use msa_tuto_server.Mongo.{Collection}
use msa_tuto_server.Auth.Users.{User, same_email}
use msa_tuto_server.Auth.Tokens.{
  Jwt, Texts, Redis, refresh_key, check_read, validate_refresh_token, logout, revoke,
  logout_failure,
}
use msa_tuto_server.Auth.Rotation.{IsAccepted, save_refresh_token-IsAccepted}
use msa_tuto_server.Auth.Session.{Store, Tokens, Lifetimes, Draw, refresh_token}
use msa_tuto_server.Auth.Login.{refresh_token-IsRenewed}

module _ {K : Type 0} (redis : Redis K) (jwt : Jwt) (texts : Texts) where
  -- After a refresh that returned tokens, `validateRefreshToken` accepts a token of the user at a later
  -- time only if it is the new refresh token, up to white space around it, and is verified as a token
  -- of the user: the token that was refreshed is used up.
  pub refresh_token-IsAccepted :
      (lifetimes : Lifetimes) (c : Collection User same_email) (draw : Draw)
      (user_id token other : String) (now' : ℕ) (tokens : Tokens) (s t : Store K)
      → refresh_token redis jwt texts lifetimes c draw user_id token s ≡ (ok tokens, t)
      → validate_refresh_token redis jwt texts now' user_id other t.cache ≡ true
      → IsAccepted redis jwt texts draw.now now' user_id tokens.refresh_token s.cache t.cache other
  refresh_token-IsAccepted lifetimes c draw user_id token other now' tokens s t h accepted =
      let renewed =
        refresh_token-IsRenewed redis jwt texts lifetimes c draw user_id token tokens s t h in
      save_refresh_token-IsAccepted redis jwt texts draw.now now' user_id tokens.refresh_token
        s.cache t.cache other renewed.issued.saved accepted

  check_read_unread :
      (now : ℕ) (user_id token : String) (r : Result (Option String))
      → ((v : String) → r ≢ ok (some v))
      → check_read redis jwt texts now user_id token r ≡ false
  check_read_unread now user_id token (err e) h = refl
  check_read_unread now user_id token (ok none) h = refl
  check_read_unread now user_id token (ok (some v)) h = absurd (h v refl)

  -- Once a logout of a user has returned, `validateRefreshToken` accepts no token of that user at any
  -- time, in the cache that the logout left.
  pub validate_refresh_token-logout :
      (now now' : ℕ) (user_id token other : String) (s s' : K)
      → logout redis jwt now user_id token s ≡ (ok tt, s')
      → validate_refresh_token redis jwt texts now' user_id other s' ≡ false
  unfolding logout validate_refresh_token
  validate_refresh_token-logout now now' user_id token other s s' h =
      let passed =
        continue-Passed (revoke redis jwt now user_id token (jwt.decode token) s)
          (λ u. redis.del (refresh_key user_id)) tt s'
          (rethrow-ok (logout_failure redis jwt) _ tt s' h) in
      check_read_unread now' user_id other _
        (λ v. redis.del_same_law now' (refresh_key user_id) passed.between s' v passed.second)
