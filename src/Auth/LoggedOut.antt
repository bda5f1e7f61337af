-- ===== src/Auth/LoggedOut.antt =====
-- After a logout: its access token opens no handler any more.
use msa_tuto_server.Base.{ℕ, ◌≤◌, String, ◌≡◌, ◌∙◌, ap, subst, Option, some, List}
use msa_tuto_server.Http.{ok, M, pure, ◌>>=◌}
use msa_tuto_server.Http.Moves.{Moves, Moves-bind, Moves-rethrow}
use msa_tuto_server.Http.Success.{continue-Passed}
use msa_tuto_server.Auth.Tokens.{Payload, logout}
use msa_tuto_server.Auth.Users.{User, Users}
use msa_tuto_server.Auth.Session.{
  Store, on_people, on_cache, Draw, signed, token_failure, generate_tokens,
}
use msa_tuto_server.Auth.Guards.{JwtUserDto, auth_token}
use msa_tuto_server.Auth.Server.{
  Platform, post_logout, Call, Answer, logged_out, authenticated, user_id_of, handle_request,
  handle, serve,
}
use msa_tuto_server.Auth.Logout.{logout_revokes}
use msa_tuto_server.Auth.Requests.{IsFollowed, serve-Moves}
use msa_tuto_server.Auth.Revoked.{
  IsRevoked, StaysRevoked, StaysRevoked-IsPath, save_refresh_token-StaysRevoked,
  logout-StaysRevoked,
}
use msa_tuto_server.Auth.Refused.{IsGuarded, IsRefused, handle_request-IsRefused}

module _ {K : Type 0} (platform : Platform K) (token : String) (since : ℕ) (p : Payload) (e : ℕ)
    (decoded : platform.jwt.decode token ≡ some p) (ends : p.exp ≡ some e) where
  abbrev CacheStaysRevoked : Store K → Store K → Type 0
  CacheStaysRevoked s t = StaysRevoked platform.redis platform.jwt token since s.cache t.cache

  people_only : {A : Type 0} (m : M Users A) → Moves CacheStaysRevoked (on_people m)
  people_only m = record { run = λ s h. h }

  cache_only :
      {A : Type 0} (m : M K A)
      → Moves (StaysRevoked platform.redis platform.jwt token since) m
      → Moves CacheStaysRevoked (on_cache m)
  cache_only m h = record { run = λ s. h.run s.cache }

  generate_tokens-StaysRevoked :
      (draw : Draw) (u : User) (user_id : String)
      → Moves (StaysRevoked platform.redis platform.jwt token since) (
          generate_tokens platform.redis platform.jwt platform.texts platform.lifetimes draw user_id
            u.email u.roles)
  unfolding generate_tokens
  generate_tokens-StaysRevoked draw u user_id =
      let tokens = signed platform.jwt platform.lifetimes draw user_id u.email u.roles in
      Moves-rethrow _ token_failure _ (
        Moves-bind (StaysRevoked-IsPath platform.redis platform.jwt token since) _
          (λ done. pure tokens)
          (save_refresh_token-StaysRevoked platform.redis platform.jwt token since platform.texts
            draw.now user_id tokens.refresh_token)
          (λ done. record { run = λ s h. h }))

  CacheStaysRevoked-IsFollowed : IsFollowed platform CacheStaysRevoked
  CacheStaysRevoked-IsFollowed = record {
    path = record { stay = λ s h. h; follow = λ s t u f g h. g (f h) };
    creates = λ dto id. people_only _;
    validates = λ draw email password. people_only _;
    adds_role = λ id role. people_only _;
    removes_role = λ id role. people_only _;
    generates = λ draw u user_id. cache_only _ (generate_tokens-StaysRevoked draw u user_id);
    logs_out = λ call user_id. cache_only _ (
        logout-StaysRevoked platform.redis platform.jwt token since p e decoded ends call.draw.now
          user_id (auth_token call.header));
  }

module _ {K : Type 0} (platform : Platform K) (call : Call) where
  abbrev ending : String → M (Store K) (Unit {0})
  ending user_id =
      on_cache (logout platform.redis platform.jwt call.draw.now user_id (auth_token call.header))

  abbrev ending_for : Option JwtUserDto → M (Store K) Answer
  ending_for user =
      user_id_of platform user >>= λ user_id. ending user_id >>= λ done. pure logged_out

  -- What stands behind an answered logout.
  close-logout :
      (s t : Store K)
      → handle_request platform call post_logout s ≡ (ok logged_out, t)
      → (user_id : String) × (u : Store K) × (logout platform.redis platform.jwt call.draw.now
            user_id
            (auth_token call.header)
            u.cache
          ≡ (ok tt, t.cache))
  close-logout s t h =
      let a =
        continue-Passed (authenticated platform call "/auth/logout" s) ending_for logged_out t h in
      let b =
        continue-Passed (user_id_of platform a.value a.between)
          (λ user_id. ending user_id >>= λ done. pure logged_out) logged_out t a.second in
      let c =
        continue-Passed (ending b.value b.between) (λ done. pure logged_out) logged_out t
          b.second in
      (b.value, b.between, at_cache b.between b.value c.between t c.first (ap (λ r. r.1) c.second))
    where
      at_cache :
          (u : Store K) (user_id : String) (v w : Store K)
          → ending user_id u ≡ (ok tt, v)
          → v ≡ w
          → logout platform.redis platform.jwt call.draw.now user_id
              (auth_token call.header)
              u.cache
            ≡ (ok tt, w.cache)
      at_cache u user_id v w q same i = ((q i).0, ((q ∙ ap (λ z. (ok tt, z)) same) i).1.cache)

module _ {K : Type 0} (platform : Platform K) where
  -- Once a logout was answered, every later request that bears its access token and stands behind the
  -- guard is refused and writes nothing, whatever requests of anybody are served in between. The token
  -- is the one that the decorator reads from the header of the logout, and it has an end.
  pub logout_for_good :
      (first : Call) (calls : List Call) (last : Call) (p : Payload) (e : ℕ) (s t : Store K)
      → platform.jwt.decode (auth_token first.header) ≡ some p
      → p.exp ≡ some e
      → first.request ≡ post_logout
      → handle platform first s ≡ (ok logged_out, t)
      → first.draw.now ≤ last.draw.now
      → platform.passport.extract last.header ≡ some (auth_token first.header)
      → IsGuarded last.request
      → IsRefused (handle platform last) (serve platform calls t)
  unfolding handle
  logout_for_good first calls last p e s t decoded ends is_logout done later borne guarded =
      let token = auth_token first.header in
      let (user_id, u, closed) =
        close-logout platform first s t
          (subst (λ r. handle_request platform first r s ≡ (ok logged_out, t)) is_logout done) in
      let revoked : IsRevoked platform.redis platform.jwt token first.draw.now t.cache = record {
        run = λ now after.
            logout_revokes platform.redis platform.jwt first.draw.now now user_id token p e u.cache
              t.cache decoded ends after closed;
      } in
      let still =
        serve-Moves platform _
          (CacheStaysRevoked-IsFollowed platform token first.draw.now p e decoded ends) calls t
          revoked in
      handle_request-IsRefused platform last token (serve platform calls t) borne
        (still.run last.draw.now later) last.request guarded
