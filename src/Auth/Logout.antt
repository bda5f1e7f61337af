-- ===== src/Auth/Logout.antt =====
-- Tokens that are not accepted: one that was logged out, and a refresh token that was replaced.
use msa_tuto_server.Base.{
  ℕ, ◌-◌, ◌*◌, ◌≤◌, String, ◌≡◌, ◌≢◌, refl, sym, ◌∙◌, ap, subst, false, false≢true, Option, none,
  some, [], ◌∷◌, ◌==◌, eq_iff, ltb, template, begins_with, arith, Bool-cases, inl, inr,
}
use Prim.Native.Char.{Char}
use Prim.Native.String
use Prim.Native.String.append
use msa_tuto_server.Http.{Exception, Result, ok, err, rethrow, continue}
use msa_tuto_server.Auth.Tokens.{
  Payload, Jwt, Reads, Redis, ceil_seconds, refresh_key, blacklist_key, blacklist_value, blacklist,
  revoke, logout_failure, logout, verified, validate_listed, validate_jwt_token,
}

le-ceil_seconds : (ms : ℕ) → ms ≤ ceil_seconds ms * 1000
le-ceil_seconds ms = grind arith

begins_append :
    (p : String) (c : Char) (s t : String)
    → begins_with p (String.◌++◌ (String.◌∷◌ c s) t)
      ≡ begins_with p (String.◌∷◌ c (String.◌++◌ s t))
begins_append p c s t = ap (begins_with p) (λ i. String.append.cons c s t i)

pub keys_apart : (user_id token : String) → refresh_key user_id ≢ blacklist_key token
keys_apart user_id token q = false≢true (
    sym (begins_append "r" "b" "lacklist:" (template (token ∷ [])))
    ∙ ap (begins_with "r") (sym q)
    ∙ begins_append "r" "r" "efresh_token:" (template (user_id ∷ [])))

value_nonempty : (user_id : String) → (blacklist_value user_id == "") ≡ false
value_nonempty user_id = elim (Bool-cases (blacklist_value user_id == "")) [
  | inr f ↦ f
  | inl t ↦ absurd (
      false≢true (
        ap (begins_with "{") (sym ((eq_iff _ _).0 t))
        ∙ begins_append "{" "{" "\"userId\":\"" (template (user_id ∷ "\"}" ∷ []))))
]

module _ {K : Type 0} (redis : Redis K) (jwt : Jwt) where
  -- An expired token is not accepted, whatever is on the blacklist.
  expired :
      (now : ℕ) (token : String) (p : Payload) (e : ℕ) (s : K)
      → jwt.decode token ≡ some p
      → p.exp ≡ some e
      → e * 1000 ≤ now
      → validate_jwt_token redis jwt now token s ≡ none
  unfolding validate_jwt_token
  expired now token p e s d x late = listed (redis.get now (blacklist_key token) s)
    where
      unverified : (r : Result Payload) → jwt.verify now token ≡ r → verified redis jwt r ≡ none
      unverified (err m) q = refl
      unverified (ok p') q =
          let law = jwt.verify_law now token p' q in
          let same : p'.exp ≡ some e = cc (law.0, d, x) in absurd (omega (arith, law.1 e same))

      listed : (r : Result (Option String)) → validate_listed redis jwt now token r ≡ none
      listed (err m) = refl
      listed (ok none) = unverified (jwt.verify now token) refl
      listed (ok (some v)) = elim (Bool-cases (v == "")) [
        | inl t ↦ rw t (unverified (jwt.verify now token) refl)
        | inr f ↦ rw f
      ]

  failed_none :
      (now : ℕ) (token : String) (s : K) (m : Exception)
      → redis.get now (blacklist_key token) s ≡ err m
      → validate_jwt_token redis jwt now token s ≡ none
  unfolding validate_jwt_token
  failed_none now token s m q = rw q

  -- A token whose key is held on the blacklist is not accepted.
  listed_none :
      (now : ℕ) (user_id token : String) (s : K)
      → redis.get now (blacklist_key token) s ≡ ok (some (blacklist_value user_id))
      → validate_jwt_token redis jwt now token s ≡ none
  unfolding validate_jwt_token
  listed_none now user_id token s q = rw (q, value_nonempty user_id)

  -- What a `SET` of the key of a token with this end may leave there refuses the token.
  pub Reads-none :
      (now now' : ℕ) (user_id token : String) (p : Payload) (e : ℕ) (s : K)
      → jwt.decode token ≡ some p
      → p.exp ≡ some e
      → Reads
          (blacklist_value user_id)
          (some (ceil_seconds (e * 1000 - now)))
          now
          now'
          (redis.get now' (blacklist_key token) s)
      → validate_jwt_token redis jwt now' token s ≡ none
  Reads-none now now' user_id token p e s d x (Reads.failed m q) = failed_none now' token s m q
  Reads-none now now' user_id token p e s d x (Reads.ended z q) =
      expired now' token p e s d x (omega (arith, z, le-ceil_seconds (e * 1000 - now)))
  Reads-none now now' user_id token p e s d x (Reads.held q) = listed_none now' user_id token s q

  -- After the first half of a logout the token is either on the blacklist or expired.
  blacklist-none :
      (now now' : ℕ) (user_id token : String) (p : Payload) (e : ℕ) (s s' : K)
      → jwt.decode token ≡ some p
      → p.exp ≡ some e
      → now ≤ now'
      → blacklist redis jwt now user_id token (some e) s ≡ (ok tt, s')
      → validate_jwt_token redis jwt now' token s' ≡ none
  blacklist-none now now' user_id token p e s s' d x later h =
      elim (Bool-cases (ltb now (e * 1000))) [
        | inr f ↦ expired now' token p e s' d x (ground arith)
        | inl t ↦ Reads-none now now' user_id token p e s' d x (
            redis.set_law now now' (blacklist_key token) (blacklist_value user_id)
              (some (ceil_seconds (e * 1000 - now))) s s' (rw t at h))
      ]

  pub revoke-blacklist :
      (now : ℕ) (user_id token : String) (p : Payload) (e : ℕ) (s : K)
      → jwt.decode token ≡ some p
      → p.exp ≡ some e
      → revoke redis jwt now user_id token (jwt.decode token) s
        ≡ blacklist redis jwt now user_id token (some e) s
  revoke-blacklist now user_id token p e s d x =
      ap (λ r. revoke redis jwt now user_id token r s) d
      ∙ ap (λ end. blacklist redis jwt now user_id token end s) x

  rethrow_state : (f : Exception → Exception) (r : Result (Unit {0}) × K) → (rethrow f r).1 ≡ r.1
  rethrow_state f (ok u, s) = refl
  rethrow_state f (err m, s) = refl

  -- Once `logout` of an access token with an end has returned, `validateJwtToken` never accepts the
  -- token again: it is on the blacklist until it has expired.
  pub logout_revokes :
      (now now' : ℕ) (user_id token : String) (p : Payload) (e : ℕ) (s s' : K)
      → jwt.decode token ≡ some p
      → p.exp ≡ some e
      → now ≤ now'
      → logout redis jwt now user_id token s ≡ (ok tt, s')
      → validate_jwt_token redis jwt now' token s' ≡ none
  unfolding logout validate_jwt_token
  logout_revokes now now' user_id token p e s s' d x later h =
      after (blacklist redis jwt now user_id token (some e) s) refl (
        subst
          (λ r.
            rethrow (logout_failure redis jwt) (continue r (λ u. redis.del (refresh_key user_id)))
            ≡ (ok tt, s'))
          (revoke-blacklist now user_id token p e s d x) h)
    where
      after :
          (r : Result (Unit {0}) × K)
          → blacklist redis jwt now user_id token (some e) s ≡ r
          → rethrow (logout_failure redis jwt) (continue r (λ u. redis.del (refresh_key user_id)))
            ≡ (ok tt, s')
          → validate_jwt_token redis jwt now' token s' ≡ none
      after (err m, t) q g = absurd (cc g)
      after (ok u, t) q g =
          let gone : redis.get now' (blacklist_key token) s'
              ≡ redis.get now' (blacklist_key token) t =
            ap (redis.get now' (blacklist_key token)) (
              sym (ap (λ (z : Result (Unit {0}) × K). z.1) g)
              ∙ rethrow_state _ (redis.del (refresh_key user_id) t))
            ∙ redis.del_law now' (refresh_key user_id) (blacklist_key token) t
                (keys_apart user_id token) in
          rw gone (blacklist-none now now' user_id token p e s t d x later q)
