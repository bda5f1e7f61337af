-- ===== src/Auth/Rotation.antt =====
-- Refresh tokens: a user has one at a time.
use msa_tuto_server.Base.{
  ℕ, zero, suc, ◌-◌, ◌/◌, String, ◌≡◌, sym, ◌∙◌, ap, ◌≢◌, false, true, Option, none, some, ◌==◌,
  eq_iff, eq_refl, eqb, ltb, arith, Bool-cases, inl, inr,
}
use msa_tuto_server.Http.{Result, ok, err}
use msa_tuto_server.Auth.Tokens.{
  Payload, Jwt, Texts, Reads, Redis, refresh_key, store_refresh, store_decoded, store_payload,
  save_refresh_token, is_of, check_stored, check_read, validate_refresh_token,
}

module _ {K : Type 0} (redis : Redis K) (jwt : Jwt) (texts : Texts) (now now' : ℕ)
    (user_id token : String) (s s' : K) where
  -- What is read later at the user's key is the token, if anything.
  abbrev IsHeld : Type 0
  IsHeld =
      (ttl : Option ℕ) × Reads (texts.stringify token) ttl now now'
        (redis.get now' (refresh_key user_id) s')

  store_refresh-IsHeld :
      (exp : ℕ) → store_refresh redis jwt texts now user_id token exp s ≡ (ok tt, s') → IsHeld
  store_refresh-IsHeld exp h = elim (Bool-cases (ltb exp (now / 1000))) [
    | inl t ↦ absurd (cc (rw t at h))
    | inr f ↦ elim (Bool-cases (eqb exp (now / 1000))) [
      | inl t ↦ (none, redis.set_law now now' _ _ none s s' (rw (f, t) at h))
      | inr g ↦ (some (exp - now / 1000), redis.set_law now now' _ _ _ s s' (rw (f, g) at h))
    ]
  ]

  store_decoded-IsHeld :
      (exp : Option ℕ)
      → store_decoded redis jwt texts now user_id token exp s ≡ (ok tt, s')
      → IsHeld
  store_decoded-IsHeld none h = absurd (cc h)
  store_decoded-IsHeld (some zero) h = absurd (cc h)
  store_decoded-IsHeld (some (suc e)) h = store_refresh-IsHeld (suc e) h

  store_payload-IsHeld :
      (p : Option Payload)
      → store_payload redis jwt texts now user_id token p s ≡ (ok tt, s')
      → IsHeld
  store_payload-IsHeld none h = absurd (cc h)
  store_payload-IsHeld (some p) h = store_decoded-IsHeld p.exp h

  -- What an accepted token is: the one that was saved, and one that the JWT library verifies.
  abbrev pub IsAccepted : String → Type 0
  IsAccepted other =
      (texts.trim token ≡ texts.trim other)
      × (is_of redis jwt texts user_id (jwt.verify now' other) ≡ true)

  check_stored-IsAccepted :
      (other : String) (r : Result String)
      → r ≡ ok token
      → check_stored redis jwt texts now' user_id other r ≡ true
      → IsAccepted other
  check_stored-IsAccepted other (err e) q h = absurd (cc q)
  check_stored-IsAccepted other (ok t) q h =
      let same : t ≡ token = cc q in
      (
        ap texts.trim (sym same) ∙ (eq_iff (texts.trim t) (texts.trim other)).0 (ground arith),
        ground arith,
      )

  check_read-IsAccepted :
      (other : String)
      → IsHeld
      → check_read redis jwt texts now' user_id other (redis.get now' (refresh_key user_id) s')
        ≡ true
      → IsAccepted other
  check_read-IsAccepted other (ttl, Reads.failed e q) h = absurd (cc (rw q at h))
  check_read-IsAccepted other (ttl, Reads.ended z q) h = absurd (cc (rw q at h))
  check_read-IsAccepted other (ttl, Reads.held q) h =
      check_stored-IsAccepted other _ (texts.parse-stringify token) (rw q at h)

  -- Once a refresh token of a user was saved, a token is accepted at a later time only if it is that
  -- one, up to white space around it, and is verified as a token of the user: the tokens that were
  -- saved before it are refused.
  pub save_refresh_token-IsAccepted :
      (other : String)
      → save_refresh_token redis jwt texts now user_id token s ≡ (ok tt, s')
      → validate_refresh_token redis jwt texts now' user_id other s' ≡ true
      → IsAccepted other
  unfolding save_refresh_token validate_refresh_token
  save_refresh_token-IsAccepted other saved accepted =
      check_read-IsAccepted other (store_payload-IsHeld (jwt.decode token) saved) accepted

  check_read-accepted :
      (v : String) (p : Payload)
      → IsHeld
      → redis.get now' (refresh_key user_id) s' ≡ ok (some v)
      → token ≢ ""
      → jwt.verify now' token ≡ ok p
      → p.sub ≡ user_id
      → check_read redis jwt texts now' user_id token (redis.get now' (refresh_key user_id) s')
        ≡ true
  check_read-accepted v p (ttl, Reads.failed e q) there nonempty good same = absurd (cc (q, there))
  check_read-accepted v p (ttl, Reads.ended z q) there nonempty good same = absurd (cc (q, there))
  check_read-accepted v p (ttl, Reads.held q) there nonempty good same =
      let apart : (token == "") ≡ false = elim (Bool-cases (token == "")) [
        | inl t ↦ absurd (nonempty ((eq_iff token "").0 t))
        | inr f ↦ f
      ] in
      rw (q, texts.parse-stringify token, apart, eq_refl (texts.trim token), good)
        ((eq_iff p.sub user_id).1 same)

  -- A refresh token that was saved is accepted at a later time, as long as Redis still has a value at
  -- the user's key, the token is not empty and the JWT library verifies it as one of the user.
  pub validate_refresh_token-save_refresh_token :
      (v : String) (p : Payload)
      → save_refresh_token redis jwt texts now user_id token s ≡ (ok tt, s')
      → redis.get now' (refresh_key user_id) s' ≡ ok (some v)
      → token ≢ ""
      → jwt.verify now' token ≡ ok p
      → p.sub ≡ user_id
      → validate_refresh_token redis jwt texts now' user_id token s' ≡ true
  unfolding save_refresh_token validate_refresh_token
  validate_refresh_token-save_refresh_token v p saved there nonempty good same =
      check_read-accepted v p (store_payload-IsHeld (jwt.decode token) saved) there nonempty good
        same
