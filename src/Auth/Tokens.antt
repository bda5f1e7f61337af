-- ===== src/Auth/Tokens.antt =====
-- tokens/tokens.service.ts, cache/cache.service.ts, and `logout` and `validateJwtToken` of
-- auth/auth.service.ts. Redis, the JWT library, JSON and `trim` are parameters with what their
-- documentation says. Times are milliseconds; `exp` of a token and the lifetime of a key, seconds.
use msa_tuto_server.Base.{
  ℕ, zero, suc, ◌+◌, ◌-◌, ◌*◌, ◌/◌, ◌≤◌, ◌<◌, String, ◌≡◌, ◌≢◌, ◌⊎◌, Bool, false, ◌&&◌, not, Option,
  none, some, List, [], ◌∷◌, ◌==◌, eqb, ltb, if◌then◌else◌, template,
}
use msa_tuto_server.Http.{
  Exception, internal, failure, Result, ok, err, M, pure, throw, rethrow, ◌>>◌,
}

-- What a token carries.
pub record Payload : Type 0 where
  pub sub : String
  pub email : Option String
  pub roles : Option (List String)
  pub jti : String
  pub exp : Option ℕ

-- The time is before the end of the token, if it has an end.
abbrev pub IsUnexpired : ℕ → Payload → Type 0
IsUnexpired now p = (e : ℕ) → p.exp ≡ some e → now < e * 1000

-- What a token is signed for; `sign` adds the end, some seconds after the time.
pub record Claims : Type 0 where
  pub sub : String
  pub email : Option String
  pub roles : Option (List String)
  pub jti : String

pub record Jwt : Type 0 where
  pub sign : ℕ → ℕ → Claims → String
  pub decode : String → Option Payload
  pub verify : ℕ → String → Result Payload
  pub verify_law :
      (now : ℕ) (token : String) (p : Payload)
      → verify now token ≡ ok p
      → (decode token ≡ some p) × IsUnexpired now p

-- `JSON.stringify` and `JSON.parse` of a text, and `trim`.
pub record Texts : Type 0 where
  pub stringify : String → String
  pub parse : String → Result String
  pub parse-stringify : (s : String) → parse (stringify s) ≡ ok s
  pub trim : String → String

-- A key that was set for `ttl` seconds at `since` has ended.
abbrev pub HasEnded : Option ℕ → ℕ → ℕ → Type 0
HasEnded none since now = ⊥
HasEnded (some ttl) since now = since + ttl * 1000 ≤ now

-- What is read at a key that was set to `v`.
pub data Reads (v : String) (ttl : Option ℕ) (since now : ℕ) (r : Result (Option String))
    : Type 0 where
  failed : (e : Exception) → r ≡ err e → Reads v ttl since now r
  ended : HasEnded ttl since now → r ≡ ok none → Reads v ttl since now r
  held : r ≡ ok (some v) → Reads v ttl since now r

-- A Redis with states `K`: `get`, `SET key value EX ttl` or without a lifetime, and `del`.
pub record Redis (K : Type 0) : Type 0 where
  pub get : ℕ → String → K → Result (Option String)
  pub set : ℕ → String → String → Option ℕ → K → Result (Unit {0}) × K
  pub set_law :
      (since now : ℕ) (key v : String) (ttl : Option ℕ) (s s' : K)
      → set since key v ttl s ≡ (ok tt, s')
      → Reads v ttl since now (get now key s')
  -- A `SET` that failed was done or not.
  pub set_failed_law :
      (since now : ℕ) (key v : String) (ttl : Option ℕ) (s s' : K) (e : Exception)
      → set since key v ttl s ≡ (err e, s')
      → (get now key s' ≡ get now key s) ⊎ Reads v ttl since now (get now key s')
  pub set_other_law :
      (since now : ℕ) (j k v : String) (ttl : Option ℕ) (s : K)
      → j ≢ k
      → get now k (set since j v ttl s).1 ≡ get now k s
  pub del : String → K → Result (Unit {0}) × K
  pub del_law : (now : ℕ) (j k : String) (s : K) → j ≢ k → get now k (del j s).1 ≡ get now k s
  pub del_same_law :
      (now : ℕ) (k : String) (s s' : K) (v : String)
      → del k s ≡ (ok tt, s')
      → get now k s' ≢ ok (some v)

-- `Math.ceil(ms / 1000)`
abbrev pub ceil_seconds : ℕ → ℕ
ceil_seconds ms = (ms + 999) / 1000

abbrev pub refresh_key : String → String
refresh_key user_id = template ("refresh_token:" ∷ user_id ∷ [])

abbrev pub blacklist_key : String → String
blacklist_key token = template ("blacklist:" ∷ token ∷ [])

abbrev pub blacklist_value : String → String
blacklist_value user_id = template ("{\"userId\":\"" ∷ user_id ∷ "\"}" ∷ [])

module _ {K : Type 0} (redis : Redis K) (jwt : Jwt) (texts : Texts) where
  -- The lifetime is `exp` less the seconds of the clock; 0 counts as none, and Redis refuses one
  -- below 0.
  abbrev pub store_refresh : ℕ → String → String → ℕ → M K (Unit {0})
  store_refresh now user_id token exp =
      let value = texts.stringify token in
      if ltb exp (now / 1000)
      then throw (failure "ERR invalid expire time in 'set' command")
      else if eqb exp (now / 1000)
      then redis.set now (refresh_key user_id) value none
      else redis.set now (refresh_key user_id) value (some (exp - now / 1000))

  -- `!payload.exp` holds of 0 too.
  abbrev pub store_decoded : ℕ → String → String → Option ℕ → M K (Unit {0})
  store_decoded now user_id token none = throw (failure "Invalid token payload")
  store_decoded now user_id token (some zero) = throw (failure "Invalid token payload")
  store_decoded now user_id token (some (suc e)) = store_refresh now user_id token (suc e)

  abbrev pub store_payload : ℕ → String → String → Option Payload → M K (Unit {0})
  store_payload now user_id token none = throw (failure "Invalid token payload")
  store_payload now user_id token (some p) = store_decoded now user_id token p.exp

  unfoldable pub save_refresh_token : ℕ → String → String → M K (Unit {0})
  save_refresh_token now user_id token = store_payload now user_id token (jwt.decode token)

  -- The payload of a verified token is of this user.
  abbrev pub is_of : String → Result Payload → Bool
  is_of user_id (ok p) = p.sub == user_id
  is_of user_id (err e) = false

  -- From the parsed value on; an empty text counts as none.
  abbrev pub check_stored : ℕ → String → String → Result String → Bool
  check_stored now user_id token (err e) = false
  check_stored now user_id token (ok stored) =
      not (stored == "")
      && (texts.trim stored == texts.trim token)
      && is_of user_id (jwt.verify now token)

  abbrev pub check_read : ℕ → String → String → Result (Option String) → Bool
  check_read now user_id token (err e) = false
  check_read now user_id token (ok none) = false
  check_read now user_id token (ok (some text)) = check_stored now user_id token (texts.parse text)

  unfoldable pub validate_refresh_token : ℕ → String → String → K → Bool
  validate_refresh_token now user_id token s =
      check_read now user_id token (redis.get now (refresh_key user_id) s)

  unfoldable pub remove_refresh_token : String → M K (Unit {0})
  remove_refresh_token user_id = redis.del (refresh_key user_id)

module _ {K : Type 0} (redis : Redis K) (jwt : Jwt) where
  -- Without `exp` the time left is no number, which is not above 0.
  abbrev pub blacklist : ℕ → String → String → Option ℕ → M K (Unit {0})
  blacklist now user_id token none = pure tt
  blacklist now user_id token (some e) =
      if ltb now (e * 1000)
      then redis.set now (blacklist_key token) (blacklist_value user_id)
          (some (ceil_seconds (e * 1000 - now)))
      else pure tt

  abbrev pub revoke : ℕ → String → String → Option Payload → M K (Unit {0})
  revoke now user_id token none = pure tt
  revoke now user_id token (some p) = blacklist now user_id token p.exp

  abbrev pub logout_failure : Exception → Exception
  logout_failure e = internal "로그아웃 처리 중 오류가 발생했습니다"

  unfoldable pub logout : ℕ → String → String → M K (Unit {0})
  logout now user_id token s =
      rethrow logout_failure
        ((revoke now user_id token (jwt.decode token) >> redis.del (refresh_key user_id)) s)

  -- The answer has the id, the email and the roles of the payload, which stands for it.
  abbrev pub verified : Result Payload → Option Payload
  verified (ok p) = some p
  verified (err e) = none

  -- With what Redis has of the token on its blacklist.
  abbrev pub validate_listed : ℕ → String → Result (Option String) → Option Payload
  validate_listed now token (err e) = none
  validate_listed now token (ok none) = verified (jwt.verify now token)
  validate_listed now token (ok (some v)) =
      if v == "" then verified (jwt.verify now token) else none

  unfoldable pub validate_jwt_token : ℕ → String → K → Option Payload
  validate_jwt_token now token s = validate_listed now token (redis.get now (blacklist_key token) s)
