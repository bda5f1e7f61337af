-- ===== src/Auth/PassportMemory.antt =====
-- A passport that meets the law: it reads a bearer token, verifies it and calls the strategy.
use msa_tuto_server.Base.{ℕ, String, ◌≡◌, refl, Option, none, some, begins_with, if◌then◌else◌}
use msa_tuto_server.Http.{Result, ok, err}
use msa_tuto_server.Auth.Tokens.{Payload, Jwt}
use msa_tuto_server.Auth.Guards.{Answered, Passport, auth_token}

abbrev pub bearer : Option String → Option String
bearer none = none
bearer (some header) =
    if begins_with "Bearer " header then some (auth_token (some header)) else none

abbrev pub refused : {U : Type 0} → String → Answered U
refused message = record { error = none; user = none; info = some message }

abbrev pub of_strategy : {U : Type 0} → Result U → Answered U
of_strategy (ok u) = record { error = none; user = some u; info = none }
of_strategy (err e) = record { error = some e; user = none; info = none }

abbrev pub of_payload : {U : Type 0} → (Payload → Result U) → Result Payload → Answered U
of_payload validate (ok p) = of_strategy (validate p)
of_payload validate (err e) = refused "jwt malformed"

module _ {U : Type 0} (jwt : Jwt) where
  abbrev pub of_token : ℕ → (Payload → Result U) → Option String → Answered U
  of_token now validate none = refused "No auth token"
  of_token now validate (some token) = of_payload validate (jwt.verify now token)

  of_strategy_user : (r : Result U) (u : U) → (of_strategy r).user ≡ some u → r ≡ ok u
  of_strategy_user (ok v) u h = cc h
  of_strategy_user (err e) u h = absurd (cc h)

  of_payload_user :
      (validate : Payload → Result U) (r : Result Payload) (u : U)
      → (of_payload validate r).user ≡ some u
      → (p : Payload) × (r ≡ ok p) × (validate p ≡ ok u)
  of_payload_user validate (ok p) u h = (p, refl, of_strategy_user (validate p) u h)
  of_payload_user validate (err e) u h = absurd (cc h)

  pub of_token_user :
      (now : ℕ) (validate : Payload → Result U) (token : Option String) (u : U)
      → (of_token now validate token).user ≡ some u
      → (t : String) × (p : Payload) × (token ≡ some t)
        × (jwt.verify now t ≡ ok p)
        × (validate p ≡ ok u)
  of_token_user now validate none u h = absurd (cc h)
  of_token_user now validate (some t) u h =
      let (p, verified, validated) = of_payload_user validate (jwt.verify now t) u h in
      (t, p, refl, verified, validated)

  abbrev pub bearer_passport : Passport jwt U
  bearer_passport = record {
    extract = bearer;
    run = λ now header validate. of_token now validate (bearer header);
    run_law = λ now header validate u h. of_token_user now validate (bearer header) u h;
  }
