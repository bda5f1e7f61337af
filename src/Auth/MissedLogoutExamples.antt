-- ===== src/Auth/MissedLogoutExamples.antt =====
-- A logout with the scheme in lower case: tests, and the theorem at a concrete input.
use msa_tuto_server.Base.{
  ℕ, String, ◌≡◌, refl, Bool, Option, none, some, begins_with, if◌then◌else◌, Bool-cases, inl, inr,
}
use msa_tuto_server.Http.{Result, ok, err, failure}
use msa_tuto_server.Auth.Tokens.{Payload, IsUnexpired, Jwt, logout, validate_jwt_token}
use msa_tuto_server.Auth.Memory.{Keys, keys}
use msa_tuto_server.Auth.TokenExamples.{payload, verify, verify-IsUnexpired, jwt}
use msa_tuto_server.Auth.Guards.{
  JwtUserDto, Passport, remove_first, auth_token, jwt_guard, handle_answer, strategy_validate,
}
use msa_tuto_server.Auth.PassportMemory.{of_token, of_token_user}
use msa_tuto_server.Auth.Server.{Platform, Call, post_logout, logged_out, authenticated, handle}
use msa_tuto_server.Auth.ServerExamples.{platform, start, draw}
use msa_tuto_server.Auth.MissedLogout.{Accepts, logout_missed}

-- A library that takes no text with a scheme in front for a token.
abbrev has_scheme : String → Bool
has_scheme token = begins_with "bearer " token

abbrev decode : String → Option Payload
decode token = if has_scheme token then none else some payload

abbrev verify_plain : ℕ → String → Result Payload
verify_plain now token = if has_scheme token then err (failure "invalid token") else verify now

verify_plain-IsUnexpired :
    (now : ℕ) (token : String) (p : Payload)
    → verify_plain now token ≡ ok p
    → (decode token ≡ some p) × IsUnexpired now p
verify_plain-IsUnexpired now token p h = elim (Bool-cases (has_scheme token)) [
  | inl t ↦ absurd (cc (rw t at h))
  | inr f ↦ rw f (verify-IsUnexpired now p (rw f at h))
]

abbrev strict : Jwt
strict = record jwt {
  decode = decode;
  verify = verify_plain;
  verify_law = λ now token p h. verify_plain-IsUnexpired now token p h;
}

-- A passport that reads the scheme in both cases.
abbrev either_case : Option String → Option String
either_case none = none
either_case (some h) =
    if begins_with "Bearer " h
    then some (remove_first "Bearer " h)
    else if begins_with "bearer " h
    then some (remove_first "bearer " h)
    else none

abbrev lenient : Passport strict JwtUserDto
lenient = record {
  extract = either_case;
  run = λ now header validate. of_token strict now validate (either_case header);
  run_law = λ now header validate u h. of_token_user strict now validate (either_case header) u h;
}

abbrev lenient_platform : Platform Keys
lenient_platform = record {
  redis = keys;
  jwt = strict;
  texts = platform.texts;
  lifetimes = platform.lifetimes;
  users = platform.users;
  find_users = platform.find_users;
  delete_key = platform.delete_key;
  bcrypt = platform.bcrypt;
  passport = lenient;
}

abbrev lower_case : Call
lower_case = record { draw = draw; header = some "bearer a1"; request = post_logout }

answered_done : (handle lenient_platform lower_case start).0 ≡ ok logged_out
unfolding handle authenticated jwt_guard handle_answer strategy_validate auth_token
    validate_jwt_token logout Bool-cases
answered_done = refl

still_accepted :
    validate_jwt_token keys strict 30000 "a1" (handle lenient_platform lower_case start).1.cache
    ≡ some payload
unfolding handle authenticated jwt_guard handle_answer strategy_validate auth_token
    validate_jwt_token logout Bool-cases
still_accepted = refl

logout_missed_example :
    Accepts keys strict start.cache (handle lenient_platform lower_case start).1.cache
unfolding auth_token
logout_missed_example = logout_missed lenient_platform lower_case start refl refl
