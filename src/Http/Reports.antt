-- ===== src/Http/Reports.antt =====
-- What the exception filters of the three servers are given, and what they answer.
use msa_tuto_server.Base.{
  ℕ, String, ◌≡◌, Bool, true, false, Option, none, some, ◌==◌, if◌then◌else◌,
}
use msa_tuto_server.Http.{
  Exception, bad_request, unauthorized, forbidden, not_found, conflict, request_timeout, internal,
  failure,
}

-- A thrown value is an `Error` or, in JavaScript, anything else; of what may be thrown, null and
-- undefined, which have no properties to ask for, are left out.
pub data Thrown : Type 0 where
  error : Exception → Thrown
  other_value : Thrown

-- `HttpException` of NestJS, as opposed to any other `Error`.
abbrev pub is_http : Exception → Bool
is_http (failure m) = false
is_http _ = true

-- The statuses that the documentation of NestJS gives to its exceptions.
abbrev pub documented_status : Exception → Option ℕ
documented_status (bad_request m) = some 400
documented_status (unauthorized m) = some 401
documented_status (forbidden m) = some 403
documented_status (not_found m) = some 404
documented_status (request_timeout m) = some 408
documented_status (conflict m) = some 409
documented_status (internal m) = some 500
documented_status (failure m) = none

-- How NestJS presents an error. An error that is no `HttpException` has no status and no response.
pub record Errors : Type 0 where
  -- `getStatus`, of an error that has it
  pub get_status : Exception → Option ℕ
  pub get_status_law : (e : Exception) → get_status e ≡ documented_status e
  -- `message` and `name`
  pub message : Exception → String
  pub name : Exception → String
  -- the `message` and the `error` of what `getResponse` returns
  pub response_message : Exception → Option String
  pub response_error : Exception → Option String

-- The request as far as a filter reads it.
pub record Requested : Type 0 where
  pub method : String
  pub url : String

pub record ErrorBody : Type 0 where
  pub status_code : ℕ
  pub timestamp : ℕ
  pub path : String
  pub method : String
  pub message : Option String
  pub error : String

-- An answer: its status and its body.
pub record Report : Type 0 where
  pub status : ℕ
  pub body : ErrorBody

-- `value || fallback`
abbrev pub text_or : Option String → String → String
text_or none d = d
text_or (some s) d = if s == "" then d else s
