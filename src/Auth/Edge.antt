-- ===== src/Auth/Edge.antt =====
-- common/filters/http-exception.filter.ts and common/interceptors/transform.interceptor.ts, which
-- main.ts of the auth server registers around all its handlers.
use msa_tuto_server.Base.{
  ℕ, String, ◌≡◌, refl, ap, Option, none, some, ◌==◌, if◌then◌else◌, or_else,
}
use msa_tuto_server.Http.{Result, ok, err}
use msa_tuto_server.Http.Reports.{
  Thrown, error, other_value, documented_status, Errors, Requested, Report, text_or,
}
use msa_tuto_server.Auth.Session.{Store}
use msa_tuto_server.Auth.Server.{Platform, Call, Answer, handle}

-- `exception.message || null`
abbrev pub message_or_null : String → Option String
message_or_null m = if m == "" then none else some m

abbrev pub report_with : Requested → ℕ → ℕ → Option String → String → Report
report_with req now status message name = record {
  status = status;
  body = record {
    status_code = status;
    timestamp = now;
    path = req.url;
    method = req.method;
    message = message;
    error = name;
  };
}

-- `HttpExceptionFilter.catch`; a value that is no error has no `getStatus`, no message and no name.
unfoldable pub catch_http : Errors → Requested → (now : ℕ) → Thrown → Report
catch_http errors req now (error e) =
    report_with req now (or_else (errors.get_status e) 500) (message_or_null (errors.message e))
      (text_or (some (errors.name e)) "Internal Server Error")
catch_http errors req now other_value = report_with req now 500 none "Internal Server Error"

-- `Response<T>`
pub record Transformed (A : Type 0) : Type 0 where
  pub content : A
  pub status_code : ℕ
  pub timestamp : ℕ

-- `TransformInterceptor.intercept`, with the status that the framework has set.
unfoldable pub transform : {A : Type 0} → (status now : ℕ) → A → Transformed A
transform status now a = record { content = a; status_code = status; timestamp = now }

-- What a client is answered.
pub data Response : Type 0 where
  returned : (status : ℕ) → Transformed Answer → Response
  reported : Report → Response

module _ {K : Type 0} (platform : Platform K) (errors : Errors) (req : Requested)
    (status now : ℕ) where
  abbrev pub filtered : Result Answer → Response
  filtered (ok a) = returned status (transform status now a)
  filtered (err e) = reported (catch_http errors req now (error e))

  unfoldable pub respond : Call → Store K → Response × Store K
  respond call s = let (r, t) = handle platform call s in (filtered r, t)

-- The status of an answer, and the one that its body names.
abbrev pub sent_status : Response → ℕ
sent_status (returned status t) = status
sent_status (reported r) = r.status

abbrev pub named_status : Response → ℕ
named_status (returned status t) = t.status_code
named_status (reported r) = r.body.status_code

-- The status that a result should be answered with.
abbrev pub due_status : ℕ → Result Answer → ℕ
due_status status (ok a) = status
due_status status (err e) = or_else (documented_status e) 500

module _ {K : Type 0} (platform : Platform K) (errors : Errors) (req : Requested)
    (status now : ℕ) where
  filtered_status :
      (r : Result Answer)
      → (sent_status (filtered platform errors req status now r) ≡ due_status status r)
        × (named_status (filtered platform errors req status now r) ≡ due_status status r)
  unfolding catch_http transform
  filtered_status (ok a) = (refl, refl)
  filtered_status (err e) =
      let same = ap (λ o. or_else o 500) (errors.get_status_law e) in (same, same)
