-- ===== src/Gateway/Edge.antt =====
-- The filters and the timeout around the handlers of the gateway, as app.module.ts and main.ts register
-- them: common/filters and common/interceptors/timeout.interceptor.ts. How the framework picks a
-- filter, and the operator `timeout` of rxjs, are parameters.
use msa_tuto_server.Base.{
  ℕ, ◌<◌, String, ◌≡◌, Bool, true, false, Option, none, some, List, [], ◌∷◌, ◌++◌, All,
}
use msa_tuto_server.Http.{Exception, request_timeout, Result, ok, err}
use msa_tuto_server.Http.Reports.{
  Thrown, error, other_value, is_http, Errors, Requested, Report, text_or,
}

-- `AllExceptionsFilter.catch`; both branches of its test have the same status.
abbrev pub internal_status : Thrown → ℕ
internal_status (error e) = 500
internal_status other_value = 500

abbrev pub name_of : Errors → Thrown → String
name_of errors (error e) = errors.name e
name_of errors other_value = "Unknown error"

unfoldable pub catch_any : Errors → Requested → (now : ℕ) → Thrown → Report
catch_any errors req now thrown = record {
  status = internal_status thrown;
  body = record {
    status_code = internal_status thrown;
    timestamp = now;
    path = req.url;
    method = req.method;
    message = some "Internal server error";
    error = name_of errors thrown;
  };
}

-- `HttpExceptionFilter.catch`, for an exception with this status.
unfoldable pub catch_http_exception : Errors → Requested → (now : ℕ) → Exception → ℕ → Report
catch_http_exception errors req now e status = record {
  status = status;
  body = record {
    status_code = status;
    timestamp = now;
    path = req.url;
    method = req.method;
    message = some (
        text_or (errors.response_message e)
          (text_or (some (errors.message e)) "Internal server error"));
    error = text_or (errors.response_error e) (errors.name e);
  };
}

pub data Filter : Type 0 where
  all_exceptions http_exception : Filter

-- The arguments of `@Catch`.
abbrev pub catches : Filter → Thrown → Bool
catches all_exceptions thrown = true
catches http_exception (error e) = is_http e
catches http_exception other_value = false

-- In the order of registration: two providers of app.module.ts, then two in main.ts.
abbrev pub registered_filters : List Filter
registered_filters = http_exception ∷ all_exceptions ∷ all_exceptions ∷ http_exception ∷ []

-- NestJS runs the filter registered last among those that catch a thrown value.
pub record FilterChoice : Type 0 where
  pub pick : List Filter → Thrown → Option Filter
  pub pick_law :
      (before after : List Filter) (f : Filter) (thrown : Thrown)
      → catches f thrown ≡ true
      → All (λ g. catches g thrown ≡ false) after
      → pick (before ++ f ∷ after) thrown ≡ some f

module _ (errors : Errors) (req : Requested) (now : ℕ) where
  abbrev pub with_status : Exception → Option ℕ → Option Report
  with_status e none = none
  with_status e (some status) = some (catch_http_exception errors req now e status)

  -- A filter at work; `http_exception` is only given what has `getStatus`.
  abbrev pub filter_report : Filter → Thrown → Option Report
  filter_report all_exceptions thrown = some (catch_any errors req now thrown)
  filter_report http_exception other_value = none
  filter_report http_exception (error e) = with_status e (errors.get_status e)

  abbrev pub picked_report : Option Filter → Thrown → Option Report
  picked_report none thrown = none
  picked_report (some f) thrown = filter_report f thrown

  -- What the client of the gateway is answered when a guard or a handler throws.
  unfoldable pub report : FilterChoice → Thrown → Option Report
  report choice thrown = picked_report (choice.pick registered_filters thrown) thrown

-- A handler's work: the time that it takes, and what comes of it.
pub record Work (A : Type 0) : Type 0 where
  pub took : ℕ
  pub result : Result A

-- What the observable gives behind `timeout`.
pub data Emission (A : Type 0) : Type 0 where
  emitted : A → Emission A
  failed_with : Exception → Emission A
  timed_out : Emission A

abbrev pub emission : {A : Type 0} → Result A → Emission A
emission (ok a) = emitted a
emission (err e) = failed_with e

-- rxjs gives a `TimeoutError` for an observable that is slower than the limit.
pub record TimeoutOperator (A : Type 0) : Type 0 where
  pub timeout : ℕ → Work A → Emission A
  pub in_time_law :
      (limit : ℕ) (work : Work A) → work.took < limit → timeout limit work ≡ emission work.result
  pub too_late_law :
      (limit : ℕ) (work : Work A) → limit < work.took → timeout limit work ≡ timed_out

-- The default of `REQUEST_TIMEOUT`.
abbrev pub default_timeout : ℕ
default_timeout = 5000

-- The function that is given to `catchError`.
abbrev pub caught : {A : Type 0} → Emission A → Result A
caught (emitted a) = ok a
caught (failed_with e) = err e
caught timed_out = err (request_timeout "Request timed out")

-- `TimeoutInterceptor.intercept`
unfoldable pub intercept_timeout : {A : Type 0} → TimeoutOperator A → ℕ → Work A → Result A
intercept_timeout operator limit work = caught (operator.timeout limit work)

-- What the client gets: the handler's own answer, or a filter's.
pub data Answered (A : Type 0) : Type 0 where
  by_handler : A → Answered A
  by_filter : Option Report → Answered A

module _ {A : Type 0} (errors : Errors) (req : Requested) (now : ℕ) (choice : FilterChoice) where
  abbrev pub answered_with : Result A → Answered A
  answered_with (ok a) = by_handler a
  answered_with (err e) = by_filter (report errors req now choice (error e))

  unfoldable pub around : TimeoutOperator A → ℕ → Work A → Answered A
  around operator limit work = answered_with (intercept_timeout operator limit work)
