-- ===== src/Gateway/Statuses.antt =====
-- The statuses that clients of the gateway see when something is thrown or takes too long.
use msa_tuto_server.Base.{
  ℕ, ◌<◌, ◌≡◌, refl, sym, subst, ◌∙◌, true, false, Option, some, [], ◌∷◌, or_else,
}
use msa_tuto_server.Http.{
  Exception, bad_request, unauthorized, forbidden, not_found, conflict, request_timeout, internal,
  failure, Result, ok, err,
}
use msa_tuto_server.Http.Reports.{
  Thrown, error, other_value, is_http, documented_status, Errors, Requested, Report,
}
use msa_tuto_server.Gateway.Edge.{
  all_exceptions, http_exception, catches, registered_filters, FilterChoice, filter_report,
  with_status, catch_any, catch_http_exception, report, Work, TimeoutOperator, emission, caught,
  intercept_timeout, Answered, by_handler, by_filter, answered_with, around,
}

-- The report has this status, and names it in its body.
pub record HasStatus (status : ℕ) (r : Option Report) : Type 0 where
  pub sent : Report
  pub is_sent : r ≡ some sent
  pub status_sent : sent.status ≡ status
  pub status_named : sent.body.status_code ≡ status

-- The status that a thrown value is due.
abbrev pub due : Thrown → ℕ
due (error e) = or_else (documented_status e) 500
due other_value = 500

-- What comes of a handler's work under the limit.
pub data IsOutcome {A : Type 0} (limit : ℕ) (work : Work A) (r : Result A) : Type 0 where
  in_time : work.took < limit → r ≡ work.result → IsOutcome limit work r
  too_late :
      limit < work.took → r ≡ err (request_timeout "Request timed out") → IsOutcome limit work r

module _ (errors : Errors) (req : Requested) (now : ℕ) (choice : FilterChoice) where
  picks_http :
      (thrown : Thrown)
      → catches http_exception thrown ≡ true
      → choice.pick registered_filters thrown ≡ some http_exception
  picks_http thrown h =
      choice.pick_law (http_exception ∷ all_exceptions ∷ all_exceptions ∷ []) [] http_exception
        thrown h tt

  picks_all :
      (thrown : Thrown)
      → catches http_exception thrown ≡ false
      → choice.pick registered_filters thrown ≡ some all_exceptions
  picks_all thrown h =
      choice.pick_law (http_exception ∷ all_exceptions ∷ []) (http_exception ∷ []) all_exceptions
        thrown refl (h, tt)

  of_all : (thrown : Thrown) → HasStatus 500 (filter_report errors req now all_exceptions thrown)
  unfolding catch_any
  of_all (error e) = record { sent = _; is_sent = refl; status_sent = refl; status_named = refl }
  of_all other_value = record { sent = _; is_sent = refl; status_sent = refl; status_named = refl }

  of_http :
      (e : Exception) (status : ℕ)
      → documented_status e ≡ some status
      → HasStatus status (filter_report errors req now http_exception (error e))
  unfolding catch_http_exception
  of_http e status q =
      subst (λ o. HasStatus status (with_status errors req now e o))
        (sym (errors.get_status_law e ∙ q))
        (record {
          sent = catch_http_exception errors req now e status;
          is_sent = refl;
          status_sent = refl;
          status_named = refl;
        })

  by_http :
      (e : Exception) (status : ℕ)
      → is_http e ≡ true
      → documented_status e ≡ some status
      → HasStatus status (report errors req now choice (error e))
  unfolding report
  by_http e status h q = rw (picks_http (error e) h) (of_http e status q)

  by_all :
      (thrown : Thrown)
      → catches http_exception thrown ≡ false
      → HasStatus 500 (report errors req now choice thrown)
  unfolding report
  by_all thrown h = rw (picks_all thrown h) (of_all thrown)

  report-HasStatus :
      (thrown : Thrown) → HasStatus (due thrown) (report errors req now choice thrown)
  report-HasStatus other_value = by_all other_value refl
  report-HasStatus (error (failure m)) = by_all (error (failure m)) refl
  report-HasStatus (error (bad_request m)) = by_http (bad_request m) 400 refl refl
  report-HasStatus (error (unauthorized m)) = by_http (unauthorized m) 401 refl refl
  report-HasStatus (error (forbidden m)) = by_http (forbidden m) 403 refl refl
  report-HasStatus (error (not_found m)) = by_http (not_found m) 404 refl refl
  report-HasStatus (error (request_timeout m)) = by_http (request_timeout m) 408 refl refl
  report-HasStatus (error (conflict m)) = by_http (conflict m) 409 refl refl
  report-HasStatus (error (internal m)) = by_http (internal m) 500 refl refl

  -- What a result is answered with.
  abbrev pub IsDue : {A : Type 0} → Result A → Answered A → Type 0
  IsDue (ok a) sent = sent ≡ by_handler a
  IsDue (err e) sent =
      (r : Option Report) × (sent ≡ by_filter r) × HasStatus (or_else (documented_status e) 500) r

  module _ {A : Type 0} (operator : TimeoutOperator A) (limit : ℕ) (work : Work A) where
    answered-IsDue : (r : Result A) → IsDue r (answered_with errors req now choice r)
    answered-IsDue (ok a) = refl
    answered-IsDue (err e) = (_, refl, report-HasStatus (error e))

    caught-emission : (r : Result A) → caught (emission r) ≡ r
    caught-emission (ok a) = refl
    caught-emission (err e) = refl

    -- Around a handler of the gateway, the client gets what the outcome is due: the handler's answer, or
    -- a report with the status of the exception, 500 for one that is no HttpException, and the same
    -- status in its body. The outcome is the handler's own if it is faster than the limit, and an
    -- exception with the status 408 if it is slower, whatever comes of it.
    pub around-IsDue :
        (r : Result A)
        → IsOutcome limit work r
        → IsDue r (around errors req now choice operator limit work)
    unfolding around intercept_timeout
    around-IsDue r (in_time fast same) =
        subst (λ q. IsDue q (around errors req now choice operator limit work)) (sym same)
          (rw (operator.in_time_law limit work fast, caught-emission work.result)
            (answered-IsDue work.result))
    around-IsDue r (too_late slow same) =
        subst (λ q. IsDue q (around errors req now choice operator limit work)) (sym same)
          (rw (operator.too_late_law limit work slow)
            (_, refl, report-HasStatus (error (request_timeout "Request timed out"))))
