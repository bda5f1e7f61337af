-- ===== src/Gateway/EdgeExamples.antt =====
-- The edge of the gateway at work: a choice of filters, a timeout and an auth server that meet their
-- laws, tests, and the theorems at concrete inputs.
use msa_tuto_server.Base.{
  ℕ, ◌<◌, String, ◌≡◌, refl, Bool, true, false, Option, none, some, List, [], ◌∷◌, ◌++◌, All, ◌==◌,
  ltb, if◌then◌else◌, arith,
}
use msa_tuto_server.Http.{Result, ok, err, request_timeout}
use msa_tuto_server.Http.Reports.{Thrown}
use msa_tuto_server.Http.PlainErrors.{plain_errors, get_rewards_request}
use msa_tuto_server.Gateway.Edge.{
  Filter, catches, FilterChoice, Work, Emission, timed_out, emission, TimeoutOperator,
  default_timeout, around,
}
use msa_tuto_server.Gateway.Statuses.{too_late, IsDue, around-IsDue}
use msa_tuto_server.Gateway.Health.{
  Indicator, heap, rss, storage, ping, all_up, is_success, Terminus, check, liveness, readiness,
}

abbrev or_this : Filter → Thrown → Option Filter → Option Filter
or_this f thrown (some g) = some g
or_this f thrown none = if catches f thrown then some f else none

abbrev last_catching : List Filter → Thrown → Option Filter
last_catching [] thrown = none
last_catching (f ∷ fs) thrown = or_this f thrown (last_catching fs thrown)

none_catching :
    (fs : List Filter) (thrown : Thrown)
    → All (λ g. catches g thrown ≡ false) fs
    → last_catching fs thrown ≡ none
none_catching [] thrown h = refl
none_catching (f ∷ fs) thrown h = rw (none_catching fs thrown h.1, h.0) refl

last_catching_lem :
    (before after : List Filter) (f : Filter) (thrown : Thrown)
    → catches f thrown ≡ true
    → All (λ g. catches g thrown ≡ false) after
    → last_catching (before ++ f ∷ after) thrown ≡ some f
last_catching_lem [] after f thrown c h = rw (none_catching after thrown h, c) refl
last_catching_lem (g ∷ gs) after f thrown c h = rw (last_catching_lem gs after f thrown c h) refl

abbrev choice : FilterChoice
choice = record {
  pick = last_catching;
  pick_law = λ before after f thrown c h. last_catching_lem before after f thrown c h;
}

abbrev cut_off : ℕ → Work String → Emission String
cut_off limit work = if ltb work.took limit then emission work.result else timed_out

cut_off_in_time :
    (limit : ℕ) (work : Work String) → work.took < limit → cut_off limit work ≡ emission work.result
cut_off_in_time limit work h = ground arith

cut_off_too_late :
    (limit : ℕ) (work : Work String) → limit < work.took → cut_off limit work ≡ timed_out
cut_off_too_late limit work h = ground arith

abbrev operator : TimeoutOperator String
operator = record {
  timeout = cut_off;
  in_time_law = λ limit work h. cut_off_in_time limit work h;
  too_late_law = λ limit work h. cut_off_too_late limit work h;
}

abbrev slow : Work String
slow = record { took = 6000; result = ok "late" }

abbrev cut : Result String
cut = err (request_timeout "Request timed out")

around-IsDue_example :
    IsDue plain_errors get_rewards_request 7 choice cut
      (around plain_errors get_rewards_request 7 choice operator default_timeout slow)
around-IsDue_example =
    around-IsDue plain_errors get_rewards_request 7 choice operator default_timeout slow cut
      (too_late (omega arith) refl)

abbrev auth_url : String
auth_url = "http://auth"

abbrev get : String → ℕ
get url = if url == "http://auth/health" then 200 else 404

abbrev is_up : Indicator → Bool
is_up (heap name limit) = true
is_up (rss name limit) = true
is_up (storage name path threshold) = true
is_up (ping name url) = is_success (get url)

abbrev terminus : Terminus
terminus = record {
  get = get;
  up = is_up;
  ping_law = λ name url. refl;
  check = λ l. if all_up is_up l then 200 else 503;
  check_law = λ l. refl;
}

-- Its auth server answers no path but its health check with success.
readiness_down : readiness terminus auth_url ≡ 503
unfolding readiness
readiness_down = refl

check_healthy : check terminus auth_url ≡ 200
unfolding check
check_healthy = refl

liveness_up : liveness terminus auth_url ≡ 200
unfolding liveness
liveness_up = refl
