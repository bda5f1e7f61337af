-- ===== src/EventRequest/Examples.antt =====
-- Reward requests at work: tests, and the theorems at concrete inputs.
use msa_tuto_server.Base.{
  false, String, ◌≡◌, ◌≢◌, refl, Option, true, none, some, [], ◌∷◌, Bool-cases,
}
use msa_tuto_server.Http.{Result, ok, err, bad_request, failure}
use msa_tuto_server.Mongo.{Collection}
use msa_tuto_server.Mongo.Memory.{memory}
use msa_tuto_server.Access.{AuthUser}
use msa_tuto_server.Event.Query.{find_one}
use msa_tuto_server.Event.Examples.{store, summer, two_events, date}
use msa_tuto_server.EventRequest.Model.{
  pos, negsuc, number, text, approved, Metadata, RewardRequest, same_claim, CreateRewardRequestDto,
  RewardRequestFilterDto,
}
use msa_tuto_server.EventRequest.Condition.{
  validate_condition, get_strategy, friend_invitation_validate,
}
use msa_tuto_server.EventRequest.Service.{
  Store, new_request, claim, attempt, find_existing_request, request_reward,
  create_event_reward_request, duplicate_message,
}
use msa_tuto_server.EventRequest.Listing.{request_filter, find_all}
use msa_tuto_server.EventRequest.Eligibility.{eligible, check_eligibility}
use msa_tuto_server.EventRequest.Controller.{get_eligibility, get_my_requests, get_all_requests}
use msa_tuto_server.EventRequest.Claims.{IsGranted, create_event_reward_request-IsGranted}
use msa_tuto_server.EventRequest.Agreement.{eligible-approved, approved-eligible}
use msa_tuto_server.EventRequest.UserIds.{get_eligibility_forgets, get_my_requests_of_all}

abbrev pub claim_store : Collection RewardRequest same_claim
claim_store = memory same_claim

-- A Redis without keys.
abbrev pub no_keys : String → Result (Option String)
no_keys key = ok none

abbrev pub metadata : Metadata
metadata = record { message_id = some "m1" }

abbrev pub for_summer : CreateRewardRequestDto
for_summer = record { event_id = "e1"; metadata = some metadata }

abbrev pub fresh : Store
fresh = record { events = two_events; requests = [] }

abbrev pub granted : RewardRequest
granted = record {
  user_id = "u1";
  event_id = "e1";
  status = approved;
  reason = none;
  metadata = metadata;
  processed_at = 150;
  processed_by = "system";
  created_at = 150;
}

abbrev claimed_store : Store
claimed_store = record { events = two_events; requests = granted ∷ [] }

create_grants :
    create_event_reward_request store claim_store no_keys "u1" for_summer 150 fresh
    ≡ (ok granted, claimed_store)
unfolding create_event_reward_request request_reward attempt claim find_existing_request find_one
    new_request memory Bool-cases get_strategy friend_invitation_validate
create_grants = refl

create_refuses_second :
    (create_event_reward_request store claim_store no_keys "u1" for_summer 160 claimed_store).0
    ≡ err (bad_request duplicate_message)
unfolding create_event_reward_request request_reward attempt claim find_existing_request find_one
    new_request memory Bool-cases
create_refuses_second = refl

create_event_reward_request-IsGranted_example :
    IsGranted "u1" for_summer 150 fresh granted claimed_store
create_event_reward_request-IsGranted_example =
    create_event_reward_request-IsGranted store claim_store no_keys "u1" for_summer 150 fresh
      claimed_store granted create_grants

pub told_eligible : check_eligibility claim_store (some "u1") summer 150 [] ≡ eligible
unfolding check_eligibility find_existing_request validate_condition get_strategy
    friend_invitation_validate memory Bool-cases
told_eligible = refl

abbrev ann : AuthUser
ann = record { user_id = "u1"; email = some "ann@example.com"; roles = "USER" ∷ [] }

told_by_endpoint : (get_eligibility store claim_store (some ann) "e1" 150 fresh).0 ≡ ok eligible
unfolding get_eligibility find_one check_eligibility find_existing_request validate_condition
    get_strategy friend_invitation_validate memory Bool-cases
told_by_endpoint = refl

pub summer_read : find_one store "e1" false fresh.events ≡ (ok summer, fresh.events)
unfolding find_one memory Bool-cases
summer_read = refl

pub summer_met : validate_condition (some "u1") summer.type summer.condition ≡ true
unfolding validate_condition get_strategy friend_invitation_validate
summer_met = refl

eligible-approved_example :
    ((create_event_reward_request store claim_store no_keys "u1" for_summer 150 fresh).0
      ≡ ok (new_request "u1" summer "e1" metadata 150))
    × ((new_request "u1" summer "e1" metadata 150).status ≡ approved)
unfolding memory
eligible-approved_example =
    eligible-approved store claim_store no_keys (some ann) "u1" summer metadata 150 fresh none
      (new_request "u1" summer "e1" metadata 150) summer_read told_by_endpoint refl refl refl

request_grants :
    request_reward claim_store no_keys "u1" "e1" metadata 150 summer fresh
    ≡ (ok granted, claimed_store)
unfolding request_reward attempt claim find_existing_request new_request memory Bool-cases
    get_strategy friend_invitation_validate
request_grants = refl

granted_grows : claimed_store.requests ≢ fresh.requests
granted_grows q = cc q

approved-eligible_example : check_eligibility claim_store (some "u1") summer 150 [] ≡ eligible
approved-eligible_example =
    approved-eligible claim_store no_keys "u1" summer metadata 150 fresh claimed_store granted
      request_grants refl granted_grows

abbrev caller : Option AuthUser
caller = some ann

get_eligibility_forgets_example :
    (get_eligibility store claim_store caller "e1" 150 claimed_store).0
    ≡ (get_eligibility store claim_store caller "e1" 150 fresh).0
get_eligibility_forgets_example =
    get_eligibility_forgets store claim_store caller "e1" 150 claimed_store []

abbrev no_filter : RewardRequestFilterDto
no_filter = record {
  user_id = none;
  event_id = none;
  status = none;
  start_date = none;
  end_date = none;
  page = none;
  limit = none;
  sort_by = none;
  sort_order = none;
}

-- A page before the first is refused, and so is a text that is no number.
before_first :
    find_all claim_store date
      (λ field r. r.created_at)
      (record no_filter { page = some (number (negsuc 0)) })
      (granted ∷ [])
    ≡ err (failure "BadValue: skip must be non-negative")
unfolding find_all
before_first = refl

-- The text "0" as a limit is no limit.
no_limit :
    find_all claim_store date
      (λ field r. r.created_at)
      (record no_filter { limit = some (text (some (pos 0))) })
      (granted ∷ [])
    ≡ ok (record { items = granted ∷ []; total = 1; page = pos 1; limit = pos 0; pages = none })
unfolding find_all request_filter memory
no_limit = refl

get_my_requests_of_all_example :
    get_my_requests claim_store date (λ field r. r.created_at) caller no_filter (granted ∷ [])
    ≡ get_all_requests claim_store date (λ field r. r.created_at) no_filter (granted ∷ [])
get_my_requests_of_all_example =
    get_my_requests_of_all claim_store date (λ field r. r.created_at) caller no_filter
      (granted ∷ [])
