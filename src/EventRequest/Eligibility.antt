-- ===== src/EventRequest/Eligibility.antt =====
-- services/request-eligibility.service.ts.
use msa_tuto_server.Base.{ℕ, String, Bool, false, not, Option, if◌then◌else◌, is_some}
use msa_tuto_server.Http.{Result, ok, err}
use msa_tuto_server.Mongo.{Collection}
use msa_tuto_server.Event.Model.{Event, is_active}
use msa_tuto_server.EventRequest.Model.{RewardRequest, RewardRequests, same_claim}
use msa_tuto_server.EventRequest.Condition.{validate_condition}
use msa_tuto_server.EventRequest.Service.{
  inactive_message, out_of_period_message, unmet_message, is_out_of_period, find_existing_request,
}

-- `{ eligible, reason? }`
pub data Eligibility : Type 0 where
  eligible : Eligibility
  ineligible : String → Eligibility

-- A failing query counts as no earlier request.
abbrev pub has_request : {S : Type 0} → Result (Option RewardRequest) × S → Bool
has_request (ok found, s) = is_some found
has_request (err e, s) = false

module _ (rc : Collection RewardRequest same_claim) where
  unfoldable pub check_eligibility : Option String → Event → ℕ → RewardRequests → Eligibility
  unfolding find_existing_request validate_condition
  check_eligibility user_id event now rs =
      if not (is_active event.status)
      then ineligible inactive_message
      else if is_out_of_period now event
      then ineligible out_of_period_message
      else if has_request (find_existing_request rc user_id event.id rs)
      then ineligible "이미 참여한 이벤트입니다."
      else if not (validate_condition user_id event.type event.condition)
      then ineligible unmet_message
      else eligible
