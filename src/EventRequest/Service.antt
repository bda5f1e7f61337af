-- ===== src/EventRequest/Service.antt =====
-- services/reward-request.service.ts. The store holds the two collections that the service reads and
-- writes; Redis is read only, so it is a function.
use msa_tuto_server.Base.{
  ℕ, String, Bool, false, ◌&&◌, ◌||◌, not, Option, none, some, [], ◌∷◌, ◌==◌, ltb, if◌then◌else◌,
  or_else, template,
}
use msa_tuto_server.Http.{
  Exception, bad_request, internal, failure, Result, M, pure, throw, lift, rethrow, ◌>>=◌,
}
use msa_tuto_server.Mongo.{Collection}
use msa_tuto_server.Event.Model.{Event, Events, same_id, is_active}
use msa_tuto_server.Event.Query.{find_one}
use msa_tuto_server.EventRequest.Model.{
  approved, failed, Metadata, RewardRequest, RewardRequests, same_claim, CreateRewardRequestDto,
}
use msa_tuto_server.EventRequest.Condition.{validate_condition}

pub record Store : Type 0 where
  pub events : Events
  pub requests : RewardRequests

-- An action on one of the collections.
abbrev pub on_events : {A : Type 0} → M Events A → M Store A
on_events m s = let (r, es) = m s.events in (r, record s { events = es })

abbrev pub on_requests : {A : Type 0} → M RewardRequests A → M Store A
on_requests m s = let (r, rs) = m s.requests in (r, record s { requests = rs })

abbrev pub inactive_message : String
inactive_message = "비활성화된 이벤트입니다."

abbrev pub out_of_period_message : String
out_of_period_message = "이벤트 기간이 아닙니다."

abbrev pub duplicate_message : String
duplicate_message = "이미 해당 이벤트에 대한 보상 요청이 존재합니다."

abbrev pub unmet_message : String
unmet_message = "이벤트 조건을 충족하지 못했습니다."

-- The catch clause of `createEventRewardRequest`.
abbrev pub only_bad_request : Exception → Exception
only_bad_request (bad_request m) = bad_request m
only_bad_request _ = internal "보상 요청 처리 중 오류가 발생했습니다."

-- `now < event.startDate || now > event.endDate`
abbrev pub is_out_of_period : ℕ → Event → Bool
is_out_of_period now event = ltb now event.start_date || ltb event.end_date now

-- `if (text)` for a text that may be null
abbrev pub is_truthy : Option String → Bool
is_truthy none = false
is_truthy (some s) = not (s == "")

-- A user id that is undefined matches no document.
abbrev pub claims : Option String → String → RewardRequest → Bool
claims none event_id r = false
claims (some user_id) event_id r = r.user_id == user_id && r.event_id == event_id

-- The key of a request in Redis; an undefined id prints as "undefined".
unfoldable pub idempotency_key : String → String → Option String → String
idempotency_key user_id event_id message_id = template (
    "reward-req:idempotency:"
    ∷ user_id
    ∷ ":"
    ∷ event_id
    ∷ ":"
    ∷ or_else message_id "undefined"
    ∷ [])

-- The document that `createEventRewardRequest` saves.
unfoldable pub new_request : String → Event → String → Metadata → ℕ → RewardRequest
unfolding validate_condition
new_request user_id event event_id metadata now =
    let is_condition_met = validate_condition (some user_id) event.type event.condition in
    record {
      user_id = user_id;
      event_id = event_id;
      status = if is_condition_met then approved else failed;
      reason = if is_condition_met then none else some unmet_message;
      metadata = metadata;
      processed_at = now;
      processed_by = "system";
      created_at = now;
    }

module _ (rc : Collection RewardRequest same_claim) where
  unfoldable pub find_existing_request :
      Option String → String → M RewardRequests (Option RewardRequest)
  find_existing_request user_id event_id rs = (rc.find_one (claims user_id event_id) rs, rs)

  -- From the second look-up on: refuse a duplicate, or save.
  unfoldable pub claim : String → Event → String → Metadata → ℕ → M RewardRequests RewardRequest
  unfolding find_existing_request
  claim user_id event event_id metadata now = do
    existing ← find_existing_request (some user_id) event_id
    elim existing [
      | none ↦ rc.save (new_request user_id event event_id metadata now)
      | some r ↦ throw (bad_request duplicate_message)
    ]

  -- The body of the `try`.
  unfoldable pub attempt :
      Result (Option String)
      → String
      → Event
      → String
      → Metadata
      → ℕ
      → M RewardRequests RewardRequest
  unfolding find_existing_request
  attempt cached user_id event event_id metadata now = do
    existing_request_id ← lift cached
    let claimed = claim user_id event event_id metadata now
    let replayed : M RewardRequests RewardRequest = do
      existing ← find_existing_request (some user_id) event_id
      elim existing [ none ↦ claimed | some r ↦ pure r ]
    if is_truthy existing_request_id then replayed else claimed

  -- The code after the event was found.
  unfoldable pub request_reward :
      (redis_get : String → Result (Option String))
      → String
      → String
      → Metadata
      → ℕ
      → Event
      → M Store RewardRequest
  request_reward redis_get user_id event_id metadata now event =
      if not (is_active event.status)
      then throw (bad_request inactive_message)
      else if is_out_of_period now event
      then throw (bad_request out_of_period_message)
      else on_requests λ rs. rethrow only_bad_request (
          attempt (redis_get (idempotency_key user_id event_id metadata.message_id)) user_id event
            event_id metadata now rs)

module _ (ec : Collection Event same_id) (rc : Collection RewardRequest same_claim) where
  -- `createEventRewardRequest`. Reading `messageId` of missing metadata throws before anything else.
  unfoldable pub create_event_reward_request :
      (redis_get : String → Result (Option String))
      → String
      → CreateRewardRequestDto
      → ℕ
      → M Store RewardRequest
  create_event_reward_request redis_get user_id dto now = elim dto.metadata [
    | none ↦ throw (failure "Cannot read properties of undefined (reading 'messageId')")
    | some metadata ↦ do
      event ← on_events (find_one ec dto.event_id false)
      request_reward rc redis_get user_id dto.event_id metadata now event
  ]
