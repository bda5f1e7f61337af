-- ===== src/EventRequest/Controller.antt =====
-- event-reward-request.controller.ts and http-controllers/event-request-http.controller.ts. The
-- guards stand before these handlers.
use msa_tuto_server.Base.{ℕ, String, false, Option, none, some, map}
use msa_tuto_server.Http.{failure, Result, ok, err, M, pure, throw, ◌>>=◌}
use msa_tuto_server.Mongo.{Collection}
use msa_tuto_server.Access.{AuthUser, user_property}
use msa_tuto_server.Event.Model.{Event, same_id, PaginatedResponseDto}
use msa_tuto_server.Event.Query.{find_one, find_active_events}
use msa_tuto_server.EventRequest.Model.{
  RewardRequest, RewardRequests, same_claim, Metadata, CreateRewardRequestDto,
  RewardRequestFilterDto,
}
use msa_tuto_server.EventRequest.Service.{Store, create_event_reward_request}
use msa_tuto_server.EventRequest.Listing.{PaginatedRewardRequestsDto, find_all, find_by_user_id}
use msa_tuto_server.EventRequest.Eligibility.{Eligibility, check_eligibility}

-- The message that the gateway emits for `create_reward_request`, as far as this handler declares it;
-- the gateway puts its metadata beside the body. A message may come without a user.
pub record RewardRequestPayload : Type 0 where
  pub user : Option AuthUser
  pub body : CreateRewardRequestDto
  pub metadata : Metadata

-- `{ event, eligible, reason? }`
pub record EventEligibilityDto : Type 0 where
  pub event : Event
  pub eligibility : Eligibility

-- `user.userId`
abbrev pub sender_id : Option AuthUser → M Store String
sender_id none = throw (failure "Cannot read properties of undefined (reading 'userId')")
sender_id (some user) = pure user.user_id

abbrev pub answered : Result Event → (Event → Eligibility) → M Store Eligibility
answered (ok event) f s = (ok (f event), s)
answered (err e) f s = (err e, s)

module _ (ec : Collection Event same_id) (rc : Collection RewardRequest same_claim) where
  unfoldable pub create_reward_request :
      (redis_get : String → Result (Option String))
      → RewardRequestPayload
      → ℕ
      → M Store RewardRequest
  create_reward_request redis_get payload now = do
    user_id ← sender_id payload.user
    create_event_reward_request ec rc redis_get user_id payload.body now

  -- The handlers below read the user's id by `@User('id')`.
  unfoldable pub get_available_events :
      Option AuthUser → Option ℕ → Option ℕ → ℕ → Store → PaginatedResponseDto EventEligibilityDto
  get_available_events user page limit now s =
      let active_events = find_active_events ec page limit s.events in
      record {
        items =
            map
              (λ e. record {
                event = e;
                eligibility = check_eligibility rc (user_property "id" user) e now s.requests;
              })
              active_events.items;
        total = active_events.total;
        page = active_events.page;
        limit = active_events.limit;
        pages = active_events.pages;
      }

  unfoldable pub get_eligibility : Option AuthUser → String → ℕ → M Store Eligibility
  get_eligibility user event_id now s =
      answered (find_one ec event_id false s.events).0
        (λ e. check_eligibility rc (user_property "id" user) e now s.requests) s

module _ (rc : Collection RewardRequest same_claim) (date : String → ℕ)
    (key : String → RewardRequest → ℕ) where
  unfoldable pub get_my_requests :
      Option AuthUser → RewardRequestFilterDto → RewardRequests → Result PaginatedRewardRequestsDto
  get_my_requests user filter = find_by_user_id rc date key (user_property "id" user) filter

  unfoldable pub get_all_requests :
      RewardRequestFilterDto → RewardRequests → Result PaginatedRewardRequestsDto
  get_all_requests filter = find_all rc date key filter
