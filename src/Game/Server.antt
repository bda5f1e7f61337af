-- ===== src/Game/Server.antt =====
-- What the game event server does with a request, its guards included, and with a message from the
-- queue: event.controller.ts, reward.controller.ts, event-request-http.controller.ts and
-- event-reward-request.controller.ts over their three collections.
use msa_tuto_server.Base.{ℕ, String, Bool, true, false, Option, none, some, List, [], ◌∷◌}
use msa_tuto_server.Http.{Result, M, pure, ◌>>=◌}
use msa_tuto_server.Mongo.{Collection}
use msa_tuto_server.Access.{AuthUser, guarded}
use msa_tuto_server.Event.Model.{
  Event, CreateEventDto, UpdateEventDto, EventFilterDto, PaginatedResponseDto, Events, same_id,
}
use msa_tuto_server.Event.Query.{find_all, find_active_events}
use msa_tuto_server.Event.Controller.{UpdateAnswer, find_event, create_event, update_event}
use msa_tuto_server.Reward.Model.{Reward, CreateRewardDto, Rewards, Catalogue, same_reward}
use msa_tuto_server.Reward.Controller.{
  post_reward, get_all_rewards, get_reward_by_id, get_rewards_by_event_id,
}
use msa_tuto_server.EventRequest.Model.{
  RewardRequest, RewardRequests, same_claim, RewardRequestFilterDto,
}
use msa_tuto_server.EventRequest.Service.{Store}
use msa_tuto_server.EventRequest.Listing.{PaginatedRewardRequestsDto}
use msa_tuto_server.EventRequest.Eligibility.{Eligibility}
use msa_tuto_server.EventRequest.Controller.{
  RewardRequestPayload, EventEligibilityDto, create_reward_request, get_available_events,
  get_eligibility, get_my_requests, get_all_requests,
}

-- What the server stands on.
pub record World : Type 0 where
  pub event_collection : Collection Event same_id
  pub reward_collection : Collection Reward same_reward
  pub request_collection : Collection RewardRequest same_claim
  -- `find` of the rewards, without a sort
  pub find : (Reward → Bool) → Rewards → Result Rewards
  pub is_object_id : String → Bool
  pub date : String → ℕ
  -- the order in which the values of a field are sorted
  pub key : String → RewardRequest → ℕ

pub record Data : Type 0 where
  pub events : Events
  pub rewards : Rewards
  pub requests : RewardRequests

-- An action on some of the collections.
abbrev pub on_events : {A : Type 0} → M Events A → M Data A
on_events m s = let (r, es) = m s.events in (r, record s { events = es })

abbrev pub on_rewards : {A : Type 0} → M Rewards A → M Data A
on_rewards m s = let (r, rs) = m s.rewards in (r, record s { rewards = rs })

abbrev pub on_catalogue : {A : Type 0} → M Catalogue A → M Data A
on_catalogue m s =
    let (r, t) = m (record { events = s.events; rewards = s.rewards }) in
    (r, record s { events = t.events; rewards = t.rewards })

abbrev pub on_claims : {A : Type 0} → M Store A → M Data A
on_claims m s =
    let (r, t) = m (record { events = s.events; requests = s.requests }) in
    (r, record s { events = t.events; requests = t.requests })

-- The new document of a request gets the ObjectId `id`.
pub data Ask : Type 0 where
  post_event : CreateEventDto → (id : String) → Ask
  get_events : EventFilterDto → Ask
  get_active : (page limit : Option ℕ) → Ask
  get_event : (id : String) → (include_deleted : Bool) → Ask
  put_event : (id : String) → UpdateEventDto → Ask
  add_reward : CreateRewardDto → (id : String) → Ask
  get_rewards : Ask
  get_reward : (id : String) → Ask
  get_rewards_of : (event_id : String) → Ask
  get_available : (page limit : Option ℕ) → Ask
  ask_eligibility : (event_id : String) → Ask
  get_history : RewardRequestFilterDto → Ask
  get_whole_history : RewardRequestFilterDto → Ask
  -- a message from the queue, with what Redis answers while it is handled
  message : RewardRequestPayload → (String → Result (Option String)) → Ask

pub record Exchange : Type 0 where
  -- what passport attaches to the request
  pub caller : Option AuthUser
  pub now : ℕ
  pub ask : Ask

pub data Reply : Type 0 where
  one_event : Event → Reply
  page_of_events : PaginatedResponseDto Event → Reply
  update_answer : UpdateAnswer → Reply
  one_reward : Reward → Reply
  all_rewards : Rewards → Reply
  page_of_eligibilities : PaginatedResponseDto EventEligibilityDto → Reply
  one_eligibility : Eligibility → Reply
  page_of_requests : PaginatedRewardRequestsDto → Reply
  one_request : RewardRequest → Reply

abbrev pub staff_roles : Option (List String)
staff_roles = some ("OPERATOR" ∷ "ADMIN" ∷ [])

abbrev pub user_role : Option (List String)
user_role = some ("USER" ∷ [])

abbrev pub audit_roles : Option (List String)
audit_roles = some ("OPERATOR" ∷ "AUDITOR" ∷ "ADMIN" ∷ [])

module _ {S A : Type 0} where
  -- The reply made of what a handler returned.
  abbrev pub reply : (A → Reply) → M S A → M S Reply
  reply f m = m >>= λ a. pure (f a)

module _ (world : World) (caller : Option AuthUser) (now : ℕ) where
  unfoldable pub answer : Ask → M Data Reply
  answer (post_event dto id) = guarded false staff_roles caller (
      reply one_event
        (on_events (create_event world.event_collection world.date caller dto id now)))
  answer (get_events filter) =
      guarded false staff_roles caller
        (λ s. pure (page_of_events (find_all world.event_collection world.date filter s.events)) s)
  answer (get_active page limit) =
      guarded true none caller (λ s.
        pure (page_of_events (find_active_events world.event_collection page limit s.events)) s)
  answer (get_event id include_deleted) =
      guarded true none caller
        (reply one_event (on_events (find_event world.event_collection id include_deleted)))
  answer (put_event id dto) = guarded false staff_roles caller (
      reply update_answer
        (on_events (update_event world.event_collection world.date caller id dto)))
  answer (add_reward dto id) = guarded false staff_roles caller (
      reply one_reward (
        on_catalogue (
          post_reward world.is_object_id world.event_collection world.reward_collection caller dto
            id now)))
  answer get_rewards =
      guarded false none caller (
        reply all_rewards (on_rewards (get_all_rewards world.is_object_id world.reward_collection)))
  answer (get_reward id) = guarded false none caller (
      reply one_reward
        (on_rewards (get_reward_by_id world.is_object_id world.reward_collection id)))
  answer (get_rewards_of event_id) = guarded false none caller (
      reply all_rewards
        (on_rewards (get_rewards_by_event_id world.is_object_id world.find event_id)))
  answer (get_available page limit) = guarded false user_role caller (λ s.
      pure
        (page_of_eligibilities (
          get_available_events world.event_collection world.request_collection caller page limit now
            (record { events = s.events; requests = s.requests })))
        s)
  answer (ask_eligibility event_id) = guarded false user_role caller (
      reply one_eligibility (
        on_claims
          (get_eligibility world.event_collection world.request_collection caller event_id now)))
  answer (get_history filter) = guarded false user_role caller (
      reply page_of_requests (λ s. (
        get_my_requests world.request_collection world.date world.key caller filter s.requests,
        s,
      )))
  answer (get_whole_history filter) = guarded false audit_roles caller (
      reply page_of_requests (λ s.
        (get_all_requests world.request_collection world.date world.key filter s.requests, s)))
  answer (message payload redis_get) = reply one_request (
      on_claims (
        create_reward_request world.event_collection world.request_collection redis_get payload
          now))

module _ (world : World) where
  -- The data after requests in a row, whatever was answered.
  unfoldable pub serve_all : List Exchange → Data → Data
  serve_all [] s = s
  serve_all (x ∷ xs) s = serve_all xs (answer world x.caller x.now x.ask s).1
