-- ===== src/Gateway/Delivery.antt =====
-- A reward request on its way from the gateway over the queue to the game event server.
use msa_tuto_server.Base.{
  ℕ, String, ◌≡◌, refl, Bool, true, false, Option, none, some, List, [], ◌∷◌, ◌++◌,
}
use msa_tuto_server.Http.{Result, ok, M}
use msa_tuto_server.Mongo.{Collection}
use msa_tuto_server.Access.{AuthUser}
use msa_tuto_server.Event.Model.{Event, same_id, is_active}
use msa_tuto_server.Event.Query.{find_one}
use msa_tuto_server.EventRequest.Model.{
  RewardRequest, same_claim, CreateRewardRequestDto, Metadata, approved,
}
use msa_tuto_server.EventRequest.Service.{Store, claims, idempotency_key, is_out_of_period}
use msa_tuto_server.EventRequest.Condition.{validate_condition}
use msa_tuto_server.EventRequest.Agreement.{request, create_event_reward_request-approves}
use msa_tuto_server.EventRequest.Controller.{RewardRequestPayload, create_reward_request}
use msa_tuto_server.Gateway.Queue.{
  QueueRequest, QueueMessage, accepted, message_of, handle_message_queue_request,
}

-- A queue that takes every message.
abbrev pub Mailbox : Type 0
Mailbox = List (String × QueueMessage CreateRewardRequestDto)

abbrev pub post : String → QueueMessage CreateRewardRequestDto → M Mailbox (Unit {0})
post pattern m box = (ok tt, box ++ (pattern, m) ∷ [])

-- The message as the handler of the game event server reads it.
abbrev pub payload_of : QueueMessage CreateRewardRequestDto → RewardRequestPayload
payload_of m = record {
  user = m.user;
  body = m.body;
  metadata = record { message_id = some m.metadata.message_id };
}

-- The pattern of that handler.
abbrev pub reward_pattern : String
reward_pattern = "create_reward_request"

module _ (ec : Collection Event same_id) (rc : Collection RewardRequest same_claim)
    (redis_get : String → Result (Option String)) where
  -- A user's request on the queue, by the pattern of the handler and with metadata in its body, is
  -- answered as accepted, and puts one message on the queue. If, when that message is handled, the
  -- event is there and open, the user meets its condition and has no earlier request for it, the game
  -- event server answers the message by the request that it saves, whose status is approved. Redis
  -- and the driver do not fail.
  pub accepted_granted :
      (req : QueueRequest CreateRewardRequestDto) (user : AuthUser) (message_id : String)
      (persistent : Bool) (sent handled : ℕ) (box : Mailbox) (s : Store) (event : Event)
      (metadata : Metadata) (x : Option String) (n : RewardRequest)
      → req.user ≡ some user
      → req.body ≡ record { event_id = event.id; metadata = some metadata }
      → find_one ec event.id false s.events ≡ (ok event, s.events)
      → is_active event.status ≡ true
      → is_out_of_period handled event ≡ false
      → validate_condition (some user.user_id) event.type event.condition ≡ true
      → redis_get (idempotency_key user.user_id event.id metadata.message_id) ≡ ok x
      → rc.find_one (claims (some user.user_id) event.id) s.requests ≡ ok none
      → (rc.save (request rc redis_get user.user_id event metadata handled s) s.requests).0 ≡ ok n
      → (request_id : String) × (m : QueueMessage CreateRewardRequestDto)
        × (handle_message_queue_request post reward_pattern persistent req sent message_id box
            ≡ (accepted request_id, box ++ (reward_pattern, m) ∷ []))
        × ((create_reward_request ec rc redis_get (payload_of m) handled s).0 ≡ ok n)
        × ((request rc redis_get user.user_id event metadata handled s).status ≡ approved)
  unfolding handle_message_queue_request message_of create_reward_request
  accepted_granted req user message_id persistent sent handled box s event metadata x n who named
        here active running met redis look saved =
      let (granted, status) =
        create_event_reward_request-approves rc redis_get user.user_id event metadata handled s ec x
          n here active running met redis look saved in
      (_, message_of req sent message_id persistent, refl, rw (who, named) granted, status)
