-- ===== src/Gateway/QueueExamples.antt =====
-- A request on the queue: tests, and the theorems at concrete inputs.
use msa_tuto_server.Base.{String, ◌≡◌, ◌≢◌, refl, true, none, some, [], ◌∷◌, ◌++◌}
use msa_tuto_server.Http.{ok}
use msa_tuto_server.Access.{AuthUser}
use msa_tuto_server.Event.Examples.{store, summer}
use msa_tuto_server.Mongo.Memory.{memory}
use msa_tuto_server.EventRequest.Model.{CreateRewardRequestDto, approved}
use msa_tuto_server.EventRequest.Examples.{
  claim_store, no_keys, metadata, for_summer, fresh, summer_read, summer_met,
}
use msa_tuto_server.EventRequest.Service.{new_request}
use msa_tuto_server.EventRequest.Controller.{create_reward_request}
use msa_tuto_server.Gateway.Queue.{
  QueueRequest, QueueMessage, accepted, handle_message_queue_request,
}
use msa_tuto_server.Gateway.Delivery.{post, payload_of, reward_pattern, accepted_granted}
use msa_tuto_server.Gateway.Correlation.{
  queue_correlated, IsCorrelated, queue_correlated-IsCorrelated,
}

abbrev ann : AuthUser
ann = record { user_id = "u1"; email = some "ann@example.com"; roles = "USER" ∷ [] }

-- A request whose client gave an empty id.
abbrev asks : QueueRequest CreateRewardRequestDto
asks = record {
  method = "POST";
  path = "/event-requests";
  body = for_summer;
  user = some ann;
  headers = ("host", "gateway") ∷ ("x-correlation-id", "") ∷ [];
}

some_text : ◌≢◌ {A = String} "c1" ""
some_text q = cc q

queue_correlated-IsCorrelated_example :
    IsCorrelated asks "c1" "create_reward_request" "m1" true 140
      (queue_correlated post "create_reward_request" true "c1" asks 140 "m1" [])
queue_correlated-IsCorrelated_example =
    queue_correlated-IsCorrelated asks "c1" post "create_reward_request" "m1" true 140 [] _
      some_text refl

accepted_granted_example :
    (request_id : String) × (m : QueueMessage CreateRewardRequestDto)
    × (handle_message_queue_request post reward_pattern true asks 140 "m1" []
        ≡ (accepted request_id, [] ++ (reward_pattern, m) ∷ []))
    × ((create_reward_request store claim_store no_keys (payload_of m) 150 fresh).0
        ≡ ok (new_request "u1" summer "e1" metadata 150))
    × ((new_request "u1" summer "e1" metadata 150).status ≡ approved)
unfolding memory
accepted_granted_example =
    accepted_granted store claim_store no_keys asks ann "m1" true 140 150 [] fresh summer metadata
      none (new_request "u1" summer "e1" metadata 150) refl refl summer_read refl refl summer_met
      refl refl refl
