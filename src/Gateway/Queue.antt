-- ===== src/Gateway/Queue.antt =====
-- `handleMessageQueueRequest` of gateway/gateway.controller.ts and `emitEvent` of
-- common/rabbitMq/rabbitmq.service.ts. The client of RabbitMQ is a parameter, which takes a pattern
-- and a message, or throws.
use msa_tuto_server.Base.{ℕ, String, Bool, Option, none, some, ◌==◌, if◌then◌else◌}
use msa_tuto_server.Http.{Result, ok, err, M}
use msa_tuto_server.Access.{AuthUser}
use msa_tuto_server.Gateway.Headers.{Headers, header, extract_relevant_headers}

-- A request with a body of the type `B`; the parameters of its path and its query are left out.
pub record QueueRequest (B : Type 0) : Type 0 where
  pub method : String
  pub path : String
  pub body : B
  pub user : Option AuthUser
  pub headers : Headers

-- The metadata that `emitEvent` puts beside the data, `{ messageId, timestamp, ...options }`: the
-- options of the one route that uses the queue are `{ persistent: true }`.
pub record EventMetadata : Type 0 where
  pub message_id : String
  pub timestamp : ℕ
  pub persistent : Bool

pub record QueueMessage (B : Type 0) : Type 0 where
  pub method : String
  pub path : String
  pub body : B
  pub user : Option AuthUser
  pub headers : Headers
  pub timestamp : ℕ
  pub metadata : EventMetadata

-- What the client of the gateway is answered.
pub data QueueAnswer : Type 0 where
  accepted : (request_id : String) → QueueAnswer
  refused : QueueAnswer

-- `correlationId || 'unknown'`
abbrev pub request_id_of : Option String → String
request_id_of none = "unknown"
request_id_of (some id) = if id == "" then "unknown" else id

module _ {B : Type 0} where
  unfoldable pub message_of :
      QueueRequest B → (now : ℕ) → (message_id : String) → Bool → QueueMessage B
  message_of req now message_id persistent = record {
    method = req.method;
    path = req.path;
    body = req.body;
    user = req.user;
    headers = extract_relevant_headers req.headers;
    timestamp = now;
    metadata = record { message_id = message_id; timestamp = now; persistent = persistent };
  }

module _ {B S : Type 0} where
  abbrev pub acknowledge : QueueRequest B → Result (Unit {0}) × S → QueueAnswer × S
  acknowledge req (ok u, s) = (accepted (request_id_of (header "x-correlation-id" req.headers)), s)
  acknowledge req (err e, s) = (refused, s)

  unfoldable pub handle_message_queue_request :
      (emit : String → QueueMessage B → M S (Unit {0}))
      → String
      → Bool
      → QueueRequest B
      → (now : ℕ) → (message_id : String) → S
      → QueueAnswer × S
  handle_message_queue_request emit pattern persistent req now message_id s =
      acknowledge req (emit pattern (message_of req now message_id persistent) s)
