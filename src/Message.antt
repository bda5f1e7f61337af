-- ===== src/Message.antt =====
-- common/interceptors/message.interceptor.ts of the game event server: what is done on the channel
-- once a message was handled. The promises are not awaited by the handler; their calls on the
-- channel stand here in order. Whether a call throws is the argument `Channel`. What the broker does
-- with the calls is not modelled: it closes the channel at a second settlement of one delivery.
pub mod Settlement
mod Examples
use msa_tuto_server.Base.{
  ℕ, zero, suc, ◌+◌, ◌*◌, String, Bool, true, false, Option, none, some, List, [], ◌∷◌, ◌++◌, ltb,
  if◌then◌else◌, or_else,
}
use msa_tuto_server.Http.{Exception, Result, ok, err}

-- The settings, with the defaults of the constructor in `default_config`.
pub record Config : Type 0 where
  pub no_ack : Bool
  pub max_retries : ℕ
  pub retry_delay : ℕ

abbrev pub default_config : Config
default_config = record { no_ack = false; max_retries = 3; retry_delay = 1000 }

-- The headers that the interceptor reads or writes; the others are copied.
pub record Headers : Type 0 where
  pub retry_count : Option ℕ
  pub original_exchange : Option String
  pub original_routing_key : Option String

pub record Message : Type 0 where
  pub message_id : Option String
  pub headers : Option Headers
  pub exchange : String
  pub routing_key : String
  pub content : String

-- Calls on the channel, and the delays between them.
pub data Action : Type 0 where
  ack : Message → Action
  reject : Message → Bool → Action
  wait : ℕ → Action
  publish : String → Message → Action

-- Which of the calls of one interceptor go through: the n-th `ack`, `reject` and `publish`.
pub record Channel : Type 0 where
  pub ack_works : ℕ → Bool
  pub reject_works : Bool
  pub publish_works : Bool

-- `headers?.['x-retry-count'] || 0`
unfoldable pub retry_count_of : Message → ℕ
retry_count_of m = elim m.headers [ none ↦ 0 | some h ↦ or_else h.retry_count 0 ]

-- `acknowledgeMessage`, after `calls` earlier attempts; the flag tells whether it resolved.
unfoldable pub acknowledge_message : Config → Channel → Message → ℕ → ℕ → List Action × Bool
acknowledge_message config channel m calls zero =
    if channel.ack_works calls then (ack m ∷ [], true) else ([], false)
acknowledge_message config channel m calls (suc retries) =
    let (later, done) = acknowledge_message config channel m (suc calls) retries in
    if channel.ack_works calls then (ack m ∷ [], true) else (wait config.retry_delay ∷ later, done)

-- The message that is published again: default exchange, same queue, counted headers.
unfoldable pub retried : Message → ℕ → Message
retried m retry_count = record m {
  headers = some (record {
    retry_count = some retry_count;
    original_exchange = some m.exchange;
    original_routing_key = some m.routing_key;
  });
  exchange = "";
}

unfoldable pub retry_message : Config → Channel → Message → ℕ → List Action
retry_message config channel m retry_count =
    if channel.reject_works
    then reject m false
      ∷ wait (config.retry_delay * retry_count)
      ∷ (if channel.publish_works then publish m.routing_key (retried m retry_count) ∷ [] else [])
    else []

-- What one interceptor does after the handler's result; it hands the result on unchanged.
unfoldable pub settle : {A : Type 0} → Config → Channel → Message → Result A → List Action
unfolding retry_count_of retry_message
settle config channel m (ok a) =
    if config.no_ack then [] else (acknowledge_message config channel m 0 2).0
settle config channel m (err e) =
    if config.no_ack
    then []
    else if ltb (retry_count_of m) config.max_retries
    then retry_message config channel m (retry_count_of m + 1)
    else (acknowledge_message config channel m 0 2).0

-- `intercept`, for a context that is no HTTP request; for one it does nothing.
unfoldable pub intercept :
    {A : Type 0} → Bool → Config → Channel → Message → Result A → List Action × Result A
unfolding settle
intercept true config channel m r = ([], r)
intercept false config channel m r = (settle config channel m r, r)

-- Interceptors around one handler, the innermost first, each with what its own calls on the channel
-- come to: it acts after those inside it, and each sees the same result.
unfoldable pub intercept_all :
    {A : Type 0} → Config → List Channel → Message → Result A → List Action
intercept_all config [] m r = []
intercept_all config (channel ∷ channels) m r =
    (intercept false config channel m r).0 ++ intercept_all config channels m r

-- `MessageInterceptor` is registered for the whole application, which the microservice inherits, and
-- once more on the controller of the queue.
abbrev pub registered : ℕ
registered = 2
