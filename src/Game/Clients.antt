-- ===== src/Game/Clients.antt =====
-- common/redis/redis.service.ts and common/rabbitMq/rabbitmq.service.ts of the game event server. The
-- clients of Redis and RabbitMQ are parameters. Of these methods the server itself calls `get`.
use msa_tuto_server.Base.{ℕ, zero, suc, String, ◌==◌, Bool, Option, none, some, if◌then◌else◌}
use msa_tuto_server.Http.{Result, M}

-- The client of Redis over its keys; `set` takes the lifetime `EX`, if there is one.
pub record RedisClient (K : Type 0) : Type 0 where
  pub get : String → K → Result (Option String)
  pub set : String → String → Option ℕ → M K (Unit {0})
  pub incr : String → M K ℕ
  pub expire : String → ℕ → M K Bool
  pub ttl : String → K → Result ℕ

-- `if (ttl)`: a lifetime of 0 counts as none.
abbrev pub lifetime : Option ℕ → Option ℕ
lifetime none = none
lifetime (some zero) = none
lifetime (some (suc n)) = some (suc n)

module _ {K : Type 0} (client : RedisClient K) where
  unfoldable pub redis_get : String → K → Result (Option String)
  redis_get key = client.get key

  unfoldable pub redis_set : String → String → Option ℕ → M K (Unit {0})
  redis_set key value ttl = client.set key value (lifetime ttl)

  unfoldable pub redis_incr : String → M K ℕ
  redis_incr key = client.incr key

  unfoldable pub redis_expire : String → ℕ → M K Bool
  redis_expire key ttl = client.expire key ttl

  unfoldable pub redis_ttl : String → K → Result ℕ
  redis_ttl key = client.ttl key

-- The options of an event as far as `emitEvent` reads them; the others go along in `rest`.
pub record EventOptions (R : Type 0) : Type 0 where
  pub message_id : Option String
  pub rest : R

-- `_metadata`
pub record Metadata (R : Type 0) : Type 0 where
  pub message_id : String
  pub timestamp : ℕ
  pub rest : R

-- `{ ...data, _metadata }`
pub record Emitted (D R : Type 0) : Type 0 where
  pub payload : D
  pub metadata : Metadata R

-- `options.messageId || uuidv4()`
abbrev pub id_or : Option String → String → String
id_or none uuid = uuid
id_or (some id) uuid = if id == "" then uuid else id

-- The id among the options, spread last, takes the place of the other.
abbrev pub spread_id : Option String → String → String
spread_id none id = id
spread_id (some given) id = given

module _ {D R S : Type 0} where
  -- `emitEvent`; what the client throws is thrown again.
  unfoldable pub emit_event :
      (emit : String → Emitted D R → M S (Unit {0}))
      → String
      → D
      → EventOptions R
      → (uuid : String) → (now : ℕ) → M S (Unit {0})
  emit_event emit pattern payload options uuid now = emit pattern (record {
    payload = payload;
    metadata = record {
      message_id = spread_id options.message_id (id_or options.message_id uuid);
      timestamp = now;
      rest = options.rest;
    };
  })
