-- ===== src/Auth/Health.antt =====
-- health/health.controller.ts and health/services/redis-health.service.ts, with `ping` of
-- cache/cache.service.ts. What Redis answers to a ping is an argument.
use msa_tuto_server.Base.{ℕ, String, Bool, false, ◌==◌, if◌then◌else◌}
use msa_tuto_server.Http.{Result, ok, err}

-- `CacheService.ping`
abbrev pub ping : Result String → Result Bool
ping (ok s) = ok (s == "PONG")
ping (err e) = err e

abbrev pub or_down : Result Bool → Bool
or_down (ok b) = b
or_down (err e) = false

-- `RedisHealthService.check`
unfoldable pub redis_health : Result String → Bool
redis_health pong = or_down (ping pong)

pub record HealthStatus : Type 0 where
  pub status : String
  pub timestamp : ℕ
  -- `services.redis`
  pub redis : String

-- `HealthController.check`
unfoldable pub check_health : Result String → (now : ℕ) → HealthStatus
unfolding redis_health
check_health pong now = record {
  status = "ok";
  timestamp = now;
  redis = if redis_health pong then "up" else "down";
}
