-- ===== src/Gateway/Health.antt =====
-- health/health.controller.ts of the gateway, and what its checks find of the auth server. Terminus,
-- whose indicators the controller names, and the network are parameters.
use msa_tuto_server.Base.{
  ℕ, ◌*◌, String, ◌≡◌, Bool, true, ◌&&◌, List, [], ◌∷◌, ltb, leb, if◌then◌else◌, template,
}

pub data Indicator : Type 0 where
  -- bytes
  heap rss : (name : String) → (limit : ℕ) → Indicator
  -- a share in hundredths
  storage : (name path : String) → (threshold : ℕ) → Indicator
  ping : (name url : String) → Indicator

module _ (auth_service_url : String) where
  -- `check`
  abbrev pub check_indicators : List Indicator
  check_indicators =
      heap "memory_heap" (150 * 1024 * 1024)
      ∷ rss "memory_rss" (300 * 1024 * 1024)
      ∷ storage "disk" "/" 90
      ∷ ping "auth-service" (template (auth_service_url ∷ "/health" ∷ []))
      ∷ []

  -- `readiness`
  abbrev pub readiness_indicators : List Indicator
  readiness_indicators =
      ping "auth-service" (template (auth_service_url ∷ "/health/liveness" ∷ [])) ∷ []

-- `liveness`
abbrev pub liveness_indicators : List Indicator
liveness_indicators = []

abbrev pub all_up : (Indicator → Bool) → List Indicator → Bool
all_up up [] = true
all_up up (i ∷ is) = up i && all_up up is

abbrev pub is_success : ℕ → Bool
is_success status = leb 200 status && ltb status 300

-- Terminus: an indicator is up or not, and `health.check` answers 200 if all are up, and 503 if not. A
-- ping is up if a GET of the URL is answered with a status of success.
pub record Terminus : Type 0 where
  pub get : String → ℕ
  pub up : Indicator → Bool
  pub ping_law : (name url : String) → up (ping name url) ≡ is_success (get url)
  pub check : List Indicator → ℕ
  pub check_law : (l : List Indicator) → check l ≡ (if all_up up l then 200 else 503)

module _ (terminus : Terminus) (auth_service_url : String) where
  unfoldable pub check : ℕ
  check = terminus.check (check_indicators auth_service_url)

  unfoldable pub liveness : ℕ
  liveness = terminus.check liveness_indicators

  unfoldable pub readiness : ℕ
  readiness = terminus.check (readiness_indicators auth_service_url)
