-- ===== src/Gateway/Routes.antt =====
-- gateway/interfaces/proxy-route.interface.ts and the route tables of gateway/routes. The service
-- URLs come from the environment.
use msa_tuto_server.Base.{
  String, Bool, true, false, Option, none, some, List, [], ◌∷◌, ◌++◌, if◌then◌else◌, ◌==◌,
}
use msa_tuto_server.Gateway.Path.{Text, codes}

pub record ProxyRouteConfig : Type 0 where
  pub path : Text
  pub target_url : Option String
  pub require_auth : Bool
  pub roles : Option (List String)
  pub methods : List String
  pub permissions : Option (List String)
  pub use_message_queue : Bool
  -- the pattern under `rabbitmq`
  pub rabbitmq : Option String
  -- the mark that `getRouteConfigForPath` puts on a route of another method
  pub method_not_allowed : Bool
  pub allowed_methods : List String

-- A route as the tables write it, with what most of them leave out.
abbrev route : String → List String → Option String → Bool → Option (List String) → ProxyRouteConfig
route path methods target_url require_auth roles = record {
  path = codes path;
  target_url = target_url;
  require_auth = require_auth;
  roles = roles;
  methods = methods;
  permissions = none;
  use_message_queue = false;
  rabbitmq = none;
  method_not_allowed = false;
  allowed_methods = [];
}

-- `process.env.X || fallback`
abbrev or_default : Option String → String → Option String
or_default none d = some d
or_default (some u) d = if u == "" then some d else some u

abbrev auth_url : Option String → Option String
auth_url env = or_default env "http://auth-service:4000"

abbrev game_url : Option String → Option String
game_url env = or_default env "http://game-event-service:5000"

-- `authRoutes`, for `AUTH_SERVICE_URL`
abbrev pub auth_routes : Option String → List ProxyRouteConfig
auth_routes env =
    route "auth/register" ("POST" ∷ []) (auth_url env) false none
    ∷ route "auth/login" ("POST" ∷ []) (auth_url env) false none
    ∷ route "auth/refresh" ("POST" ∷ []) (auth_url env) true none
    ∷ route "auth/logout" ("POST" ∷ []) (auth_url env) true none
    ∷ []

abbrev user_only : Option (List String)
user_only = some ("USER" ∷ [])

abbrev staff : Option (List String)
staff = some ("OPERATOR" ∷ "ADMIN" ∷ [])

-- `gameEventRoutes`, for `GAME_EVENT_SERVICE_URL`
abbrev pub game_event_routes : Option String → List ProxyRouteConfig
game_event_routes env =
    route "event-requests/available-events" [] (game_url env) true user_only
    ∷ record (route "event-requests/rewards" [] env true user_only) {
      use_message_queue = true;
      rabbitmq = some "create_reward_request";
    }
    ∷ route "event-requests/eligibility/:eventId" [] (game_url env) true user_only
    ∷ route "event-requests/reward-requests/history" [] (game_url env) true user_only
    ∷ route "event-requests/reward-requests/history/all" [] (game_url env) true
        (some ("OPERATOR" ∷ "AUDITOR" ∷ "ADMIN" ∷ []))
    ∷ route "events" ("POST" ∷ "GET" ∷ []) (game_url env) true staff
    ∷ route "events/:id" ("GET" ∷ []) (game_url env) true none
    ∷ route "events/:id" ("PUT" ∷ []) (game_url env) true staff
    ∷ route "events/active" ("GET" ∷ []) (game_url env) true none
    ∷ route "rewards" ("GET" ∷ []) (game_url env) true none
    ∷ route "rewards" ("POST" ∷ []) (game_url env) true staff
    ∷ route "rewards/:id" ("GET" ∷ []) (game_url env) true none
    ∷ route "rewards/event/:eventId" ("GET" ∷ []) (game_url env) true none
    ∷ []

-- `userRoutes`
abbrev pub user_routes : Option String → List ProxyRouteConfig
user_routes env =
    route "users" ("GET" ∷ []) (auth_url env) true (some ("ADMIN" ∷ "AUDITOR" ∷ []))
    ∷ route "users/:id/roles" ("POST" ∷ []) (auth_url env) true (some ("ADMIN" ∷ []))
    ∷ route "users/:id/roles/:role" ("DELETE" ∷ []) (auth_url env) true (some ("ADMIN" ∷ []))
    ∷ []

abbrev pub all_routes : Option String → Option String → List ProxyRouteConfig
all_routes auth game = auth_routes auth ++ (game_event_routes game ++ user_routes auth)
