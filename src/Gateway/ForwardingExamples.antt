-- ===== src/Gateway/ForwardingExamples.antt =====
-- Requests on their way through the gateway: tests, and the theorems at concrete inputs.
use msa_tuto_server.Base.{
  any, not, ◌&&◌, is_some, false, String, ◌≡◌, refl, true, ◌⊎◌, Option, none, some, List, [], ◌∷◌,
}
use msa_tuto_server.Http.{Result, ok, err}
use msa_tuto_server.Access.{AuthUser}
use msa_tuto_server.EventRequest.Model.{CreateRewardRequestDto}
use msa_tuto_server.EventRequest.Service.{Store}
use msa_tuto_server.Auth.TokenExamples.{jwt}
use msa_tuto_server.Auth.PassportMemory.{bearer_passport}
use msa_tuto_server.Auth.Guards.{handle_answer, auth_token}
use msa_tuto_server.Gateway.Path.{Text, codes, match_path}
use msa_tuto_server.Gateway.Routes.{ProxyRouteConfig, all_routes}
use msa_tuto_server.Gateway.Service.{setup_routes, sort_routes, get_route_config_for_path}
use msa_tuto_server.Gateway.Roles.{roles_guard}
use msa_tuto_server.Gateway.Controller.{Outcome, handle_request, authorize}
use msa_tuto_server.Gateway.Authorization.{is_forwarded}
use msa_tuto_server.Gateway.Headers.{
  Headers, header, proxy_headers, extract_relevant_headers, fix_authorization,
}
use msa_tuto_server.Gateway.Proxy.{
  ProxyCall, AxiosResult, thrown, with_code, proxy_request, handle_proxy_error,
}
use msa_tuto_server.Gateway.Queue.{QueueRequest}
use msa_tuto_server.Gateway.Guards.{gateway_guard, receive}
use msa_tuto_server.Gateway.Anonymous.{table, IsVerified, receive-IsVerified}
use msa_tuto_server.Gateway.Nodes.{is_simple}
use msa_tuto_server.Gateway.Segments.{segments, segments_match}
use msa_tuto_server.Gateway.Matching.{beginning, is_well_formed, match_path-segments_match}

abbrev sent_headers : Headers
sent_headers = ("host", "gateway") ∷ ("authorization", "t1") ∷ ("accept", "*/*") ∷ []

sent : proxy_headers sent_headers ≡ ("authorization", "Bearer t1") ∷ ("accept", "*/*") ∷ []
unfolding proxy_headers extract_relevant_headers fix_authorization
sent = refl

scheme_sent : header "authorization" (proxy_headers sent_headers) ≡ some "Bearer t1"
unfolding proxy_headers extract_relevant_headers fix_authorization
scheme_sent = refl

abbrev scheme_value : String
scheme_value = "Bearer t1"

-- A service that is down.
abbrev down : ProxyCall → AxiosResult
down call = thrown (with_code "ECONNREFUSED")

answered_down :
    (proxy_request down "get" (codes "http://auth:4000") (codes "/users") sent_headers none).status
    ≡ 503
unfolding proxy_request handle_proxy_error
answered_down = refl

-- A timeout of axios, which has the code ECONNABORTED, is answered as a bad gateway.
answered_timeout : (handle_proxy_error (with_code "ECONNABORTED")).status ≡ 502
unfolding handle_proxy_error
answered_timeout = refl

abbrev ann : AuthUser
ann = record { user_id = "u1"; email = none; roles = "USER" ∷ [] }

abbrev bare : QueueRequest CreateRewardRequestDto
bare = record {
  method = "post";
  path = "/event-requests/rewards";
  body = record { event_id = "e1"; metadata = none };
  user = some ann;
  headers = ("x-correlation-id", "c1") ∷ [];
}

abbrev no_data : Store
no_data = record { events = []; requests = [] }

abbrev no_env : Text → Option String
no_env name = none

abbrev routes : List ProxyRouteConfig
routes = table no_env none none

abbrev active_result : Result Outcome
active_result =
    receive jwt (bearer_passport jwt) routes 50000 "GET" (codes "/events/active") (some "Bearer t1")

abbrev outcome_of : Result Outcome → Outcome
outcome_of (ok o) = o
outcome_of (err e) = Outcome.passed

active_ok : active_result ≡ ok (outcome_of active_result)
unfolding receive gateway_guard handle_answer auth_token roles_guard
active_ok = refl

active_forwarded : is_forwarded (outcome_of active_result) ≡ true
unfolding receive gateway_guard handle_answer auth_token roles_guard handle_request setup_routes
    sort_routes get_route_config_for_path match_path authorize
active_forwarded = refl

receive-IsVerified_example :
    ((codes "/events/active" ≡ codes "/auth/login")
      ⊎ (codes "/events/active" ≡ codes "/auth/register"))
    ⊎ IsVerified jwt
        (bearer_passport jwt)
        routes
        50000
        "GET"
        (codes "/events/active")
        (some "Bearer t1")
receive-IsVerified_example =
    receive-IsVerified jwt (bearer_passport jwt) no_env none none 50000 "GET"
      (codes "/events/active") (some "Bearer t1") (outcome_of active_result) active_ok
      active_forwarded

-- The patterns of the tables are simple and well formed.
table_proper :
    any (λ r. not (is_simple r.path && is_well_formed beginning r.path)) (all_routes none none)
    ≡ false
table_proper = refl

match_path-segments_match_example :
    is_some (match_path (codes "users/:id/roles") (codes "users/7/roles"))
    ≡ segments_match (segments (codes "users/:id/roles")) (segments (codes "users/7/roles"))
match_path-segments_match_example =
    match_path-segments_match (codes "users/:id/roles") (codes "users/7/roles") refl refl
