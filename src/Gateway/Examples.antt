-- ===== src/Gateway/Examples.antt =====
-- The gateway at work: tests, and the theorems at concrete inputs.
use msa_tuto_server.Base.{String, ◌≡◌, refl, true, false, Option, none, some, List, [], ◌∷◌}
use msa_tuto_server.Access.{AuthUser}
use msa_tuto_server.Gateway.Path.{codes, match_path}
use msa_tuto_server.Gateway.Routes.{ProxyRouteConfig, all_routes}
use msa_tuto_server.Gateway.Service.{RouteResult, result_of, get_route_config_for_path, sort_routes}
use msa_tuto_server.Gateway.Controller.{
  Request, unauthorized, forbidden, handle_request, authorize, with_match,
}
use msa_tuto_server.Gateway.Authorization.{is_forwarded, IsAuthorized, handle_request-IsAuthorized}
use msa_tuto_server.Gateway.Selection.{Choice, get_route_config_for_path-Choice}
use msa_tuto_server.Gateway.WrongMethod.{handle_request-wrong_method}

match_path_tests :
    (match_path (codes "users/:id/roles") (codes "users/7/roles")
      ≡ some ((codes "id", some (codes "7")) ∷ []))
    × (match_path (codes "users/:id/roles") (codes "users/7/8/roles") ≡ none)
    × (match_path (codes "events/:id") (codes "events/") ≡ none)
    × (match_path (codes "events") (codes "events") ≡ some [])
unfolding match_path
match_path_tests = (refl, refl, refl, refl)

abbrev routes : List ProxyRouteConfig
routes = all_routes none none

abbrev a_user : String → Option AuthUser
a_user role = some (record { user_id = "u1"; email = some "ann@example.com"; roles = role ∷ [] })

abbrev request_of : String → String → Option AuthUser → Request
request_of method path user = record {
  method = method;
  path = codes path;
  params = [];
  user = user;
}

handle_request_no_user : handle_request routes (request_of "GET" "/users" none) ≡ unauthorized
unfolding handle_request get_route_config_for_path match_path sort_routes authorize
handle_request_no_user = refl

handle_request_wrong_role :
    handle_request routes (request_of "GET" "/users" (a_user "USER")) ≡ forbidden
unfolding handle_request get_route_config_for_path match_path sort_routes authorize
handle_request_wrong_role = refl

abbrev users_list : Request
users_list = request_of "GET" "/users" (a_user "ADMIN")

users_list_forwarded : is_forwarded (handle_request routes users_list) ≡ true
unfolding handle_request get_route_config_for_path match_path sort_routes authorize
users_list_forwarded = refl

handle_request-IsAuthorized_example :
    (found : RouteResult) × (get_route_config_for_path routes (codes "users") "GET" ≡ some found)
    × IsAuthorized found.route_config users_list.user
handle_request-IsAuthorized_example =
    handle_request-IsAuthorized routes users_list users_list_forwarded

abbrev log_in : ProxyRouteConfig
log_in = record {
  path = codes "auth/login";
  target_url = some "http://auth-service:4000";
  require_auth = false;
  roles = none;
  methods = "POST" ∷ [];
  permissions = none;
  use_message_queue = false;
  rabbitmq = none;
  method_not_allowed = false;
  allowed_methods = [];
}

log_in_found :
    get_route_config_for_path routes (codes "auth/login") "POST" ≡ some (result_of log_in)
unfolding get_route_config_for_path match_path sort_routes
log_in_found = refl

get_route_config_for_path-Choice_example :
    Choice routes (codes "auth/login") "POST" (result_of log_in)
get_route_config_for_path-Choice_example =
    get_route_config_for_path-Choice routes (codes "auth/login") "POST" (result_of log_in)
      log_in_found

handle_request-wrong_method_example :
    handle_request (log_in ∷ []) (request_of "DELETE" "/auth/login" none)
    ≡ authorize log_in (
        with_match
          (request_of "DELETE" "/auth/login" none)
          (match_path log_in.path (codes "auth/login")))
unfolding match_path
handle_request-wrong_method_example =
    handle_request-wrong_method (log_in ∷ []) (request_of "DELETE" "/auth/login" none) log_in []
      refl (refl, tt) refl
