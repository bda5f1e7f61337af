-- ===== src/Gateway/WrongMethod.antt =====
-- A request for a path of the table by a method that no route of it takes.
use msa_tuto_server.Base.{String, ◌≡◌, false, ◌&&◌, List, ◌∷◌, arith, All, All-mono}
use msa_tuto_server.Gateway.Path.{Text, codes, match_path}
use msa_tuto_server.Gateway.Routes.{ProxyRouteConfig}
use msa_tuto_server.Gateway.Service.{
  starts_with, get_route_config_for_path, is_method_match, is_exact, is_pattern, is_prefix, marked,
  strip_slash, path_matches,
}
use msa_tuto_server.Gateway.Controller.{Request, authorize, with_match, handle_request, drop_first}
use msa_tuto_server.Gateway.Selection.{serves, nil-filter}

module _ (path : Text) (method : String) where
  not_exact :
      (r : ProxyRouteConfig)
      → serves path method r ≡ false
      → (is_exact path r && is_method_match method r) ≡ false
  not_exact r h = ground arith

  not_pattern :
      (r : ProxyRouteConfig)
      → serves path method r ≡ false
      → (is_method_match method r && is_pattern path r) ≡ false
  not_pattern r h = ground arith

  not_prefix :
      (r : ProxyRouteConfig)
      → serves path method r ≡ false
      → (is_prefix path r && is_method_match method r) ≡ false
  not_prefix r h = ground arith

get_route-marked :
    (routes : List ProxyRouteConfig) (path : Text) (method : String)
    → All (λ r. serves (strip_slash path) method r ≡ false) routes
    → get_route_config_for_path routes path method ≡ marked (path_matches routes (strip_slash path))
unfolding get_route_config_for_path
get_route-marked routes path method h =
    let q = strip_slash path in
    rw (
      nil-filter (λ r. is_exact q r && is_method_match method r) routes
          (All-mono (not_exact q method) routes h),
      nil-filter (λ r. is_method_match method r && is_pattern q r) routes
          (All-mono (not_pattern q method) routes h),
      nil-filter (λ r. is_prefix q r && is_method_match method r) routes
          (All-mono (not_prefix q method) routes h),
    )

-- A request outside the health checks whose path has routes in the table, but whose method none of
-- the table's routes serves, gets what the first route of its path gives: it is forwarded if its user
-- meets that route's demands, as if the mark of the wrong method were not there.
pub handle_request-wrong_method :
    (routes : List ProxyRouteConfig) (req : Request) (r : ProxyRouteConfig)
    (rs : List ProxyRouteConfig)
    → starts_with (codes "/health") req.path ≡ false
    → All (λ q. serves (strip_slash (drop_first req.path)) req.method q ≡ false) routes
    → path_matches routes (strip_slash (drop_first req.path)) ≡ r ∷ rs
    → handle_request routes req
      ≡ authorize r (with_match req (match_path r.path (drop_first req.path)))
unfolding handle_request
handle_request-wrong_method routes req r rs health none_serves first =
    rw (health, get_route-marked routes (drop_first req.path) req.method none_serves, first)
