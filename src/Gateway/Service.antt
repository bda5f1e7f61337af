-- ===== src/Gateway/Service.antt =====
-- gateway/gateway.service.ts: the table of routes, longest path first, and the search for the route
-- of a request.
use msa_tuto_server.Base.{
  ℕ, suc, ◌-◌, String, ◌==◌, Bool, true, false, ◌&&◌, ◌||◌, Option, none, some, List, [], ◌∷◌, ◌++◌,
  map, filter, includes, is_some, leb, eqb, if◌then◌else◌,
}
use msa_tuto_server.Gateway.Path.{Text, is_slash, text_eq, codes, match_path}
use msa_tuto_server.Gateway.Routes.{ProxyRouteConfig}

abbrev pub size : Text → ℕ
size [] = 0
size (c ∷ s) = suc (size s)

-- `s.startsWith(p)`
abbrev pub starts_with : Text → Text → Bool
starts_with [] s = true
starts_with (c ∷ p) [] = false
starts_with (c ∷ p) (d ∷ s) = eqb c d && starts_with p s

-- `path.split('/')[0]`
abbrev pub first_segment : Text → Text
first_segment [] = []
first_segment (c ∷ s) = let rest = first_segment s in if is_slash c then [] else c ∷ rest

-- `toUpperCase` on ASCII
abbrev pub upper : ℕ → ℕ
upper c = if leb b'a' c && leb c b'z' then c - 32 else c

-- `resolveTargetUrl`; `env` reads the configuration.
unfoldable pub resolve_target_url : (Text → Option String) → ProxyRouteConfig → Option String
resolve_target_url env r = elim (env (map upper (first_segment r.path) ++ codes "_SERVICE_URL")) [
  | none ↦ r.target_url
  | some u ↦ if u == "" then r.target_url else some u
]

-- Sorting by `b.path.length - a.path.length`, which is stable.
unfoldable pub insert_route : ProxyRouteConfig → List ProxyRouteConfig → List ProxyRouteConfig
insert_route r [] = r ∷ []
insert_route r (q ∷ qs) =
    let later = insert_route r qs in
    if leb (size q.path) (size r.path) then r ∷ q ∷ qs else q ∷ later

unfoldable pub sort_routes : List ProxyRouteConfig → List ProxyRouteConfig
unfolding insert_route
sort_routes [] = []
sort_routes (r ∷ rs) = insert_route r (sort_routes rs)

abbrev pub with_target : (Text → Option String) → ProxyRouteConfig → ProxyRouteConfig
with_target env r = record r { target_url = resolve_target_url env r }

-- `setupRoutes`
unfoldable pub setup_routes : (Text → Option String) → List ProxyRouteConfig → List ProxyRouteConfig
unfolding sort_routes resolve_target_url
setup_routes env rs = sort_routes (map (with_target env) rs)

-- `path.startsWith('/') ? path.substring(1) : path`
abbrev pub strip_slash : Text → Text
strip_slash [] = []
strip_slash (c ∷ s) = if is_slash c then s else c ∷ s

pub record RouteResult : Type 0 where
  pub route_config : ProxyRouteConfig
  pub matched_pattern : Text

abbrev pub is_empty : List String → Bool
is_empty [] = true
is_empty (m ∷ ms) = false

-- `isMethodMatch`; the methods of the tables, and of a request, are in upper case already.
abbrev pub is_method_match : String → ProxyRouteConfig → Bool
is_method_match method r = is_empty r.methods || includes r.methods method

abbrev pub is_exact : Text → ProxyRouteConfig → Bool
is_exact path r = text_eq r.path path

abbrev pub is_pattern : Text → ProxyRouteConfig → Bool
is_pattern path r = is_some (match_path r.path path)

abbrev pub is_prefix : Text → ProxyRouteConfig → Bool
is_prefix path r = starts_with r.path path

abbrev pub all_methods : List ProxyRouteConfig → List String
all_methods [] = []
all_methods (r ∷ rs) = r.methods ++ all_methods rs

abbrev pub result_of : ProxyRouteConfig → RouteResult
result_of r = record { route_config = r; matched_pattern = r.path }

-- `exactMatches`
abbrev pub exact_matches : List ProxyRouteConfig → Text → String → List ProxyRouteConfig
exact_matches routes path method = filter (λ r. is_exact path r && is_method_match method r) routes

-- The routes at which the loop over the patterns would return.
abbrev pub pattern_matches : List ProxyRouteConfig → Text → String → List ProxyRouteConfig
pattern_matches routes path method =
    filter (λ r. is_method_match method r && is_pattern path r) routes

-- `prefixRoutes`, before they are sorted
abbrev pub prefix_routes : List ProxyRouteConfig → Text → String → List ProxyRouteConfig
prefix_routes routes path method = filter (λ r. is_prefix path r && is_method_match method r) routes

-- `pathMatches`
abbrev pub path_matches : List ProxyRouteConfig → Text → List ProxyRouteConfig
path_matches routes path = filter (λ r. is_exact path r || is_pattern path r) routes

-- The last search: the first route of the path, marked.
abbrev pub marked : List ProxyRouteConfig → Option RouteResult
marked [] = none
marked (r ∷ rs) = some (record {
  route_config = record r { method_not_allowed = true; allowed_methods = all_methods (r ∷ rs) };
  matched_pattern = r.path;
})

-- The first route of a search, or else what the later searches find.
abbrev pub first_or : List ProxyRouteConfig → Option RouteResult → Option RouteResult
first_or [] later = later
first_or (r ∷ rs) later = some (result_of r)

abbrev pub by_prefix : List ProxyRouteConfig → Text → String → Option RouteResult
by_prefix routes path method =
    first_or (sort_routes (prefix_routes routes path method)) (marked (path_matches routes path))

abbrev pub by_pattern : List ProxyRouteConfig → Text → String → Option RouteResult
by_pattern routes path method =
    first_or (pattern_matches routes path method) (by_prefix routes path method)

unfoldable pub get_route_config_for_path :
    List ProxyRouteConfig → Text → String → Option RouteResult
unfolding sort_routes
get_route_config_for_path routes path method =
    let normalized_path = strip_slash path in
    first_or (exact_matches routes normalized_path method)
      (by_pattern routes normalized_path method)
