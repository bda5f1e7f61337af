-- ===== src/Gateway/Reached.antt =====
-- The routes behind what the search gives, the marked one included.
use msa_tuto_server.Base.{
  String, ◌≡◌, refl, ◌∙◌, Bool, true, false, false≢true, ◌&&◌, ◌||◌, none, some, List, [], ◌∷◌, any,
  not, inl, inr, arith,
}
use msa_tuto_server.Gateway.Path.{Text}
use msa_tuto_server.Gateway.Routes.{ProxyRouteConfig}
use msa_tuto_server.Gateway.Service.{
  RouteResult, is_exact, is_pattern, is_prefix, is_method_match, exact_matches, pattern_matches,
  prefix_routes, path_matches, by_pattern, by_prefix, marked, strip_slash, sort_routes,
  get_route_config_for_path,
}
use msa_tuto_server.Gateway.Controller.{handle_request, drop_first}
use msa_tuto_server.Gateway.Authorization.{is_forwarded, handle_request-IsAuthorized}
use msa_tuto_server.Gateway.Selection.{Listed, Listed-of_filter, Listed-of_sort, first_or-cases}
use msa_tuto_server.Gateway.Guards.{request_of}

-- The path is the route's, meets its pattern, or goes on from it.
abbrev pub reaches : Text → ProxyRouteConfig → Bool
reaches path r = is_exact path r || (is_pattern path r || is_prefix path r)

-- The route that a search gave, or the one that it marked.
pub record Reached (routes : List ProxyRouteConfig) (path : Text) (config : ProxyRouteConfig)
    : Type 0 where
  pub route : ProxyRouteConfig
  pub listed : Listed route routes
  pub reached : reaches path route ≡ true
  pub same_auth : config.require_auth ≡ route.require_auth

module _ (routes : List ProxyRouteConfig) (path : Text) (method : String) where
  exact_reaches :
      (r : ProxyRouteConfig)
      → (is_exact path r && is_method_match method r) ≡ true
      → reaches path r ≡ true
  exact_reaches r h = ground arith

  pattern_reaches :
      (r : ProxyRouteConfig)
      → (is_method_match method r && is_pattern path r) ≡ true
      → reaches path r ≡ true
  pattern_reaches r h = ground arith

  prefix_reaches :
      (r : ProxyRouteConfig)
      → (is_prefix path r && is_method_match method r) ≡ true
      → reaches path r ≡ true
  prefix_reaches r h = ground arith

  path_reaches :
      (r : ProxyRouteConfig) → (is_exact path r || is_pattern path r) ≡ true → reaches path r ≡ true
  path_reaches r h = ground arith

  in_table :
      (r : ProxyRouteConfig) → Listed r routes → reaches path r ≡ true → Reached routes path r
  in_table r l h = record { route = r; listed = l; reached = h; same_auth = refl }

  marked-Reached :
      (l : List ProxyRouteConfig) (found : RouteResult)
      → ((r : ProxyRouteConfig) → Listed r l → Listed r routes × (reaches path r ≡ true))
      → marked l ≡ some found
      → Reached routes path found.route_config
  marked-Reached [] found h q = absurd (cc q)
  marked-Reached (r ∷ rs) found h q =
      let m = h r (inl refl) in record { route = r; listed = m.0; reached = m.1; same_auth = cc q }

module _ (routes : List ProxyRouteConfig) (path : Text) (method : String)
    (found : RouteResult) where
  found-Reached :
      get_route_config_for_path routes path method ≡ some found
      → Reached routes (strip_slash path) found.route_config
  unfolding get_route_config_for_path
  found-Reached h =
      let q = strip_slash path in
      elim (first_or-cases (exact_matches routes q method) (by_pattern routes q method) found h) [
        | inl exact ↦
            let m = Listed-of_filter _ _ routes exact.0 in
            in_table routes q method found.route_config m.0
              (exact_reaches routes q method found.route_config m.1)
        | inr (no_exact, h1) ↦
            elim (first_or-cases (pattern_matches routes q method) (by_prefix routes q method) found
              h1) [
                | inl pattern_match ↦
                    let m = Listed-of_filter _ _ routes pattern_match.0 in
                    in_table routes q method found.route_config m.0
                      (pattern_reaches routes q method found.route_config m.1)
                | inr (no_pattern, h2) ↦
                    elim (first_or-cases (sort_routes (prefix_routes routes q method))
                      (marked (path_matches routes q)) found h2) [
                        | inl prefix ↦
                            let m = Listed-of_filter _ _ routes (Listed-of_sort _ _ prefix.0) in
                            in_table routes q method found.route_config m.0
                              (prefix_reaches routes q method found.route_config m.1)
                        | inr (no_prefix, h3) ↦
                            marked-Reached routes q method _ found
                              (λ r l.
                                let m = Listed-of_filter _ r routes l in
                                (m.0, path_reaches routes q method r m.1))
                              h3
                      ]
              ]
      ]

any-false :
    (f : ProxyRouteConfig → Bool) (r : ProxyRouteConfig) (l : List ProxyRouteConfig)
    → any f l ≡ false
    → Listed r l
    → f r ≡ false
any-false f r [] h m = absurd m
any-false f r (q ∷ qs) h (inl e) = rw e (let g = h in ground arith)
any-false f r (q ∷ qs) h (inr m) = any-false f r qs (let g = h in ground arith) m

-- No route that the path reaches is open to a request without a user.
abbrev pub is_closed : List ProxyRouteConfig → Text → Bool
is_closed routes path = not (any (λ r. reaches path r && not r.require_auth) routes)

pub closed_refused :
    (routes : List ProxyRouteConfig) (method : String) (path : Text)
    → is_closed routes (strip_slash (drop_first path)) ≡ true
    → is_forwarded (handle_request routes (request_of method path none)) ≡ true
    → ⊥
closed_refused routes method path closed h =
    let (found, chosen, authorized) =
      handle_request-IsAuthorized routes (request_of method path none) h in
    let r = found-Reached routes (drop_first path) method found chosen in
    let open_here : any (λ q. reaches (strip_slash (drop_first path)) q && not q.require_auth)
          routes
        ≡ false =
      not_true _ closed in
    let shut =
      any-false (λ q. reaches (strip_slash (drop_first path)) q && not q.require_auth) r.route
        routes open_here r.listed in
    let needs : r.route.require_auth ≡ true = needs_auth _ _ r.reached shut in
    false≢true (authorized.known (r.same_auth ∙ needs))
  where
    not_true : (b : Bool) → not b ≡ true → b ≡ false
    not_true b h = ground arith

    needs_auth : (a b : Bool) → a ≡ true → (a && not b) ≡ false → b ≡ true
    needs_auth a b h k = ground arith
