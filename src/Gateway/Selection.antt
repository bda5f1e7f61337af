-- ===== src/Gateway/Selection.antt =====
-- Which route the gateway chooses for a path and a method.
use msa_tuto_server.Base.{
  String, ◌≡◌, ◌≢◌, refl, Bool, true, false, ◌&&◌, ◌||◌, Option, some, List, [], ◌∷◌, filter, leb,
  arith, Bool-cases, inl, inr, ◌⊎◌, All,
}
use msa_tuto_server.Gateway.Path.{Text}
use msa_tuto_server.Gateway.Routes.{ProxyRouteConfig}
use msa_tuto_server.Gateway.Service.{
  size, RouteResult, get_route_config_for_path, sort_routes, insert_route, is_method_match,
  is_exact, is_pattern, is_prefix, first_or, marked, exact_matches, pattern_matches, prefix_routes,
  path_matches, by_prefix, by_pattern, strip_slash,
}

abbrev pub Listed : ProxyRouteConfig → List ProxyRouteConfig → Type 0
Listed r [] = ⊥
Listed r (q ∷ qs) = (r ≡ q) ⊎ Listed r qs

-- The route stands for the path and the method: exactly, by its pattern, or as a prefix.
abbrev pub serves : Text → String → ProxyRouteConfig → Bool
serves path method r =
    is_method_match method r && (is_exact path r || is_pattern path r || is_prefix path r)

module _ (p : ProxyRouteConfig → Bool) (r : ProxyRouteConfig) where
  Listed-in_cons :
      (q : ProxyRouteConfig) (qs l : List ProxyRouteConfig)
      → p q ≡ true
      → (Listed r l → Listed r qs × (p r ≡ true))
      → (r ≡ q) ⊎ Listed r l
      → ((r ≡ q) ⊎ Listed r qs) × (p r ≡ true)
  Listed-in_cons q qs l t ih (inl e) = (inl e, rw e t)
  Listed-in_cons q qs l t ih (inr m) = (inr (ih m).0, (ih m).1)

  pub Listed-of_filter :
      (rs : List ProxyRouteConfig) → Listed r (filter p rs) → Listed r rs × (p r ≡ true)
  Listed-of_filter [] h = absurd h
  Listed-of_filter (q ∷ qs) h = elim (Bool-cases (p q)) [
    | inl t ↦ Listed-in_cons q qs (filter p qs) t (Listed-of_filter qs) (rw t at h)
    | inr f ↦ let m = Listed-of_filter qs (rw f at h) in (inr m.0, m.1)
  ]

filter-nil :
    (p : ProxyRouteConfig → Bool) (rs : List ProxyRouteConfig)
    → filter p rs ≡ []
    → All (λ r. p r ≡ false) rs
filter-nil p [] h = tt
filter-nil p (r ∷ rs) h = elim (Bool-cases (p r)) [
  | inl t ↦ absurd (cc (rw t at h))
  | inr f ↦ (f, filter-nil p rs (rw f at h))
]

pub nil-filter :
    (p : ProxyRouteConfig → Bool) (rs : List ProxyRouteConfig)
    → All (λ r. p r ≡ false) rs
    → filter p rs ≡ []
nil-filter p [] h = refl
nil-filter p (r ∷ rs) h = rw h.0 (nil-filter p rs h.1)

Listed-of_insert :
    (r q : ProxyRouteConfig) (qs : List ProxyRouteConfig)
    → Listed r (insert_route q qs)
    → (r ≡ q) ⊎ Listed r qs
unfolding insert_route
Listed-of_insert r q [] h = h
Listed-of_insert r q (x ∷ xs) h = elim (Bool-cases (leb (size x.path) (size q.path))) [
  | inl t ↦ (rw t at h)
  | inr f ↦ shuffle (Listed-of_insert r q xs) (rw f at h)
]
  where
    shuffle :
        (Listed r (insert_route q xs) → (r ≡ q) ⊎ Listed r xs)
        → (r ≡ x) ⊎ Listed r (insert_route q xs)
        → (r ≡ q) ⊎ ((r ≡ x) ⊎ Listed r xs)
    shuffle ih (inl e) = inr (inl e)
    shuffle ih (inr l) = elim (ih l) [ inl e ↦ inl e | inr m ↦ inr (inr m) ]

pub Listed-of_sort :
    (r : ProxyRouteConfig) (rs : List ProxyRouteConfig) → Listed r (sort_routes rs) → Listed r rs
unfolding sort_routes
Listed-of_sort r [] h = h
Listed-of_sort r (q ∷ qs) h = elim (Listed-of_insert r q (sort_routes qs) h) [
  | inl e ↦ inl e
  | inr l ↦ inr (Listed-of_sort r qs l)
]

pub first_or-cases :
    (l : List ProxyRouteConfig) (later : Option RouteResult) (found : RouteResult)
    → first_or l later ≡ some found
    → (Listed found.route_config l × (found.matched_pattern ≡ found.route_config.path))
      ⊎ ((l ≡ []) × (later ≡ some found))
first_or-cases [] later found h = inr (refl, h)
first_or-cases (r ∷ rs) later found h = inl (inl (cc h), cc h)

marked-is_marked :
    (l : List ProxyRouteConfig) (found : RouteResult)
    → marked l ≡ some found
    → found.route_config.method_not_allowed ≡ true
marked-is_marked [] found h = absurd (cc h)
marked-is_marked (r ∷ rs) found h = cc h

-- The answer of the search: a route of the table that serves the path and the method, exactly if any
-- does so exactly; or a marked route, and then no route of the table serves them.
pub data Choice (routes : List ProxyRouteConfig) (path : Text) (method : String)
    (found : RouteResult) : Type 0 where
  served :
      Listed found.route_config routes
      → serves path method found.route_config ≡ true
      → found.matched_pattern ≡ found.route_config.path
      → (is_exact path found.route_config ≡ true)
        ⊎ All (λ r. (is_exact path r && is_method_match method r) ≡ false) routes
      → Choice routes path method found
  refused :
      All (λ r. serves path method r ≡ false) routes
      → found.route_config.method_not_allowed ≡ true
      → Choice routes path method found

module _ (path : Text) (method : String) where
  exact_serves :
      (r : ProxyRouteConfig)
      → (is_exact path r && is_method_match method r) ≡ true
      → (serves path method r ≡ true) × (is_exact path r ≡ true)
  exact_serves r h = ground arith

  pattern_serves :
      (r : ProxyRouteConfig)
      → (is_method_match method r && is_pattern path r) ≡ true
      → serves path method r ≡ true
  pattern_serves r h = ground arith

  prefix_serves :
      (r : ProxyRouteConfig)
      → (is_prefix path r && is_method_match method r) ≡ true
      → serves path method r ≡ true
  prefix_serves r h = ground arith

  not_serves :
      (r : ProxyRouteConfig)
      → (is_exact path r && is_method_match method r) ≡ false
      → (is_method_match method r && is_pattern path r) ≡ false
      → (is_prefix path r && is_method_match method r) ≡ false
      → serves path method r ≡ false
  not_serves r h k l = ground arith

  none_serves :
      (rs : List ProxyRouteConfig)
      → All (λ r. (is_exact path r && is_method_match method r) ≡ false) rs
      → All (λ r. (is_method_match method r && is_pattern path r) ≡ false) rs
      → All (λ r. (is_prefix path r && is_method_match method r) ≡ false) rs
      → All (λ r. serves path method r ≡ false) rs
  none_serves [] h k l = tt
  none_serves (r ∷ rs) h k l = (not_serves r h.0 k.0 l.0, none_serves rs h.1 k.1 l.1)

insert-ne-nil : (r : ProxyRouteConfig) (qs : List ProxyRouteConfig) → insert_route r qs ≢ []
unfolding insert_route
insert-ne-nil r [] e = cc e
insert-ne-nil r (q ∷ qs) e = ground arith

sort-nil : (rs : List ProxyRouteConfig) → sort_routes rs ≡ [] → rs ≡ []
unfolding sort_routes
sort-nil [] h = refl
sort-nil (r ∷ rs) h = absurd (insert-ne-nil r (sort_routes rs) h)

-- A route that the search gives is of the table and serves the request, with an exact path if any
-- route serves it by its exact path, or it is marked, and then no route of the table serves it.
pub get_route_config_for_path-Choice :
    (routes : List ProxyRouteConfig) (path : Text) (method : String) (found : RouteResult)
    → get_route_config_for_path routes path method ≡ some found
    → Choice routes (strip_slash path) method found
unfolding get_route_config_for_path
get_route_config_for_path-Choice routes path method found h =
    let q = strip_slash path in
    elim (first_or-cases (exact_matches routes q method) (by_pattern routes q method) found h) [
      | inl exact ↦
          let m = Listed-of_filter _ _ routes exact.0 in
          let e = exact_serves q method found.route_config m.1 in
          Choice.served m.0 e.0 exact.1 (inl e.1)
      | inr (no_exact, h1) ↦
          elim (first_or-cases (pattern_matches routes q method) (by_prefix routes q method) found
            h1) [
              | inl pattern_match ↦
                  let m = Listed-of_filter _ _ routes pattern_match.0 in
                  Choice.served m.0 (pattern_serves q method found.route_config m.1) pattern_match.1
                    (inr (filter-nil _ routes no_exact))
              | inr (no_pattern, h2) ↦
                  elim (first_or-cases (sort_routes (prefix_routes routes q method))
                    (marked (path_matches routes q)) found h2) [
                      | inl prefix ↦
                          let m = Listed-of_filter _ _ routes (Listed-of_sort _ _ prefix.0) in
                          Choice.served m.0 (prefix_serves q method found.route_config m.1) prefix.1
                            (inr (filter-nil _ routes no_exact))
                      | inr (no_prefix, h3) ↦
                          Choice.refused
                            (none_serves q method routes (filter-nil _ routes no_exact)
                              (filter-nil _ routes no_pattern)
                              (filter-nil _ routes (sort-nil _ no_prefix)))
                            (marked-is_marked _ found h3)
                    ]
            ]
    ]
