-- ===== src/Gateway/Table.antt =====
-- The table of routes that the gateway sets up.
use mathlib.Core.List.{Perm}
use mathlib.Core.List.Perm
use msa_tuto_server.Base.{
  ℕ, ◌≤◌, String, Option, List, [], ◌∷◌, map, leb, Bool-cases, inl, inr, All, arith,
}
use msa_tuto_server.Gateway.Path.{Text}
use msa_tuto_server.Gateway.Routes.{ProxyRouteConfig}
use msa_tuto_server.Gateway.Service.{size, with_target, insert_route, sort_routes, setup_routes}

-- No route of the table has a longer path than one before it.
abbrev pub IsLongestFirst : List ProxyRouteConfig → Type 0
IsLongestFirst [] = Unit
IsLongestFirst (r ∷ rs) = All (λ q. size q.path ≤ size r.path) rs × IsLongestFirst rs

insert-Perm :
    (r : ProxyRouteConfig) (rs : List ProxyRouteConfig) → Perm (insert_route r rs) (r ∷ rs)
unfolding insert_route
insert-Perm r [] = Perm.refl _
insert-Perm r (q ∷ qs) = elim (Bool-cases (leb (size q.path) (size r.path))) [
  | inl t ↦ rw t (Perm.refl _)
  | inr f ↦ rw f (Perm.trans (Perm.cons q (insert-Perm r qs)) (Perm.swap r q qs))
]

sort-Perm : (rs : List ProxyRouteConfig) → Perm (sort_routes rs) rs
unfolding sort_routes
sort-Perm [] = Perm.refl _
sort-Perm (r ∷ rs) = Perm.trans (insert-Perm r (sort_routes rs)) (Perm.cons r (sort-Perm rs))

insert-All :
    (P : ProxyRouteConfig → Type 0) (r : ProxyRouteConfig) (rs : List ProxyRouteConfig)
    → P r
    → All P rs
    → All P (insert_route r rs)
unfolding insert_route
insert-All P r [] h k = (h, tt)
insert-All P r (q ∷ qs) h k = elim (Bool-cases (leb (size q.path) (size r.path))) [
  | inl t ↦ rw t (h, k)
  | inr f ↦ rw f (k.0, insert-All P r qs h k.1)
]

shorter :
    (a b : ℕ) (rs : List ProxyRouteConfig)
    → a ≤ b
    → All (λ q. size q.path ≤ a) rs
    → All (λ q. size q.path ≤ b) rs
shorter a b [] h k = tt
shorter a b (r ∷ rs) h k = (omega (arith, h, k.0), shorter a b rs h k.1)

insert-IsLongestFirst :
    (r : ProxyRouteConfig) (rs : List ProxyRouteConfig)
    → IsLongestFirst rs
    → IsLongestFirst (insert_route r rs)
unfolding insert_route
insert-IsLongestFirst r [] h = (tt, tt)
insert-IsLongestFirst r (q ∷ qs) h = elim (Bool-cases (leb (size q.path) (size r.path))) [
  | inl t ↦
      let le : size q.path ≤ size r.path = ground arith in
      rw t ((le, shorter (size q.path) (size r.path) qs le h.0), h)
  | inr f ↦
      let le : size r.path ≤ size q.path = ground arith in
      rw f (insert-All (λ p. size p.path ≤ size q.path) r qs le h.0, insert-IsLongestFirst r qs h.1)
]

sort-IsLongestFirst : (rs : List ProxyRouteConfig) → IsLongestFirst (sort_routes rs)
unfolding sort_routes
sort-IsLongestFirst [] = tt
sort-IsLongestFirst (r ∷ rs) = insert-IsLongestFirst r (sort_routes rs) (sort-IsLongestFirst rs)

-- The table that `setupRoutes` makes has the given routes, each as often as it was given and with the
-- URL of its service from the environment, those with longer paths first.
pub setup_routes-IsLongestFirst :
    (env : Text → Option String) (rs : List ProxyRouteConfig)
    → Perm (setup_routes env rs) (map (with_target env) rs) × IsLongestFirst (setup_routes env rs)
unfolding setup_routes
setup_routes-IsLongestFirst env rs =
    (sort-Perm (map (with_target env) rs), sort-IsLongestFirst (map (with_target env) rs))
