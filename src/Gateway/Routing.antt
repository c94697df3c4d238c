-- ===== src/Gateway/Routing.antt =====
-- cmd/gateway/main.go: each route has the guard that its endpoint needs.
use youtube_stream_tracker.Prelude.{
  get_or, ap, subst, Option, if◌then◌else◌, not, false, Bool, List, true, ◌∷◌, [], ◌&&◌, refl, ◌≡◌,
  arith, some, All,
}
use youtube_stream_tracker.Gateway.{
  needs_internal_api_key, same_method, needs_api_key, find_route, rate_limited, Request, Matching,
  Route, routes, Guard, Endpoint,
}

abbrev pub is_open : Endpoint → Bool
is_open Endpoint.healthz = true
is_open Endpoint.readyz = true
is_open _ = false

abbrev pub is_internal : Endpoint → Bool
is_internal Endpoint.update_monitor_status = true
is_internal Endpoint.terminate_monitor = true
is_internal _ = false

-- The first guard is the one that the endpoint needs.
abbrev pub is_guarded : List Guard → Endpoint → Bool
is_guarded [] e = is_open e
is_guarded (needs_api_key ∷ gs) e = not (is_open e) && not (is_internal e)
is_guarded (needs_internal_api_key ∷ gs) e = is_internal e
is_guarded (rate_limited n t ∷ gs) e = false

abbrev pub IsGuarded : Route → Type 0
IsGuarded r = is_guarded r.guards r.endpoint ≡ true

pub routes-IsGuarded : All IsGuarded routes
routes-IsGuarded = (refl, (refl, (refl, (refl, (refl, (refl, (refl, (refl, (refl, tt)))))))))

found :
    (P : Route → Type 0) (b : Bool) (x r : Route) (rest : Option Route)
    → P x
    → (rest ≡ some r → P r)
    → (if b then some x else rest) ≡ some r
    → P r
found P true x r rest p later h = subst P (ap (λ o. get_or o x) h) p
found P false x r rest p later h = later h

pub find_route-All :
    (P : Route → Type 0) (g : Matching) (q : Request) (rs : List Route) (r : Route)
    → All P rs
    → find_route g q rs ≡ some r
    → P r
find_route-All P g q [] r ps h = absurd grind arith
find_route-All P g q (x ∷ rs) r (p, ps) h =
    found P (same_method x.method q.method && g.matches x.pattern q.path) x r (find_route g q rs) p
      (find_route-All P g q rs r ps) h
