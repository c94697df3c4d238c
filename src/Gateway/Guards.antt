-- ===== src/Gateway/Guards.antt =====
-- cmd/gateway/main.go: what the middlewares of the routes establish.
use youtube_stream_tracker.Gateway.Routing.{
  routes-IsGuarded, IsGuarded, is_open, is_internal, find_route-All, is_guarded,
}
use youtube_stream_tracker.Handlers.{Response}
use youtube_stream_tracker.Middleware.Keys.{api_key_auth-authorized}
use youtube_stream_tracker.Store.Api.{Server}
use youtube_stream_tracker.Gateway.Serving.{
  serve, handle_endpoint, readyz_handler, run_endpoint, State, Services, run_guards, run_guard,
  run_route,
}
use youtube_stream_tracker.Middleware.{
  internal_api_key_auth, api_key_auth, given_key, invalid_key, key_required, authorized,
  Authorization,
}
use youtube_stream_tracker.Prelude.{
  ◌∙◌, sym, ◌⊎◌, String, ap, subst, Option, if◌then◌else◌, inr, inl, Bool-cases, not, false, Bool,
  List, true, ◌∷◌, [], ◌&&◌, refl, ◌≡◌, ◌≢◌, arith, none, some,
}
use youtube_stream_tracker.Gateway.{
  not_routed, not_ready, ready, handled, Answer, route, Method, Keys, needs_internal_api_key,
  needs_api_key, find_route, rate_limited, unauthorized, unless_authorized, Request, Route, routes,
  Guard, Endpoint,
}

unless_authorized-cases :
    (a : Authorization) → (a ≡ authorized) ⊎ (unless_authorized a ≡ some (unauthorized a))
unless_authorized-cases authorized = inl refl
unless_authorized-cases key_required = inr refl
unless_authorized-cases invalid_key = inr refl

-- The key that the endpoints of one of the two groups need was given, and is not empty.
abbrev pub HasKey : (internal : Bool) → Keys → Request → Type 0
HasKey true keys q =
    (q.internal_api_key_header ≡ keys.internal_api_key) × (keys.internal_api_key ≢ "")
HasKey false keys q =
    (given_key q.api_key_header q.authorization ≡ keys.api_key) × (keys.api_key ≢ "")

public_key :
    (e : Endpoint) → (not (is_open e) && not (is_internal e)) ≡ true → is_internal e ≡ false
public_key e h = ground arith

not_open : (e : Endpoint) → is_internal e ≡ true → is_open e ≢ true
not_open Endpoint.update_monitor_status k h = grind arith
not_open Endpoint.terminate_monitor k h = grind arith
not_open Endpoint.healthz k h = grind arith
not_open Endpoint.readyz k h = grind arith
not_open Endpoint.create_monitor k h = grind arith
not_open Endpoint.list_monitors k h = grind arith
not_open Endpoint.get_monitor k h = grind arith
not_open Endpoint.patch_monitor k h = grind arith
not_open Endpoint.delete_monitor k h = grind arith

readiness : (b : Bool) (x : Response) → (if b then ready else not_ready) ≢ handled x
readiness true x h = grind arith
readiness false x h = grind arith

not_handled : (a : Authorization) (x : Response) → unauthorized a ≢ handled x
not_handled a x h = grind arith

keyless :
    (internal : Bool) (keys : Keys) (q : Request)
    → given_key q.api_key_header q.authorization ≢ keys.api_key
    → q.internal_api_key_header ≢ keys.internal_api_key
    → HasKey internal keys q
    → ⊥
keyless true keys q x y k = y k.0
keyless false keys q x y k = x k.0

module _ (api : Server) (sv : Services api) (keys : Keys) (q : Request)
    (g : State api sv keys) where
  run_route-aborts :
      (x : Guard) (a : Answer) (m : Method) (p : String) (gs : List Guard) (e : Endpoint)
      → run_guard api sv keys x q g ≡ (some a, g)
      → run_route api sv keys (route m p (x ∷ gs) e) q g ≡ (a, g)
  unfolding run_route run_guards
  run_route-aborts x a m p gs e h = rw h refl

  -- The request has the key, or it is refused and changes nothing.
  run_route-cases :
      (m : Method) (p : String) (gs : List Guard) (e : Endpoint)
      → is_guarded gs e ≡ true
      → is_open e ≡ false
      → HasKey (is_internal e) keys q
        ⊎ ((a : Authorization) × (run_route api sv keys (route m p gs e) q g ≡ (unauthorized a, g)))
  unfolding run_guard
  run_route-cases m p [] e k o = absurd grind arith
  run_route-cases m p (needs_api_key ∷ gs) e k o =
      let auth = api_key_auth keys.api_key q.api_key_header q.authorization in
      elim (unless_authorized-cases auth) [
        | inl h ↦ inl (
            subst (λ b. HasKey b keys q) (sym (public_key e k))
              (((api_key_auth-authorized keys.api_key q.api_key_header q.authorization).0).0 h))
        | inr h ↦
            inr (
              auth,
              run_route-aborts needs_api_key (unauthorized auth) m p gs e (ap (λ o. (o, g)) h),
            )
      ]
  run_route-cases m p (needs_internal_api_key ∷ gs) e k o =
      let auth = internal_api_key_auth keys.internal_api_key q.internal_api_key_header in
      elim (unless_authorized-cases auth) [
        | inl h ↦ inl (
            subst (λ b. HasKey b keys q) (sym k)
              (((api_key_auth-authorized keys.internal_api_key q.internal_api_key_header "").1).0
                h))
        | inr h ↦ inr (
          auth,
          run_route-aborts needs_internal_api_key (unauthorized auth) m p gs e (ap (λ o. (o, g)) h),
        )
      ]
  run_route-cases m p (rate_limited n t ∷ gs) e k o = absurd grind arith

  -- An open endpoint changes nothing, and is no handler.
  run_route-open :
      (m : Method) (p : String) (gs : List Guard) (e : Endpoint)
      → is_guarded gs e ≡ true
      → is_open e ≡ true
      → ((run_route api sv keys (route m p gs e) q g).1 ≡ g)
        × ((x : Response) → (run_route api sv keys (route m p gs e) q g).0 ≢ handled x)
  unfolding run_route run_guards run_endpoint handle_endpoint readyz_handler
  run_route-open m p [] Endpoint.healthz k o = (refl, λ x h. absurd grind arith)
  run_route-open m p [] Endpoint.readyz k o =
      (refl, λ x h. readiness (sv.cache_synced g.server) x h)
  run_route-open m p [] _ k o = absurd grind arith
  run_route-open m p (needs_api_key ∷ gs) e k o = absurd grind arith
  run_route-open m p (needs_internal_api_key ∷ gs) e k o = absurd (not_open e k o)
  run_route-open m p (rate_limited n t ∷ gs) e k o = absurd grind arith

  abbrev outcome : Option Route → Answer × State api sv keys
  outcome none = (not_routed, g)
  outcome (some r) = run_route api sv keys r q g

  outcome-unauthorized :
      (o : Option Route)
      → find_route sv.matching q routes ≡ o
      → given_key q.api_key_header q.authorization ≢ keys.api_key
      → q.internal_api_key_header ≢ keys.internal_api_key
      → ((outcome o).1 ≡ g) × ((x : Response) → (outcome o).0 ≢ handled x)
  outcome-unauthorized none found x y = (refl, λ v h. absurd grind arith)
  outcome-unauthorized (some r) found x y =
      let guarded = find_route-All IsGuarded sv.matching q routes r routes-IsGuarded found in
      elim (Bool-cases (is_open r.endpoint)) [
        | inl o ↦ run_route-open r.method r.pattern r.guards r.endpoint guarded o
        | inr o ↦ elim (run_route-cases r.method r.pattern r.guards r.endpoint guarded o) [
          | inl k ↦ absurd (keyless (is_internal r.endpoint) keys q x y k)
          | inr (a, same) ↦
              (ap (λ p. p.1) same, λ v h. not_handled a v (sym (ap (λ p. p.0) same) ∙ h))
        ]
      ]

  outcome-handled :
      (o : Option Route)
      → find_route sv.matching q routes ≡ o
      → (x : Response) → (outcome o).0 ≡ handled x
      → (r : Route) × (o ≡ some r)
        × (is_open r.endpoint ≡ false)
        × HasKey (is_internal r.endpoint) keys q
  outcome-handled none found x h = absurd grind arith
  outcome-handled (some r) found x h =
      let guarded = find_route-All IsGuarded sv.matching q routes r routes-IsGuarded found in
      elim (Bool-cases (is_open r.endpoint)) [
        | inl o ↦ absurd ((run_route-open r.method r.pattern r.guards r.endpoint guarded o).1 x h)
        | inr o ↦ elim (run_route-cases r.method r.pattern r.guards r.endpoint guarded o) [
          | inl k ↦ (r, refl, o, k)
          | inr (a, same) ↦ absurd (not_handled a x (sym (ap (λ p. p.0) same) ∙ h))
        ]
      ]

-- A request that gives neither the key of the public API nor that of the internal one changes nothing,
-- neither the monitors and the pods nor the rate limiters, and no handler answers it.
pub serve-unauthorized :
    (api : Server) (sv : Services api) (keys : Keys) (q : Request) (g : State api sv keys)
    → given_key q.api_key_header q.authorization ≢ keys.api_key
    → q.internal_api_key_header ≢ keys.internal_api_key
    → ((serve api sv keys q g).1 ≡ g) × ((x : Response) → (serve api sv keys q g).0 ≢ handled x)
unfolding serve
serve-unauthorized api sv keys q g x y =
    outcome-unauthorized api sv keys q g (find_route sv.matching q routes) refl x y

-- A handler answers only where a route takes it, and where the request gave the key of the route's group:
-- for a worker's report or its termination the key of the internal API in its header, and for the
-- monitors the key of the public API, and neither key is empty.
pub serve-handled :
    (api : Server) (sv : Services api) (keys : Keys) (q : Request) (g : State api sv keys)
    → (x : Response) → (serve api sv keys q g).0 ≡ handled x
    → (r : Route) × (find_route sv.matching q routes ≡ some r)
      × (is_open r.endpoint ≡ false)
      × HasKey (is_internal r.endpoint) keys q
unfolding serve
serve-handled api sv keys q g x h =
    outcome-handled api sv keys q g (find_route sv.matching q routes) refl x h
