-- ===== src/Watcher/Running.antt =====
-- internal/k8s/watcher.go: `Run`, which makes one session after the other until its context ends.
use youtube_stream_tracker.Store.Objects.{Object}
use youtube_stream_tracker.Reconcile.{Cluster}
use youtube_stream_tracker.Store.Api.{Server}
use youtube_stream_tracker.Watcher.Session.{
  watch_loop-bound, handle_listed-bound, WatchEvent, failures_watched, failures_listed, watch_loop,
}
use youtube_stream_tracker.Prelude.{
  true, false, length, Option, ℕ, List, Bool, ◌∷◌, ◌≤◌, if◌then◌else◌, ◌+◌, arith, [], none, some,
}
use youtube_stream_tracker.Watcher.{Watched, PodEvent}

-- One turn of the loop: whether the context has ended before it, the session's list and events, where they
-- are got, and whether the context ends before the second after it is over.
pub record Turn : Type 0 where
  pub ended : Bool
  pub listed : Option (List (List Object × PodEvent))
  pub events : Option (List (List Object × WatchEvent))
  pub ends : Bool

abbrev pub failures_shown : Turn → ℕ
failures_shown t = elim t.listed [
  | none ↦ 0
  | some pods ↦ failures_listed pods + (elim t.events [ none ↦ 0 | some es ↦ failures_watched es ])
]

abbrev pub failures_in : List Turn → ℕ
failures_in [] = 0
failures_in (t ∷ ts) = failures_shown t + failures_in ts

module _ (api : Server) (cluster : Cluster api) where
  unfoldable pub run_watcher : List Turn → Watched api → Watched api
  run_watcher [] w = w
  run_watcher (t ∷ ts) w =
      let w' : Watched api = watch_loop api cluster t.listed t.events w in
      let rest : Watched api = run_watcher ts w' in
      if t.ended then w else if t.ends then w' else rest

  bounded-by :
      (ended ends : Bool) (w w' rest : Watched api) (n : ℕ)
      → length w.sent ≤ n
      → length w'.sent ≤ n
      → length rest.sent ≤ n
      → length (if ended then w else if ends then w' else rest).sent ≤ n
  bounded-by true ends w w' rest n p q r = p
  bounded-by false true w w' rest n p q r = q
  bounded-by false false w w' rest n p q r = r

  session-bound :
      (listed : Option (List (List Object × PodEvent)))
      (events : Option (List (List Object × WatchEvent))) (w : Watched api)
      → length (watch_loop api cluster listed events w).sent
        ≤ length w.sent
          + failures_shown
              (record { ended = false; listed = listed; events = events; ends = false })
  unfolding watch_loop
  session-bound none events w = omega arith
  session-bound (some pods) none w = omega (arith, handle_listed-bound api cluster pods w)
  session-bound (some pods) (some events) w =
      omega (arith, watch_loop-bound api cluster pods events w)

  -- However often the watch is made anew, at most one webhook is sent for each time that a session shows a
  -- failed pod, whatever the caches hold and the server answers.
  run_watcher-bound :
      (ts : List Turn) (w : Watched api)
      → length (run_watcher ts w).sent ≤ length w.sent + failures_in ts
  unfolding run_watcher
  run_watcher-bound [] w = omega arith
  run_watcher-bound (t ∷ ts) w =
      let here = session-bound t.listed t.events w in
      let rest = run_watcher-bound ts (watch_loop api cluster t.listed t.events w) in
      bounded-by t.ended t.ends w (watch_loop api cluster t.listed t.events w)
        (run_watcher ts (watch_loop api cluster t.listed t.events w)) _ (omega arith)
        (omega (arith, here)) (omega (arith, here, rest))
