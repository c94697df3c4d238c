-- ===== src/Reconcile/Periodic.antt =====
-- internal/k8s/reconcile.go: `NewReconciler` and `RunPeriodic`. Between two passes other writers may act.
use youtube_stream_tracker.Store.Queries.{get_active_monitors}
use youtube_stream_tracker.Reconcile.Zombies.{reconcile_startup-zombie_pods, IsActiveMonitor}
use youtube_stream_tracker.Model.{Monitor}
use youtube_stream_tracker.Store.Objects.{Object}
use youtube_stream_tracker.Store.Api.{Server}
use youtube_stream_tracker.Prelude.{
  ap, length, All, suc, ◌==◌, List, ℕ, [], refl, ◌∷◌, if◌then◌else◌, ◌≡◌,
}
use youtube_stream_tracker.Reconcile.{reconcile_startup, Cluster, Round}

-- A timeout of nothing is half a minute, in nanoseconds.
unfoldable pub reconciler_timeout : ℕ → ℕ
reconciler_timeout timeout = if timeout == 0 then 30_000_000_000 else timeout

-- What the `select` finds: the end of the context, or a tick of the timer, with the cache at its time and what
-- others have written since the last pass.
pub data Wakeup (S : Type 0) : Type 0 where
  ctx_done : Wakeup S
  tick : (cache : List Object) → (meanwhile : S → S) → Wakeup S

module _ (api : Server) (cluster : Cluster api) (oldest_first : List Monitor → List Monitor) where
  -- The passes in their order.
  unfoldable pub run_periodic : List (Wakeup api.S) → api.S → List (Round api)
  run_periodic [] s = []
  run_periodic (ctx_done ∷ ws) s = []
  run_periodic (tick cache meanwhile ∷ ws) s =
      let r : Round api =
        reconcile_startup api cluster (get_active_monitors oldest_first cache) (meanwhile s) in
      r ∷ run_periodic ws r.server

  abbrev pub ticks_before_end : List (Wakeup api.S) → ℕ
  ticks_before_end [] = 0
  ticks_before_end (ctx_done ∷ ws) = 0
  ticks_before_end (tick cache meanwhile ∷ ws) = suc (ticks_before_end ws)

  -- There is a pass for each tick before the context ends, and none after that; where the sort adds no
  -- monitor, none of them counts a zombie pod.
  pub run_periodic-passes :
      (h : (ms : List Monitor) → All IsActiveMonitor ms → All IsActiveMonitor (oldest_first ms))
      → (ws : List (Wakeup api.S)) (s : api.S)
      → (length (run_periodic ws s) ≡ ticks_before_end ws)
        × All (λ r. r.result.zombie_pods ≡ 0) (run_periodic ws s)
  unfolding run_periodic
  run_periodic-passes h [] s = (refl, tt)
  run_periodic-passes h (ctx_done ∷ ws) s = (refl, tt)
  run_periodic-passes h (tick cache meanwhile ∷ ws) s =
      let r : Round api =
        reconcile_startup api cluster (get_active_monitors oldest_first cache) (meanwhile s) in
      let (n, all) = run_periodic-passes h ws r.server in
      (
        ap suc n,
        (reconcile_startup-zombie_pods api cluster oldest_first cache (meanwhile s) h, all),
      )
