-- ===== src/Worker/Progress/Loops.antt =====
-- internal/worker/worker.go: the steps of the two modes are lively.
use youtube_stream_tracker.Worker.Progress.Methods.{
  Ahead-process_segment, Ahead-check_suspension, ahead, Lively-kept,
}
use youtube_stream_tracker.Worker.Upkeep.Rounds.{Preserves-waiting_mode, Preserves-awaited, awaited}
use youtube_stream_tracker.Worker.Upkeep.Loops.{
  Preserves-observed, Preserves-monitoring_mode, observed,
}
use youtube_stream_tracker.Worker.Waiting.{waiting_mode}
use youtube_stream_tracker.Worker.Progress.{
  Lively-ask, Lively-bind, Lively-modify, Lively->>, Lively,
}
use youtube_stream_tracker.Worker.Actions.{now}
use youtube_stream_tracker.Worker.World.{M, modify, ◌>>=◌, ◌>>◌}
use youtube_stream_tracker.Worker.Modes.{monitoring_mode, set_manifest_url}
use youtube_stream_tracker.Prelude.{Bool, String, ℕ, refl, some}

pub Lively-awaited : (n : ℕ) (a b : Bool) → Lively (awaited n a b)
Lively-awaited n a b =
    Lively-kept (awaited n a b) λ t start. Preserves-awaited (ahead t start) n a b

pub Lively-waiting_mode : (fuel : ℕ) → Lively (waiting_mode fuel)
Lively-waiting_mode fuel =
    Lively-kept (waiting_mode fuel) λ t start. Preserves-waiting_mode (ahead t start) fuel

pub Lively-observed : Lively observed
Lively-observed = Lively-kept observed λ t start.
    Preserves-observed (ahead t start) (Ahead-check_suspension t start)
      (Ahead-process_segment t start)

-- What the monitoring mode does before its loop.
abbrev pub prepared : String → M (Unit {0})
prepared url = do
  modify (set_manifest_url url)
  t ← now
  modify λ w. record w { last_new_segment_time = some t }

pub Lively-prepared : (url : String) → Lively (prepared url)
unfolding set_manifest_url now
Lively-prepared url =
    Lively->> (Lively-modify _ (λ w. refl))
      (Lively-bind (Lively-ask _) λ t. Lively-modify _ (λ w. refl))

pub Lively-monitoring_mode : (fuel : ℕ) → Lively (monitoring_mode fuel)
Lively-monitoring_mode fuel = Lively-kept (monitoring_mode fuel) λ t start.
    Preserves-monitoring_mode (ahead t start) (Ahead-check_suspension t start)
      (Ahead-process_segment t start) fuel
