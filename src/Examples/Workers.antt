-- ===== src/Examples/Workers.antt =====
-- internal/worker/worker.go at a concrete worker, with an outside in which all goes well.
use youtube_stream_tracker.Worker.Progress.Termination.{run-ends}
use youtube_stream_tracker.Worker.Waiting.{out_of_fuel}
use youtube_stream_tracker.Worker.Detection.Refines.{
  black_alarm, silence_alarm, silence_event, black_event,
}
use youtube_stream_tracker.Worker.Delivery.{sent_types}
use youtube_stream_tracker.Worker.Alarm.{
  IsSound, IsClear, raises, Alternates, signals, Signal, readings,
}
use youtube_stream_tracker.Worker.Detection.{process_black_detection, process_silence_detection}
use youtube_stream_tracker.Worker.Modes.{run}
use youtube_stream_tracker.Worker.Detection.Runs.{
  silence_detection-runs, black_detection-runs, black_detection-Alternates, detect,
}
use youtube_stream_tracker.Worker.Modes.Runs.{run-RunEnds, RunEnds}
use youtube_stream_tracker.Worker.World.{Env, World, Config, new_worker}
use youtube_stream_tracker.Prelude.{
  ◌==◌, ◌≢◌, arith, map, reverse, some, false, none, true, ℕ, Bool, List, ◌*◌, ◌+◌, refl, ◌++◌, [],
  ◌≡◌, ◌∷◌,
}

abbrev config : Config
config = record {
  monitor_id = "mon-1";
  stream_url = "https://www.youtube.com/watch?v=abcdefghijk";
  webhook_url = "https://example.com/hook";
  scheduled_start_time = none;
  waiting_mode_initial_interval = 30000;
  waiting_mode_delayed_interval = 10000;
  analysis_interval = 10000;
  blackout_threshold = 30000;
  silence_threshold = 30000;
  delay_threshold = 300000;
}

-- The stream is live, and its playlist has ended.
abbrev pub outside : (delivered : Bool) → Env
outside d = record {
  clock = λ n. n * 1000;
  shutdown_signalled = λ n. false;
  ctx_done = λ n. false;
  pick_shutdown = λ n. false;
  refreshes = λ n. 0;
  tmp_dir_ready = λ n. true;
  stream_live = λ n. some (true, none);
  manifest_url = λ n. some "https://example.com/live.m3u8";
  end_list = λ n. some true;
  latest_segment = λ n. none;
  segment_data = λ n. none;
  segment_path = λ n. none;
  segment_removed = λ n. true;
  analysis = λ n. none;
  delivered = λ n. d;
}

abbrev pub start : World
start = record { worker = new_worker config; tick = 0; trace = [] }

run-RunEnds_example : RunEnds (run 3 (outside true) start).0 (run 3 (outside true) start).1
unfolding new_worker
run-RunEnds_example = run-RunEnds 3 (outside true) start refl (λ h. absurd ground arith)

-- A run of four black segments of ten seconds, and a short one of two seconds.
abbrev segments : List (List ℕ × ℕ)
segments = (10000 ∷ 10000 ∷ 10000 ∷ 10000 ∷ [], 5000) ∷ (2000 ∷ [], 5000) ∷ []

black_detection-runs_example :
    let w' = (detect process_black_detection (readings segments) (outside true) start).1 in
    (sent_types w'.trace ≡ reverse (map black_event (signals 30000 segments)) ++ [])
    × IsClear (black_alarm w'.worker)
unfolding new_worker
black_detection-runs_example =
    black_detection-runs segments (outside true) start
      (record { not_sent = refl; not_active = refl; no_total = refl })

silence_detection-runs_example :
    let w' = (detect process_silence_detection (readings segments) (outside true) start).1 in
    (sent_types w'.trace ≡ reverse (map silence_event (signals 30000 segments)) ++ [])
    × IsClear (silence_alarm w'.worker)
unfolding new_worker
silence_detection-runs_example =
    silence_detection-runs segments (outside true) start
      (record { not_sent = refl; not_active = refl; no_total = refl })

black_detection-Alternates_example :
    let w' =
      (detect process_black_detection
        ((true, 40000) ∷ (false, 5000) ∷ [])
        (outside true)
        start).1 in
    (ss : List Signal) × (sent_types w'.trace ≡ reverse (map black_event ss) ++ [])
    × Alternates false ss
    × (w'.worker.blackout_events ≡ raises ss + 0)
unfolding new_worker IsSound
black_detection-Alternates_example =
    black_detection-Alternates ((true, 40000) ∷ (false, 5000) ∷ []) (outside true) start refl

-- The shutdown is signalled at tick 5.
abbrev interrupted : Env
interrupted = record (outside true) { shutdown_signalled = λ n. n == 5 }

run-ends_example : (run 7 interrupted start).0 ≢ out_of_fuel
run-ends_example = run-ends 5 7 interrupted refl start (omega arith) (omega arith)
