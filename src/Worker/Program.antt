-- ===== src/Worker/Program.antt =====
-- cmd/worker/main.go: the worker as a program, from its environment to the end of `Run`. The HTTP server
-- that answers Kubernetes' probes is left out.
use youtube_stream_tracker.Worker.Upkeep.Suspension.{run-suspension_step}
use youtube_stream_tracker.Config.Loading.{load_worker_config-IsUsable, IsUsable}
use youtube_stream_tracker.Worker.Upkeep.Announcement.{suspension_step}
use youtube_stream_tracker.Worker.Modes.{run}
use youtube_stream_tracker.Worker.Upkeep.Files.{run-file_step, file_step}
use youtube_stream_tracker.Config.Worker.{load_worker_config, WorkerConfig}
use youtube_stream_tracker.Worker.Waiting.{Exit}
use youtube_stream_tracker.Prelude.Int.{negsuc, pos, ℤ}
use youtube_stream_tracker.Worker.Upkeep.Protocol.{replay}
use youtube_stream_tracker.Prelude.{
  ◌==◌, ◌%◌, String, Option, true, subst, arith, false, ◌/◌, not, ℕ, Bool, if◌then◌else◌, ◌≡◌, [],
  refl, none, some,
}
use youtube_stream_tracker.Config.{loaded, refused, Loaded, Environment, ConfigLoadError}
use youtube_stream_tracker.Worker.World.{Config, World, Env, new_worker, set_metadata}

-- Nanoseconds as milliseconds: the worker's methods are modelled for durations that are whole numbers of those
-- and not negative.
abbrev pub milliseconds : ℤ → Option ℕ
milliseconds (pos n) = if n % 1_000_000 == 0 then some (n / 1_000_000) else none
milliseconds (negsuc n) = none

-- What the methods of the worker read of its configuration; `none` where they are not modelled.
unfoldable pub worker_settings : WorkerConfig → Option Config
worker_settings c = elim (milliseconds c.waiting_mode_initial_interval) [
  | none ↦ none
  | some initial_interval ↦ elim (milliseconds c.waiting_mode_delayed_interval) [
    | none ↦ none
    | some delayed_interval ↦ elim (milliseconds c.analysis_interval) [
      | none ↦ none
      | some analysis_interval ↦ elim (milliseconds c.blackout_threshold) [
        | none ↦ none
        | some blackout_threshold ↦ elim (milliseconds c.silence_threshold) [
          | none ↦ none
          | some silence_threshold ↦ elim (milliseconds c.delay_threshold) [
            | none ↦ none
            | some delay_threshold ↦ some (record {
              monitor_id = c.monitor_id;
              stream_url = c.stream_url;
              webhook_url = c.webhook_url;
              scheduled_start_time = c.scheduled_start_time;
              waiting_mode_initial_interval = initial_interval;
              waiting_mode_delayed_interval = delayed_interval;
              analysis_interval = analysis_interval;
              blackout_threshold = blackout_threshold;
              silence_threshold = silence_threshold;
              delay_threshold = delay_threshold;
            })
          ]
        ]
      ]
    ]
  ]
]

-- `NewWorker` and `SetMetadata`.
unfoldable pub initial_world : Option String → Config → World
initial_world metadata settings = record {
  worker = elim metadata [
    | none ↦ new_worker settings
    | some m ↦ set_metadata (some m) (new_worker settings)
  ];
  tick = 0;
  trace = [];
}

pub data Outcome : Type 0 where
  logger_failed : Outcome
  configuration_failed : ConfigLoadError → Outcome
  ran : Exit → World → Outcome
  not_modelled : Outcome

-- A run with settings that are not modelled has no outcome here.
abbrev run_settings : (fuel : ℕ) → Env → (metadata : Option String) → Option Config → Outcome
run_settings fuel e metadata none = not_modelled
run_settings fuel e metadata (some c) =
    let (x, w) = run fuel e (initial_world metadata c) in ran x w

abbrev pub run_worker : (fuel : ℕ) → Env → WorkerConfig → Outcome
run_worker fuel e c = run_settings fuel e c.metadata (worker_settings c)

unfoldable pub program : (logger_ready : Bool) → Environment → (fuel : ℕ) → Env → Outcome
program logger_ready env fuel e =
    if not logger_ready then logger_failed else elim (load_worker_config env) [
      | refused x ↦ configuration_failed x
      | loaded c ↦ run_worker fuel e c
    ]

-- What holds of the traces of a run from the start.
abbrev pub IsOrderly : World → Type 0
IsOrderly w =
    (replay file_step none w.trace ≡ some none)
    × (replay suspension_step false w.trace ≡ some w.worker.suspended_alert_sent)

abbrev EndsOrderly : Outcome → Type 0
EndsOrderly (ran x w) = IsOrderly w
EndsOrderly _ = Unit

initial_world-IsOrderly : (m : Option String) (c : Config) → IsOrderly (initial_world m c)
unfolding initial_world set_metadata new_worker
initial_world-IsOrderly none c = (refl, refl)
initial_world-IsOrderly (some m) c = (refl, refl)

run_settings-EndsOrderly :
    (fuel : ℕ) (e : Env) (metadata : Option String) (c : Option Config)
    → EndsOrderly (run_settings fuel e metadata c)
run_settings-EndsOrderly fuel e metadata none = tt
run_settings-EndsOrderly fuel e metadata (some c) =
    let (files, flag) = initial_world-IsOrderly metadata c in
    (
      run-file_step fuel e (initial_world metadata c) files,
      run-suspension_step fuel e (initial_world metadata c) flag,
    )

run_worker-IsOrderly :
    (fuel : ℕ) (e : Env) (c : WorkerConfig) (x : Exit) (w : World)
    → run_worker fuel e c ≡ ran x w
    → IsOrderly w
run_worker-IsOrderly fuel e c x w h =
    subst EndsOrderly h (run_settings-EndsOrderly fuel e c.metadata (worker_settings c))

program-by :
    (ready : Bool) (l : Loaded WorkerConfig) (fuel : ℕ) (e : Env) (x : Exit) (w : World)
    → (let outcome : Outcome =
          if not ready
          then logger_failed
          else elim l [ refused r ↦ configuration_failed r | loaded c ↦ run_worker fuel e c ] in
        outcome ≡ ran x w)
    → (c : WorkerConfig) × (l ≡ loaded c) × (run_worker fuel e c ≡ ran x w)
program-by false l fuel e x w h = absurd grind arith
program-by true (refused r) fuel e x w h = absurd grind arith
program-by true (loaded c) fuel e x w h = (c, refl, h)

-- A worker that runs has a usable configuration, and after the run each file that was saved was analysed and its
-- removal tried, and the flag says whether a suspension is open.
program-IsOrderly :
    (logger_ready : Bool) (env : Environment) (fuel : ℕ) (e : Env) (x : Exit) (w : World)
    → program logger_ready env fuel e ≡ ran x w
    → (c : WorkerConfig) × (load_worker_config env ≡ loaded c) × IsUsable c × IsOrderly w
unfolding program
program-IsOrderly logger_ready env fuel e x w h =
    let (c, got, up) = program-by logger_ready (load_worker_config env) fuel e x w h in
    (c, got, load_worker_config-IsUsable env c got, run_worker-IsOrderly fuel e c x w up)
