-- ===== src/Config/Loading.antt =====
-- internal/config/config.go: what a loaded configuration guarantees.
use youtube_stream_tracker.Prelude.Int.{◌<ℤ◌, ℤ, pos}
use youtube_stream_tracker.Model.{MonitorConfig}
use youtube_stream_tracker.Prelude.{
  lt→ltb, none, some, not, ltb→lt, subst, true, All, List, Bool, if◌then◌else◌, refl, ◌∷◌, [],
  false, ℕ, arith, ◌<◌, ◌*◌, ◌≤◌, ◌≡◌,
}
use youtube_stream_tracker.Config.{
  parse_failed, checked, refused, ConfigLoadError, Environment, Loaded, second, is_empty, loaded,
  seconds_or, to_int64,
}
use youtube_stream_tracker.Config.Worker.{
  worker_values, worker_tests, load_worker_config, load_metadata, WorkerConfig,
  apply_monitor_config, check_worker_config,
}

-- What a worker relies on.
pub record IsUsable (cfg : WorkerConfig) : Type 0 where
  pub monitor_id_given : is_empty cfg.monitor_id ≡ false
  pub stream_url_given : is_empty cfg.stream_url ≡ false
  pub callback_url_given : is_empty cfg.callback_url ≡ false
  pub initial_interval_pos : pos 0 <ℤ cfg.waiting_mode_initial_interval
  pub delayed_interval_pos : pos 0 <ℤ cfg.waiting_mode_delayed_interval
  pub refresh_interval_pos : pos 0 <ℤ cfg.manifest_refresh_interval
  pub max_bytes_pos : pos 0 <ℤ cfg.segment_max_bytes

abbrev pub IsOk : Bool × ConfigLoadError → Type 0
IsOk (ok, x) = ok ≡ true

pub checked-All :
    {A : Type 0} (tests : List (Bool × ConfigLoadError)) (a b : A)
    → checked tests a ≡ loaded b
    → All IsOk tests × a ≡ b
checked-All [] a b h = (tt, grind arith)
checked-All ((true, x) ∷ tests) a b h = let (oks, e) = checked-All tests a b h in ((refl, oks), e)
checked-All ((false, x) ∷ tests) a b h = grind arith

pub not-false : (b : Bool) → not b ≡ true → b ≡ false
not-false true h = grind arith
not-false false h = refl

worker_tests-IsUsable : (cfg : WorkerConfig) → All IsOk (worker_tests cfg) → IsUsable cfg
worker_tests-IsUsable cfg (a, (b, (c, (d, (e, (f, (g, _))))))) = record {
  monitor_id_given = not-false _ a;
  stream_url_given = not-false _ b;
  callback_url_given = not-false _ c;
  initial_interval_pos = ltb→lt _ _ d;
  delayed_interval_pos = ltb→lt _ _ e;
  refresh_interval_pos = ltb→lt _ _ f;
  max_bytes_pos = ltb→lt _ _ g;
}

check_worker_config-IsUsable :
    (c cfg : WorkerConfig) → check_worker_config c ≡ loaded cfg → IsUsable cfg
unfolding check_worker_config
check_worker_config-IsUsable c cfg h =
    let (oks, e) = checked-All (worker_tests c) c cfg h in
    subst IsUsable e (worker_tests-IsUsable c oks)

abbrev MaybeUsable : Loaded WorkerConfig → Type 0
MaybeUsable (loaded cfg) = IsUsable cfg
MaybeUsable (refused x) = Unit

to_MaybeUsable :
    (r : Loaded WorkerConfig)
    → ((cfg : WorkerConfig) → r ≡ loaded cfg → IsUsable cfg)
    → MaybeUsable r
to_MaybeUsable (loaded cfg) h = h cfg refl
to_MaybeUsable (refused x) h = tt

if-MaybeUsable :
    (b : Bool) (x y : Loaded WorkerConfig)
    → MaybeUsable x
    → MaybeUsable y
    → MaybeUsable (if b then x else y)
if-MaybeUsable true x y p q = p
if-MaybeUsable false x y p q = q

-- A configuration a worker can use is accepted as it is.
pub check_worker_config-accepts :
    (cfg : WorkerConfig) → IsUsable cfg → check_worker_config cfg ≡ loaded cfg
unfolding check_worker_config
check_worker_config-accepts cfg u =
    rw
      (
        u.monitor_id_given,
        u.stream_url_given,
        u.callback_url_given,
        lt→ltb _ _ u.initial_interval_pos,
        lt→ltb _ _ u.delayed_interval_pos,
        lt→ltb _ _ u.refresh_interval_pos,
        lt→ltb _ _ u.max_bytes_pos,
      )
      refl

check_worker_config-Maybe : (c : WorkerConfig) → MaybeUsable (check_worker_config c)
check_worker_config-Maybe c =
    to_MaybeUsable (check_worker_config c) (check_worker_config-IsUsable c)

load_metadata-Maybe : (env : Environment) (c : WorkerConfig) → MaybeUsable (load_metadata env c)
unfolding load_metadata
load_metadata-Maybe env c =
    if-MaybeUsable (is_empty (env.getenv "METADATA_JSON")) _ _ (check_worker_config-Maybe c)
      (elim (env.unmarshal_metadata (env.getenv "METADATA_JSON"))
        as (λ o. MaybeUsable (elim o [
          | none ↦ refused (parse_failed "METADATA_JSON")
          | some m ↦ check_worker_config (record c { metadata = some m })
        ])) [ none ↦ tt | some m ↦ check_worker_config-Maybe (record c { metadata = some m }) ])

load_worker_config-Maybe : (env : Environment) → MaybeUsable (load_worker_config env)
unfolding load_worker_config
load_worker_config-Maybe env =
    if-MaybeUsable (is_empty (env.getenv "CONFIG_JSON")) _ _
      (load_metadata-Maybe env (worker_values env))
      (elim (env.unmarshal_config (env.getenv "CONFIG_JSON"))
        as (λ o. MaybeUsable (elim o [
          | none ↦ refused (parse_failed "CONFIG_JSON")
          | some m ↦ load_metadata env (apply_monitor_config m (worker_values env))
        ])) [
          | none ↦ tt
          | some m ↦ load_metadata-Maybe env (apply_monitor_config m (worker_values env))
        ])

-- A configuration that is loaded without an error, whatever the environment holds, names a monitor, a
-- stream and a callback, and its two waiting intervals, its refresh interval and its limit on a segment's
-- size are positive.
pub load_worker_config-IsUsable :
    (env : Environment) (cfg : WorkerConfig) → load_worker_config env ≡ loaded cfg → IsUsable cfg
load_worker_config-IsUsable env cfg h = subst MaybeUsable h (load_worker_config-Maybe env)

-- A positive number of seconds of at most 9_223_372_036 is set as that many seconds.
pub seconds_or-pos :
    (n : ℕ) (old : ℤ) → 1 ≤ n → n ≤ 9_223_372_036 → seconds_or (pos n) old ≡ pos (n * second)
unfolding seconds_or to_int64
seconds_or-pos n old h k = ground arith

-- A monitor's configuration with a check interval of 9_223_372_037 to 18_446_744_073 seconds may pass the
-- gateway's validation, and a worker that reads it gets a negative analysis interval.
pub apply_monitor_config-overflows :
    (m : MonitorConfig) (cfg : WorkerConfig) (n : ℕ)
    → m.check_interval_sec ≡ pos n
    → 9_223_372_036 < n
    → n < 18_446_744_074
    → (apply_monitor_config m cfg).analysis_interval <ℤ pos 0
unfolding apply_monitor_config seconds_or to_int64
apply_monitor_config-overflows m cfg n e h k = rw e (ground arith)
