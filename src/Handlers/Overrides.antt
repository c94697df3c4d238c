-- ===== src/Handlers/Overrides.antt =====
-- internal/api/handlers.go: what `applyConfigOverrides` makes of a configuration.
use youtube_stream_tracker.Model.{MonitorConfig}
use youtube_stream_tracker.Prelude.{none, some, get_or, Option, ◌≡◌, refl}
use youtube_stream_tracker.Handlers.{or_else, MonitorConfigRequest, apply_config_overrides}

get_or-twice : {A : Type 0} (o : Option A) (x : A) → get_or o (get_or o x) ≡ get_or o x
get_or-twice none x = refl
get_or-twice (some y) x = refl

or_else-twice : {A : Type 0} (o : Option A) (x : Option A) → or_else o (or_else o x) ≡ or_else o x
or_else-twice none x = refl
or_else-twice (some y) x = refl

-- Overriding a configuration a second time with the same request changes nothing more, for every
-- configuration and every request.
pub apply_config_overrides-twice :
    (base : MonitorConfig) (req : Option MonitorConfigRequest)
    → apply_config_overrides (apply_config_overrides base req) req ≡ apply_config_overrides base req
unfolding apply_config_overrides
apply_config_overrides-twice base none = refl
apply_config_overrides-twice base (some o) = λ i. record {
  check_interval_sec = get_or-twice o.check_interval_sec base.check_interval_sec i;
  blackout_threshold_sec = get_or-twice o.blackout_threshold_sec base.blackout_threshold_sec i;
  silence_threshold_sec = get_or-twice o.silence_threshold_sec base.silence_threshold_sec i;
  silence_db_threshold = get_or-twice o.silence_db_threshold base.silence_db_threshold i;
  scheduled_start_time = or_else-twice o.scheduled_start_time base.scheduled_start_time i;
  start_delay_tolerance_sec =
      get_or-twice o.start_delay_tolerance_sec base.start_delay_tolerance_sec i;
}
