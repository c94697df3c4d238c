-- ===== src/Config.antt =====
-- internal/config/config.go: the configuration of the gateway and of a worker, from the environment. A
-- duration is an `int64` of nanoseconds.
pub mod Gateway
pub mod Worker
pub mod Loading
use youtube_stream_tracker.Model.{MonitorConfig}
use youtube_stream_tracker.Prelude.Int.{negsuc, pos_part, pos, ltb_ℤ, ℤ}
use youtube_stream_tracker.Prelude.{
  ltb, get_or, ◌^◌, str_eq, ◌%◌, Bool, Option, ℕ, List, String, ◌-◌, ◌∷◌, if◌then◌else◌, [], ◌*◌,
}

-- `os.Getenv`, where an absent variable reads as the empty text, and Go's parsers; `none` is an error.
pub record Environment : Type 0 where
  pub getenv : String → String
  pub atoi : String → Option ℤ
  pub parse_int : String → Option ℤ
  pub parse_bool : String → Option Bool
  pub parse_duration : String → Option ℤ
  pub unmarshal_config : String → Option MonitorConfig
  pub unmarshal_metadata : String → Option String

abbrev pub second : ℕ
second = 1_000_000_000

abbrev pub is_empty : String → Bool
is_empty s = str_eq s ""

-- Where the variable is absent, or its text is refused, the default holds.
unfoldable pub get_env : Environment → (key default_value : String) → String
get_env env key default_value = if is_empty (env.getenv key) then default_value else env.getenv key

unfoldable pub get_env_parsed :
    {A : Type 0} → Environment → (String → Option A) → (key : String) → (default_value : A) → A
get_env_parsed env parse key default_value =
    if is_empty (env.getenv key)
    then default_value
    else get_or (parse (env.getenv key)) default_value

unfoldable pub get_env_int : Environment → String → ℤ → ℤ
get_env_int env = get_env_parsed env env.atoi

unfoldable pub get_env_int64 : Environment → String → ℤ → ℤ
get_env_int64 env = get_env_parsed env env.parse_int

unfoldable pub get_env_bool : Environment → String → Bool → Bool
get_env_bool env = get_env_parsed env env.parse_bool

unfoldable pub get_env_duration : Environment → String → ℤ → ℤ
get_env_duration env = get_env_parsed env env.parse_duration

unfoldable pub get_env_duration_with_fallback :
    Environment → (primary_key fallback_key : String) → ℤ → ℤ
get_env_duration_with_fallback env primary_key fallback_key default_value =
    get_env_duration env primary_key (get_env_duration env fallback_key default_value)

-- The bits of an `int64`.
unfoldable pub to_int64 : ℕ → ℤ
to_int64 n = let m : ℕ = n % 2 ^ 64 in if ltb m (2 ^ 63) then pos m else negsuc (2 ^ 64 - m - 1)

-- `time.Duration(n) * time.Second`, which may overflow, where `n` is positive; otherwise the old value.
unfoldable pub seconds_or : ℤ → ℤ → ℤ
seconds_or n old = if ltb_ℤ (pos 0) n then to_int64 (pos_part n * second) else old

pub data ConfigLoadError : Type 0 where
  required must_be_positive : (key : String) → ConfigLoadError
  parse_failed : (key : String) → ConfigLoadError

pub data Loaded (A : Type 0) : Type 0 where
  loaded : A → Loaded A
  refused : ConfigLoadError → Loaded A

-- The first variable of a list whose test fails.
abbrev pub checked : {A : Type 0} → List (Bool × ConfigLoadError) → A → Loaded A
checked [] a = loaded a
checked ((ok, x) ∷ tests) a = let rest = checked tests a in if ok then rest else refused x
