-- ===== src/Ytdlp.antt =====
-- internal/ytdlp/ytdlp.go: the commands of yt-dlp and streamlink, and what is made of their output.
pub mod Answers
use youtube_stream_tracker.Prelude.Int.{ℤ}
use youtube_stream_tracker.Middleware.Keys.{true≢false}
use youtube_stream_tracker.Prelude.{
  inr, inl, eq_iff, sym, subst, Bool-cases, get_or, false, ap, or_else, ◌∙◌, ◌≢◌, refl, arith, ◌≡◌,
  ◌⊎◌, Option, true, str_eq, String, List, Bool, [], ◌++◌, ◌∷◌, if◌then◌else◌, ◌||◌, none, some,
}

pub record StreamInfo : Type 0 where
  pub is_live : Bool
  pub live_status : String
  pub title : String

-- `Run` gives the standard output, or `none` where the program fails. The parser of encoding/json and
-- `strings.TrimSpace` come with it.
pub record Runner : Type 0 where
  pub run : (path : String) → (args : List String) → Option String
  pub trim_space : String → String
  pub unmarshal_info : String → Option StreamInfo

pub record Client : Type 0 where
  pub ytdlp_path : String
  pub streamlink_path : String
  pub http_proxy : String
  pub https_proxy : String

abbrev pub or_default : String → String → String
or_default s d = if str_eq s "" then d else s

unfoldable pub new_client : (ytdlp_path streamlink_path http_proxy https_proxy : String) → Client
new_client ytdlp_path streamlink_path http_proxy https_proxy = record {
  ytdlp_path = or_default ytdlp_path "yt-dlp";
  streamlink_path = or_default streamlink_path "streamlink";
  http_proxy = http_proxy;
  https_proxy = https_proxy;
}

-- The part of `UnixTime.UnmarshalJSON` that is its own: a number is a Unix timestamp, and anything else a
-- time as encoding/json reads it.
unfoldable pub unmarshal_unix_time :
    {T : Type 0} (unmarshal_number : String → Option ℤ) (unix : ℤ → T)
    (unmarshal_time : String → Option T)
    → String
    → Option T
unmarshal_unix_time unmarshal_number unix unmarshal_time text = elim (unmarshal_number text) [
  | some n ↦ some (unix n)
  | none ↦ unmarshal_time text
]

abbrev pub proxy_args : Client → List String
proxy_args c = if str_eq c.http_proxy "" then [] else "--proxy" ∷ c.http_proxy ∷ []

abbrev pub info_args : Client → String → List String
info_args c url =
    ("--dump-json" ∷ "--no-playlist" ∷ "--no-warnings" ∷ []) ++ proxy_args c ++ (url ∷ [])

abbrev pub manifest_args : Client → String → List String
manifest_args c url =
    ("--get-url" ∷ "--format" ∷ "worst[protocol^=m3u8]" ∷ "--no-playlist" ∷ "--no-warnings"
      ∷ "--quiet" ∷ [])
    ++ proxy_args c
    ++ (url ∷ [])

abbrev pub streamlink_args : String → List String
streamlink_args url = "--stream-url" ∷ url ∷ "worst" ∷ []

-- `if info.LiveStatus == "is_live" { info.IsLive = true }`
abbrev pub with_live_status : StreamInfo → StreamInfo
with_live_status info = record info {
  is_live = if str_eq info.live_status "is_live" then true else info.is_live;
}

abbrev pub map_info : Option StreamInfo → Option StreamInfo
map_info none = none
map_info (some info) = some (with_live_status info)

abbrev pub is_live_answer : Option StreamInfo → Option (Bool × StreamInfo)
is_live_answer none = none
is_live_answer (some info) = some (info.is_live || str_eq info.live_status "is_live", info)

module _ (runner : Runner) (c : Client) where
  abbrev pub read_info : Option String → Option StreamInfo
  read_info none = none
  read_info (some out) = map_info (runner.unmarshal_info out)

  unfoldable pub get_stream_info : (stream_url : String) → Option StreamInfo
  get_stream_info url = read_info (runner.run c.ytdlp_path (info_args c url))

  unfoldable pub get_manifest_url_with_streamlink : (stream_url : String) → Option String
  get_manifest_url_with_streamlink url = elim (runner.run c.streamlink_path (streamlink_args url)) [
    | none ↦ none
    | some out ↦ if str_eq (runner.trim_space out) "" then none else some (runner.trim_space out)
  ]

  unfoldable pub get_manifest_url : (stream_url : String) → Option String
  get_manifest_url url = elim (runner.run c.ytdlp_path (manifest_args c url)) [
    | none ↦ get_manifest_url_with_streamlink url
    | some out ↦
        if str_eq (runner.trim_space out) ""
        then get_manifest_url_with_streamlink url
        else some (runner.trim_space out)
  ]

  unfoldable pub is_stream_live : (stream_url : String) → Option (Bool × StreamInfo)
  is_stream_live url = is_live_answer (get_stream_info url)

  -- The answer of a program, if it has one.
  abbrev pub answered : Option String → Option String
  answered none = none
  answered (some out) =
      if str_eq (runner.trim_space out) "" then none else some (runner.trim_space out)
