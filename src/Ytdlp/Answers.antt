-- ===== src/Ytdlp/Answers.antt =====
-- internal/ytdlp/ytdlp.go: what the worker may rely on in the answers.
use youtube_stream_tracker.Ytdlp.{
  streamlink_args, read_info, manifest_args, is_live_answer, info_args, answered,
  get_manifest_url_with_streamlink, StreamInfo, Client, Runner, is_stream_live, get_stream_info,
  map_info, get_manifest_url,
}
use youtube_stream_tracker.Middleware.Keys.{true≢false}
use youtube_stream_tracker.Prelude.{
  inr, inl, eq_iff, sym, subst, Bool-cases, get_or, false, ap, or_else, ◌∙◌, ◌≢◌, refl, arith, ◌≡◌,
  ◌⊎◌, Option, true, str_eq, String, Bool, if◌then◌else◌, ◌||◌, none, some,
}

nonempty-by : (b : Bool) (t : String) → str_eq t "" ≡ b → (if b then none else some t) ≢ some ""
nonempty-by true t e h = grind arith
nonempty-by false t e h = true≢false (sym ((eq_iff t "").1 (ap (λ o. get_or o t) h)) ∙ e)

or_else-nonempty : (a b : Option String) → a ≢ some "" → b ≢ some "" → or_else a b ≢ some ""
or_else-nonempty none b x y h = y h
or_else-nonempty (some u) b x y h = x h

abbrev IsLiveAnswer : Bool × StreamInfo → Type 0
IsLiveAnswer (b, info) = (b ≡ info.is_live) × ((b ≡ true) ⊎ (info.live_status ≢ "is_live"))

says_live : (d live : Bool) → ((if d then true else live) || d) ≡ (if d then true else live)
says_live true live = refl
says_live false true = refl
says_live false false = refl

is_live_answer-IsLiveAnswer :
    (o : Option StreamInfo) (p : Bool × StreamInfo)
    → is_live_answer (map_info o) ≡ some p
    → IsLiveAnswer p
is_live_answer-IsLiveAnswer none p h = absurd grind arith
is_live_answer-IsLiveAnswer (some raw) p h = subst IsLiveAnswer (ap (λ o. get_or o p) h) (
  says_live (str_eq raw.live_status "is_live") raw.is_live,
  elim (Bool-cases (str_eq raw.live_status "is_live")) [
    | inl e ↦ inl (rw (e) refl)
    | inr e ↦ inr (λ h. true≢false (sym ((eq_iff raw.live_status "is_live").1 h) ∙ e))
  ],
)

module _ (runner : Runner) (c : Client) where
  answered-by :
      (b : Bool) (t : String) (rest : Option String)
      → (if b then rest else some t) ≡ or_else (if b then none else some t) rest
  answered-by true t rest = refl
  answered-by false t rest = refl

  streamlink-answered :
      (out : Option String)
      → (elim out [
        | none ↦ none
        | some o ↦ if str_eq (runner.trim_space o) "" then none else some (runner.trim_space o)
      ])
        ≡ answered runner c out
  streamlink-answered none = refl
  streamlink-answered (some o) = refl

  ytdlp-answered :
      (out rest : Option String)
      → (elim out [
        | none ↦ rest
        | some o ↦ if str_eq (runner.trim_space o) "" then rest else some (runner.trim_space o)
      ])
        ≡ or_else (answered runner c out) rest
  ytdlp-answered none rest = refl
  ytdlp-answered (some o) rest =
      answered-by (str_eq (runner.trim_space o) "") (runner.trim_space o) rest

  answered-nonempty : (out : Option String) → answered runner c out ≢ some ""
  answered-nonempty none h = grind arith
  answered-nonempty (some o) h =
      nonempty-by (str_eq (runner.trim_space o) "") (runner.trim_space o) refl h

  -- The manifest's URL is what yt-dlp prints, and where that program fails or prints nothing but spaces,
  -- what streamlink prints; it is never empty.
  pub get_manifest_url-answered :
      (url : String)
      → (get_manifest_url runner c url
          ≡ or_else
              (answered runner c (runner.run c.ytdlp_path (manifest_args c url)))
              (answered runner c (runner.run c.streamlink_path (streamlink_args url))))
        × (get_manifest_url runner c url ≢ some "")
  unfolding get_manifest_url get_manifest_url_with_streamlink
  get_manifest_url-answered url =
      let e =
        ytdlp-answered (runner.run c.ytdlp_path (manifest_args c url)) _
        ∙ ap (or_else (answered runner c (runner.run c.ytdlp_path (manifest_args c url))))
            (streamlink-answered (runner.run c.streamlink_path (streamlink_args url))) in
      (
        e,
        λ h.
            or_else-nonempty (answered runner c (runner.run c.ytdlp_path (manifest_args c url)))
              (answered runner c (runner.run c.streamlink_path (streamlink_args url)))
              (answered-nonempty _) (answered-nonempty _) (sym e ∙ h),
      )

  stream_live-IsLiveAnswer :
      (out : Option String) (p : Bool × StreamInfo)
      → is_live_answer (read_info runner c out) ≡ some p
      → IsLiveAnswer p
  stream_live-IsLiveAnswer none p h = absurd grind arith
  stream_live-IsLiveAnswer (some o) p h = is_live_answer-IsLiveAnswer (runner.unmarshal_info o) p h

  -- Where the stream's information is found, the stream counts as live just when the information says so,
  -- and it does where its status is is_live.
  pub is_stream_live-live :
      (url : String) (b : Bool) (info : StreamInfo)
      → is_stream_live runner c url ≡ some (b, info)
      → (b ≡ info.is_live) × ((b ≡ true) ⊎ (info.live_status ≢ "is_live"))
  unfolding is_stream_live get_stream_info
  is_stream_live-live url b info h =
      stream_live-IsLiveAnswer (runner.run c.ytdlp_path (info_args c url)) (b, info) h
