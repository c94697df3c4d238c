-- ===== src/Manifest/Dash.antt =====
-- internal/manifest/manifest.go: the latest segment of a DASH manifest.
use youtube_stream_tracker.Manifest.Mpd.{
  at_start, read_timeline, Progress, SegmentTemplate, Mpd, is_not_positive, Representation,
}
use youtube_stream_tracker.Prelude.Int.{ltb_ℤ, ℤ}
use youtube_stream_tracker.Prelude.{
  str_append, not, true, ◌%◌, ◌-◌, [], ◌+◌, ◌∷◌, ◌^◌, ◌==◌, none, List, some, Bool, str_eq, String,
  Option, ℕ, ◌||◌, ◌*◌, if◌then◌else◌,
}

-- `float64`, the expressions of the durations, and the URLs. `days_only` gives the group of
-- mpdDurationDaysOnlyPattern, and `parts` the four of mpdDurationPattern.
pub record Formats : Type 1 where
  pub F : Type 0
  pub ends_with : String → String → Bool
  pub zero_f : F
  pub add : F → F → F
  pub times : F → ℕ → F
  pub divide : F → F → F
  pub from_int64 : ℕ → F
  pub is_positive : F → Bool
  -- `int64(math.Ceil(x))`
  pub ceil_int64 : F → ℕ
  pub parse_float : String → Option F
  pub days_only : String → Option String
  pub parts : String → Option (String × String × String × String)
  pub fetch : (url : String) → Option Mpd
  pub Url : Type 0
  pub parse_url : String → Option Url
  pub path : Url → String
  -- `path.Dir`
  pub dir : String → String
  -- the URL with another path, and without a query and a fragment
  pub with_path : Url → (path : String) → String
  pub resolve_reference : Url → (ref : String) → Option String
  pub resolve : (base uri : String) → Option String
  -- `dashTemplatePattern.ReplaceAllStringFunc`
  pub replace_fields : (String → String) → String → String
  pub format_uint : ℕ → String
  pub format_int : ℕ → String
  pub format_bandwidth : ℤ → String

module _ (formats : Formats) where
  -- A part of a duration, in seconds, added to the total; an absent part is the empty text.
  unfoldable pub add_part :
      (text : String) (scale : formats.F → formats.F) → formats.F → Option formats.F
  add_part text scale total =
      if str_eq text "" then some total else elim (formats.parse_float text) [
        | none ↦ none
        | some x ↦ some (formats.add total (scale x))
      ]

  abbrev pub positive : formats.F → Option formats.F
  positive total = if formats.is_positive total then some total else none

  abbrev pub then_part :
      (text : String) (scale : formats.F → formats.F) → Option formats.F → Option formats.F
  then_part text scale none = none
  then_part text scale (some total) = add_part text scale total

  unfoldable pub parse_parts : String × String × String × String → Option formats.F
  parse_parts (days, hours, minutes, seconds) =
      let days_read : Option formats.F =
        add_part days (λ x. formats.times (formats.times x 24) 3600) formats.zero_f in
      let hours_read : Option formats.F = then_part hours (λ x. formats.times x 3600) days_read in
      let minutes_read : Option formats.F =
        then_part minutes (λ x. formats.times x 60) hours_read in
      elim (then_part seconds (λ x. x) minutes_read) [ none ↦ none | some total ↦ positive total ]

  unfoldable pub parse_mpd_duration : Mpd → Option formats.F
  parse_mpd_duration mpd =
      if str_eq mpd.media_presentation_duration ""
      then none
      else elim (formats.days_only mpd.media_presentation_duration) [
        | some days ↦ elim (formats.parse_float days) [
          | none ↦ none
          | some x ↦ positive (formats.times (formats.times x 24) 3600)
        ]
        | none ↦ elim (formats.parts mpd.media_presentation_duration) [
          | none ↦ none
          | some groups ↦ parse_parts groups
        ]
      ]

  -- The first of the lowest bandwidth among those with a template; `chosen` is the one found so far.
  unfoldable pub choose :
      (chosen : Option (Representation × SegmentTemplate))
      → List Representation
      → Option (Representation × SegmentTemplate)
  choose chosen [] = chosen
  choose chosen (rep ∷ reps) = elim rep.segment_template [
    | none ↦ choose chosen reps
    | some template ↦ elim chosen [
      | none ↦ choose (some (rep, template)) reps
      | some (best, t) ↦
          choose (some (if ltb_ℤ rep.bandwidth best.bandwidth then (rep, template) else (best, t)))
            reps
    ]
  ]

  unfoldable pub choose_in :
      (chosen : Option (Representation × SegmentTemplate))
      → List (List Representation)
      → Option (Representation × SegmentTemplate)
  choose_in chosen [] = chosen
  choose_in chosen (set ∷ sets) = choose_in (choose chosen set) sets

  unfoldable pub select_segment_template : Mpd → Option (Representation × SegmentTemplate)
  select_segment_template mpd = elim (choose_in none mpd.adaptation_sets) [
    | none ↦ none
    | some (rep, template) ↦ if str_eq template.media "" then none else some (rep, template)
  ]

  abbrev pub directory_path : String → String
  directory_path dir =
      if str_eq dir "/" || formats.ends_with dir "/" then dir else str_append dir "/"

  unfoldable pub resolve_dash_base_url :
      Mpd → Representation → (manifest_url : String) → Option String
  resolve_dash_base_url mpd rep manifest_url = elim (formats.parse_url manifest_url) [
    | none ↦ none
    | some base ↦
        if not (str_eq rep.base_url "")
        then formats.resolve_reference base rep.base_url
        else if not (str_eq mpd.base_url "")
        then formats.resolve_reference base mpd.base_url
        else some (formats.with_path base (directory_path (formats.dir (formats.path base))))
  ]

  abbrev pub timescale_of : SegmentTemplate → ℕ
  timescale_of template = if is_not_positive template.timescale then 1 else template.timescale

  unfoldable pub estimate_segment_count : SegmentTemplate → Mpd → Option ℕ
  estimate_segment_count template mpd =
      if is_not_positive template.duration then none else elim (parse_mpd_duration mpd) [
        | none ↦ none
        | some total ↦
            let length : formats.F =
              formats.divide (formats.from_int64 template.duration)
                (formats.from_int64 (timescale_of template)) in
            let segments : ℕ = formats.ceil_int64 (formats.divide total length) in
            if formats.is_positive length
            then some (if is_not_positive segments then 1 else segments)
            else none
      ]

  abbrev pub field : Representation → (number time_value : ℕ) → String → String
  field rep number time_value match =
      if str_eq match "$Number$"
      then formats.format_uint number
      else if str_eq match "$Time$"
      then formats.format_int time_value
      else if str_eq match "$RepresentationID$"
      then rep.id
      else if str_eq match "$Bandwidth$"
      then formats.format_bandwidth rep.bandwidth
      else match

  unfoldable pub fill_segment_template :
      (base_url media : String) → Representation → (number time_value : ℕ) → Option String
  fill_segment_template base_url media rep number time_value =
      formats.resolve base_url (formats.replace_fields (field rep number time_value) media)

  -- From a timeline, or from the length of the presentation.
  unfoldable pub count_segments : SegmentTemplate → Mpd → Option Progress
  count_segments template mpd = elim template.timeline [
    | s ∷ ss ↦ read_timeline true (s ∷ ss) at_start
    | [] ↦ if template.duration == 0 then none else elim (estimate_segment_count template mpd) [
      | none ↦ none
      | some segments ↦ some (record {
        current_time = 0;
        time_value = (segments + 2 ^ 64 - 1) * template.duration % 2 ^ 64;
        duration = template.duration;
        segments_count = segments;
      })
    ]
  ]

  unfoldable pub segment_number : (start_number segments_count : ℕ) → ℕ
  segment_number start_number segments_count =
      let start : ℕ = if start_number == 0 then 1 else start_number in
      let segments : ℕ = if is_not_positive segments_count then 1 else segments_count in
      let number : ℕ = (start + segments + 2 ^ 64 - 1) % 2 ^ 64 in
      if is_not_positive number then 1 else number

  -- The URL, the duration in seconds and the number.
  unfoldable pub build_latest_dash_segment :
      (base_url : String) → SegmentTemplate → Representation → Mpd → Option (String × formats.F × ℕ)
  build_latest_dash_segment base_url template rep mpd = elim (count_segments template mpd) [
    | none ↦ none
    | some p ↦
        let number : ℕ = segment_number template.start_number p.segments_count in
        elim (fill_segment_template base_url template.media rep number p.time_value) [
          | none ↦ none
          | some url ↦ some (
            url,
            formats.divide (formats.from_int64 p.duration)
                (formats.from_int64 (timescale_of template)),
            number,
          )
        ]
  ]

  unfoldable pub get_latest_dash_segment : (manifest_url : String) → Option (String × formats.F × ℕ)
  get_latest_dash_segment manifest_url = elim (formats.fetch manifest_url) [
    | none ↦ none
    | some mpd ↦ elim (select_segment_template mpd) [
      | none ↦ none
      | some (rep, template) ↦ elim (resolve_dash_base_url mpd rep manifest_url) [
        | none ↦ none
        | some base ↦ build_latest_dash_segment base template rep mpd
      ]
    ]
  ]
