-- ===== src/Manifest/Mpd.antt =====
-- internal/manifest/manifest.go: the decoded DASH manifest, and the loop over a timeline. An `int64` is its
-- bits, a number below `2 ^ 64`.
use youtube_stream_tracker.Prelude.Int.{ℤ}
use youtube_stream_tracker.Prelude.{
  false, not, ◌%◌, [], ◌+◌, ◌∷◌, ◌^◌, ◌==◌, none, leb, List, some, Bool, String, Option, ℕ, ◌||◌,
  ◌*◌, if◌then◌else◌,
}

pub record TimelineS : Type 0 where
  pub t : ℕ
  pub d : ℕ
  pub r : ℕ

pub record SegmentTemplate : Type 0 where
  pub timescale : ℕ
  pub duration : ℕ
  pub start_number : ℕ
  pub media : String
  -- no timeline is the empty one
  pub timeline : List TimelineS

pub record Representation : Type 0 where
  pub id : String
  pub bandwidth : ℤ
  pub base_url : String
  pub segment_template : Option SegmentTemplate

pub record Mpd : Type 0 where
  pub base_url : String
  pub media_presentation_duration : String
  -- the representations of each adaptation set
  pub adaptation_sets : List (List Representation)

abbrev pub is_negative : ℕ → Bool
is_negative n = leb (2 ^ 63) n

-- `n <= 0`
abbrev pub is_not_positive : ℕ → Bool
is_not_positive n = n == 0 || is_negative n

-- The state of the loop over a timeline.
pub record Progress : Type 0 where
  pub current_time : ℕ
  pub time_value : ℕ
  pub duration : ℕ
  pub segments_count : ℕ

abbrev pub at_start : Progress
at_start = record { current_time = 0; time_value = 0; duration = 0; segments_count = 0 }

abbrev pub start_time : (first : Bool) (current_time : ℕ) → TimelineS → ℕ
start_time first current_time s = if not (s.t == 0) || first then s.t else current_time

abbrev pub repeat_of : TimelineS → ℕ
repeat_of s = if is_negative s.r then 0 else s.r

-- Sums and products of `int64` wrap around.
unfoldable pub advance_timeline : (first : Bool) → TimelineS → Progress → Progress
advance_timeline first s p =
    let current_time : ℕ = start_time first p.current_time s in
    let repeat : ℕ = repeat_of s in
    record {
      current_time = (current_time + s.d * (repeat + 1)) % 2 ^ 64;
      time_value = (current_time + s.d * repeat) % 2 ^ 64;
      duration = s.d;
      segments_count = (p.segments_count + 1 + repeat) % 2 ^ 64;
    }

-- A duration of 0 is an error.
unfoldable pub read_timeline : (first : Bool) → List TimelineS → Progress → Option Progress
read_timeline first [] p = some p
read_timeline first (s ∷ ss) p =
    let rest : Option Progress = read_timeline false ss (advance_timeline first s p) in
    if s.d == 0 then none else rest
