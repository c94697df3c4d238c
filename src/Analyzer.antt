-- ===== src/Analyzer.antt =====
-- internal/ffmpeg/ffmpeg.go: what the analyzer makes of ffmpeg's output. A number that an expression matches has
-- no sign; it is read as milliseconds, and a ratio is compared by its terms: the rounding of floats is left out.
pub mod Silence
pub mod Files
use youtube_stream_tracker.Prelude.{
  zero, suc, none, some, last_or, length, ltb, map, Option, List, String, ℕ, Bool, ◌&&◌, [],
  if◌then◌else◌, ◌-◌, ◌+◌, ◌*◌, ◌∷◌,
}

pub record BlackDetectResult : Type 0 where
  pub has_black_frames : Bool
  pub black_duration : ℕ
  pub black_start_time : ℕ
  pub total_duration : ℕ
  pub fully_black : Bool

pub record SilenceDetectResult : Type 0 where
  pub has_silence : Bool
  pub silence_duration : ℕ
  pub silence_start_time : ℕ
  pub total_duration : ℕ
  pub fully_silent : Bool

-- The programs, where `none` is a program that fails, and what is used of the packages regexp and strconv:
-- `find_all` gives the matches of an expression in a text, each with its groups behind it, and `parse_float` the
-- milliseconds of a number of seconds, 0 where it is none.
pub record Programs : Type 0 where
  pub ffprobe_duration : (path : String) → Option ℕ
  -- what ffmpeg writes to stderr
  pub blackdetect : (path : String) → Option String
  pub silencedetect : (path : String) → Option String
  pub find_all : (expression text : String) → List (List String)
  pub parse_float : String → ℕ

abbrev pub sum : List ℕ → ℕ
sum [] = 0
sum (x ∷ xs) = x + sum xs

-- More than 90 percent of a duration that is not 0.
unfoldable pub is_full : (part total : ℕ) → Bool
is_full part total = ltb 0 total && ltb (9 * total) (10 * part)

abbrev pub first_or : ℕ → List ℕ → ℕ
first_or x [] = x
first_or x (y ∷ ys) = y

unfoldable pub black_result : (total_duration : ℕ) → List (ℕ × ℕ) → BlackDetectResult
black_result total_duration matches =
    let black : ℕ = sum (map (λ m. m.1) matches) in
    record {
      has_black_frames = ltb 0 (length matches);
      black_duration = black;
      black_start_time = first_or 0 (map (λ m. m.0) matches);
      total_duration = total_duration;
      fully_black = is_full black total_duration;
    }

-- A group of a match.
abbrev pub group : ℕ → List String → String
group n [] = ""
group zero (x ∷ xs) = x
group (suc n) (x ∷ xs) = group n xs

abbrev pub numbers : Programs → (n : ℕ) → List (List String) → List ℕ
numbers programs n matches = map (λ m. programs.parse_float (group n m)) matches

-- The start and the duration of each black part.
unfoldable pub black_parts : Programs → (stderr : String) → List (ℕ × ℕ)
black_parts programs stderr =
    map (λ m. (programs.parse_float (group 1 m), programs.parse_float (group 3 m)))
      (programs.find_all "black_start:([0-9.]+)\\s+black_end:([0-9.]+)\\s+black_duration:([0-9.]+)"
        stderr)

-- The starts of the silences: one with a sign does not match.
unfoldable pub silence_starts : Programs → (stderr : String) → List ℕ
silence_starts programs stderr =
    numbers programs 1 (programs.find_all "silence_start:\\s*([0-9.]+)" stderr)

-- The durations of the silences that end.
unfoldable pub silence_durations : Programs → (stderr : String) → List ℕ
silence_durations programs stderr =
    numbers programs 2 (
      programs.find_all "silence_end:\\s*([0-9.]+)\\s*\\|\\s*silence_duration:\\s*([0-9.]+)" stderr)

-- The silence that goes on to the end of the file: `time` is 0 where it starts after the end.
unfoldable pub unfinished_silence : (total_duration : ℕ) → (starts ends : List ℕ) → ℕ
unfinished_silence total_duration starts ends =
    if ltb (length ends) (length starts) then total_duration - last_or 0 starts else 0

unfoldable pub silence_result : (total_duration : ℕ) → (starts ends : List ℕ) → SilenceDetectResult
silence_result total_duration starts ends =
    let silence : ℕ = sum ends + unfinished_silence total_duration starts ends in
    record {
      has_silence = ltb 0 (length starts);
      silence_duration = silence;
      silence_start_time = first_or 0 starts;
      total_duration = total_duration;
      fully_silent = is_full silence total_duration;
    }

unfoldable pub detect_black :
    Programs → (path : String) → (total_duration : ℕ) → Option BlackDetectResult
detect_black programs path total_duration = elim (programs.blackdetect path) [
  | none ↦ none
  | some stderr ↦ some (black_result total_duration (black_parts programs stderr))
]

unfoldable pub detect_silence :
    Programs → (path : String) → (total_duration : ℕ) → Option SilenceDetectResult
detect_silence programs path total_duration = elim (programs.silencedetect path) [
  | none ↦ none
  | some stderr ↦ some (
      silence_result total_duration (silence_starts programs stderr)
        (silence_durations programs stderr))
]

unfoldable pub analyze_segment :
    Programs → (path : String) → Option (BlackDetectResult × SilenceDetectResult)
analyze_segment programs path = elim (programs.ffprobe_duration path) [
  | none ↦ none
  | some duration ↦ elim (detect_black programs path duration) [
    | none ↦ none
    | some black ↦ elim (detect_silence programs path duration) [
      | none ↦ none
      | some silence ↦ some (black, silence)
    ]
  ]
]
