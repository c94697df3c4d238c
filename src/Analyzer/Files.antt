-- ===== src/Analyzer/Files.antt =====
-- internal/ffmpeg/ffmpeg.go: the analyzer's settings, the duration of a file, and the files of the segments.
-- A file system is the files by their paths, of which the first of a path counts.
use youtube_stream_tracker.Prelude.Int.{negsuc, pos, ℤ}
use youtube_stream_tracker.Middleware.Keys.{true≢false}
use youtube_stream_tracker.Prelude.{
  ◌&&◌, inr, eq_iff, inl, eq_refl, Bool-cases, sym, ap, ◌≢◌, ◌∙◌, arith, ◌==◌, not, false, true,
  str_append, Bool, Option, str_eq, ℕ, String, List, ◌≡◌, [], if◌then◌else◌, refl, ◌∷◌, none, some,
}

pub record Analyzer : Type 0 where
  pub ffmpeg_path : String
  pub ffprobe_path : String
  pub tmp_dir : String
  pub silence_db_threshold : ℤ

abbrev pub or_default : String → String → String
or_default s d = if str_eq s "" then d else s

-- The threshold in whole decibels.
unfoldable pub new_analyzer : (ffmpeg_path ffprobe_path tmp_dir : String) → ℤ → Analyzer
new_analyzer ffmpeg_path ffprobe_path tmp_dir silence_db_threshold = record {
  ffmpeg_path = or_default ffmpeg_path "ffmpeg";
  ffprobe_path = or_default ffprobe_path "ffprobe";
  tmp_dir = tmp_dir;
  silence_db_threshold = elim silence_db_threshold [
    | pos n ↦ if n == 0 then negsuc 49 else pos n
    | negsuc n ↦ negsuc n
  ];
}

abbrev pub duration_args : String → List String
duration_args path =
    "-v" ∷ "error" ∷ "-show_entries" ∷ "format=duration" ∷ "-of"
    ∷ "default=noprint_wrappers=1:nokey=1" ∷ path ∷ []

-- `run` gives the standard output of a program, or `none` where it fails.
unfoldable pub get_duration :
    {F : Type 0} (run : (program : String) → (args : List String) → Option String)
    (trim_space : String → String) (parse_float : String → Option F)
    → Analyzer
    → (path : String) → Option F
get_duration run trim_space parse_float a path = elim (run a.ffprobe_path (duration_args path)) [
  | none ↦ none
  | some out ↦ parse_float (trim_space out)
]

abbrev pub Files : Type 0
Files = List (String × String)

abbrev pub read_file : String → Files → Option String
read_file path [] = none
read_file path ((p, bytes) ∷ fs) =
    let rest : Option String = read_file path fs in if str_eq path p then some bytes else rest

-- `os.Remove` and `os.RemoveAll`: the files but those that a test finds.
abbrev pub remove_files : (String → Bool) → Files → Files
remove_files gone [] = []
remove_files gone ((p, bytes) ∷ fs) =
    let rest : Files = remove_files gone fs in if gone p then rest else (p, bytes) ∷ rest

-- The parts of package os and path/filepath: `is_below` is whether a path lies in a directory, and
-- `can_make`, `can_write` and `can_remove` are whether the calls go well.
pub record Disk : Type 0 where
  pub join : (dir name : String) → String
  pub is_below : (dir path : String) → Bool
  pub can_make : (dir : String) → Bool
  pub can_write : (path : String) → Bool
  -- what is at a path after a write that failed, if it is more than before
  pub partly : (path bytes : String) → Option String
  pub can_remove : (path : String) → Bool
  pub format : ℕ → String

not-same : (b : Bool) → b ≢ not b
not-same true h = true≢false h
not-same false h = true≢false (sym h)

read-kept :
    (g s : Bool) (path p bytes : String) (fs : Files) (r : Option String)
    → (g ≡ true → s ≡ false)
    → str_eq path p ≡ s
    → read_file path fs ≡ r
    → read_file path (if g then fs else (p, bytes) ∷ fs) ≡ (if s then some bytes else r)
read-kept true true path p bytes fs r only e h = absurd (true≢false (only refl))
read-kept true false path p bytes fs r only e h = h
read-kept false s path p bytes fs r only e h = rw (e, h) refl

-- A path that a test tells from another is another path.
told_apart :
    (gone : String → Bool) (p q : String) (b : Bool)
    → gone p ≡ b
    → gone q ≡ not b
    → str_eq p q ≡ false
told_apart gone p q b h k = elim (Bool-cases (str_eq p q)) [
  | inl e ↦ absurd (not-same b (sym h ∙ ap gone ((eq_iff p q).0 e) ∙ k))
  | inr e ↦ e
]

read-remove :
    (gone : String → Bool) (path : String) (fs : Files)
    → gone path ≡ false
    → read_file path (remove_files gone fs) ≡ read_file path fs
read-remove gone path [] h = refl
read-remove gone path ((p, bytes) ∷ fs) h =
    read-kept (gone p) (str_eq path p) path p bytes (remove_files gone fs) (read_file path fs)
      (λ g. told_apart gone path p false h g) refl (read-remove gone path fs h)

removed-by :
    (g : Bool) (path p bytes : String) (fs : Files)
    → (g ≡ false → str_eq path p ≡ false)
    → read_file path fs ≡ none
    → read_file path (if g then fs else (p, bytes) ∷ fs) ≡ none
removed-by true path p bytes fs apart h = h
removed-by false path p bytes fs apart h = rw (apart refl, h) refl

read-removed :
    (gone : String → Bool) (path : String) (fs : Files)
    → gone path ≡ true
    → read_file path (remove_files gone fs) ≡ none
read-removed gone path [] h = refl
read-removed gone path ((p, bytes) ∷ fs) h =
    removed-by (gone p) path p bytes (remove_files gone fs) (λ g. told_apart gone path p true h g)
      (read-removed gone path fs h)

saved-by :
    (made written : Bool) (path p bytes : String) (fs part saved : Files)
    → (let outcome : Option String × Files =
          if not made
          then (none, fs)
          else if not written
          then (none, part)
          else (some p, (p, bytes) ∷ fs) in
        outcome ≡ (some path, saved))
    → (path ≡ p) × (saved ≡ (path, bytes) ∷ fs)
saved-by false w path p bytes fs part saved h = absurd grind arith
saved-by true false path p bytes fs part saved h = absurd grind arith
saved-by true true path p bytes fs part saved h = (grind arith, grind arith)

module _ (disk : Disk) (a : Analyzer) where
  abbrev pub segment_dir : (monitor_id : String) → String
  segment_dir monitor_id = disk.join a.tmp_dir monitor_id

  abbrev pub segment_path : (monitor_id : String) → (nanoseconds : ℕ) → String
  segment_path monitor_id nanoseconds =
      disk.join (segment_dir monitor_id)
        (str_append "segment_" (str_append (disk.format nanoseconds) ".ts"))

  -- A write that fails may leave a part.
  abbrev partly_written : (path bytes : String) → Files → Files
  partly_written path bytes fs = elim (disk.partly path bytes) [
    | none ↦ fs
    | some part ↦ (path, part) ∷ fs
  ]

  unfoldable pub save_segment :
      (monitor_id : String) → (nanoseconds : ℕ) → (bytes : String) → Files → Option String × Files
  save_segment monitor_id nanoseconds bytes fs =
      if not (disk.can_make (segment_dir monitor_id))
      then (none, fs)
      else if not (disk.can_write (segment_path monitor_id nanoseconds))
      then (none, partly_written (segment_path monitor_id nanoseconds) bytes fs)
      else (
        some (segment_path monitor_id nanoseconds),
        (segment_path monitor_id nanoseconds, bytes) ∷ fs,
      )

  -- `true` is no error.
  unfoldable pub cleanup_segment : (path : String) → Files → Bool × Files
  cleanup_segment path fs =
      if disk.can_remove path then (true, remove_files (str_eq path) fs) else (false, fs)

  -- Where the directory cannot be removed, the files that can be are gone all the same.
  unfoldable pub cleanup_monitor : (monitor_id : String) → Files → Bool × Files
  cleanup_monitor monitor_id fs =
      let below : String → Bool = disk.is_below (segment_dir monitor_id) in
      if disk.can_remove (segment_dir monitor_id)
      then (true, remove_files below fs)
      else (false, remove_files (λ path. below path && disk.can_remove path) fs)

  -- A segment that is saved at a path can be read there, and every other file is as it was. Where its removal
  -- reports no error the file is gone, and whether it does or not, every other file is as it was.
  save_segment-cleanup_segment :
      (monitor_id : String) (nanoseconds : ℕ) (bytes path : String) (fs saved : Files)
      → save_segment monitor_id nanoseconds bytes fs ≡ (some path, saved)
      → (other : String) → str_eq path other ≡ false
      → (read_file path saved ≡ some bytes)
        × (read_file other saved ≡ read_file other fs)
        × ((cleanup_segment path saved).0 ≡ true
            → read_file path (cleanup_segment path saved).1 ≡ none)
        × (read_file other (cleanup_segment path saved).1 ≡ read_file other fs)
  unfolding save_segment cleanup_segment
  save_segment-cleanup_segment monitor_id nanoseconds bytes path fs saved h other apart =
      let (_, e) =
        saved-by (disk.can_make (segment_dir monitor_id))
          (disk.can_write (segment_path monitor_id nanoseconds)) path
          (segment_path monitor_id nanoseconds) bytes fs
          (partly_written (segment_path monitor_id nanoseconds) bytes fs) saved h in
      let here = ap (read_file path) e ∙ rw (eq_refl path) refl in
      let there =
        ap (read_file other) e
        ∙ rw (told_apart (str_eq path) other path false apart (eq_refl path)) refl in
      elim (Bool-cases (disk.can_remove path)) [
        | inl r ↦
            rw (cleanup_segment, r)
              (
                here,
                there,
                λ k. read-removed (str_eq path) path saved (eq_refl path),
                read-remove (str_eq path) other saved apart ∙ there,
              )
        | inr r ↦ rw (cleanup_segment, r) (here, there, λ k. absurd (true≢false (sym k)), there)
      ]

  -- Where the removal of a monitor's files reports no error, every file below its directory is gone, and no
  -- other.
  cleanup_monitor-below :
      (monitor_id path : String) (fs : Files)
      → disk.can_remove (segment_dir monitor_id) ≡ true
      → read_file path (cleanup_monitor monitor_id fs).1
        ≡ (if disk.is_below (segment_dir monitor_id) path then none else read_file path fs)
  unfolding cleanup_monitor
  cleanup_monitor-below monitor_id path fs can =
      let below : String → Bool = disk.is_below (segment_dir monitor_id) in
      elim (Bool-cases (disk.is_below (segment_dir monitor_id) path)) [
        | inl e ↦ rw (cleanup_monitor, can, e) (read-removed below path fs e)
        | inr e ↦ rw (cleanup_monitor, can, e) (read-remove below path fs e)
      ]
