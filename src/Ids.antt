-- ===== src/Ids.antt =====
-- internal/ids/ids.go: the identifiers of monitors.
use youtube_stream_tracker.Prelude.{
  slice-append_right, ◌∙◌, len-append, ap, arith, slice, str_eq, slice-append_left, not, false, len,
  ltb, str_append, Bool, String, if◌then◌else◌, ◌≡◌,
}

abbrev pub monitor_prefix : String
monitor_prefix = "mon-"

-- `new_v7` is the text of a new UUID.
unfoldable pub new_monitor_id : (new_v7 : String) → String
new_monitor_id new_v7 = str_append monitor_prefix new_v7

-- `parses` is whether `uuid.Parse` succeeds.
unfoldable pub is_valid_monitor_id : (parses : String → Bool) → (id : String) → Bool
is_valid_monitor_id parses id =
    if ltb (len id) (len monitor_prefix)
    then false
    else if not (str_eq (slice id 0 (len monitor_prefix)) monitor_prefix)
    then false
    else parses (slice id (len monitor_prefix) (len id))

long : (s t : String) → ltb (len (str_append s t)) (len s) ≡ false
long s t = rw (len-append s t) (ground arith)

-- A new identifier is valid just when the text of its UUID parses as one.
pub is_valid_monitor_id-new_monitor_id :
    (parses : String → Bool) (new_v7 : String)
    → is_valid_monitor_id parses (new_monitor_id new_v7) ≡ parses new_v7
unfolding is_valid_monitor_id new_monitor_id
is_valid_monitor_id-new_monitor_id parses new_v7 =
    rw (long monitor_prefix new_v7, slice-append_left monitor_prefix new_v7)
      (ap parses (
        ap (slice (str_append monitor_prefix new_v7) 4) (len-append monitor_prefix new_v7)
        ∙ slice-append_right monitor_prefix new_v7))
