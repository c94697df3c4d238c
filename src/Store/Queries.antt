-- ===== src/Store/Queries.antt =====
-- internal/k8s/store/store.go: the reads, from the informer's cache. The cache's contents, in the
-- order in which the indexer lists them, are an argument; so is Go's `sort.Slice` by creation time.
pub mod Pages
use youtube_stream_tracker.Store.Objects.{to_stats, to_monitor, Object}
use youtube_stream_tracker.Model.{status_eq, MonitorWithStats, Monitor, MonitorStatus}
use youtube_stream_tracker.Prelude.Int.{ltb_ℤ, pos_part, pos, leb_ℤ, ℤ}
use youtube_stream_tracker.Prelude.{
  drop, take, some, ltb, false, not, str_eq, map, length, none, Bool, ℕ, Option, List, String, ◌∷◌,
  ◌&&◌, [], ◌+◌, ◌-◌, if◌then◌else◌, ◌++◌,
}

-- `phaseIndexFunc`: an object stands in the index under its phase, unless that is absent or empty.
abbrev pub is_empty_status : MonitorStatus → Bool
is_empty_status (MonitorStatus.other s) = str_eq s ""
is_empty_status _ = false

unfoldable pub in_phase_index : MonitorStatus → Object → Bool
in_phase_index s o = elim o.status.phase [
  | none ↦ false
  | some p ↦ not (is_empty_status p) && status_eq p s
]

-- `ByIndex(indexPhase, …)`.
unfoldable pub by_phase : MonitorStatus → List Object → List Object
by_phase s [] = []
by_phase s (o ∷ os) =
    let rest : List Object = by_phase s os in if in_phase_index s o then o ∷ rest else rest

-- `ByIndex(indexStreamURLHash, …)`; an object without a hash stands in no index.
unfoldable pub by_hash : String → List Object → List Object
by_hash h [] = []
by_hash h (o ∷ os) =
    let rest : List Object = by_hash h os in
    if not (str_eq o.stream_url_hash "") && str_eq o.stream_url_hash h then o ∷ rest else rest

-- `getFromCache`.
unfoldable pub get_from_cache : String → List Object → Option Object
get_from_cache id [] = none
get_from_cache id (o ∷ os) =
    let rest : Option Object = get_from_cache id os in if str_eq o.name id then some o else rest

unfoldable pub get_by_id : String → List Object → Option Monitor
get_by_id id cache = elim (get_from_cache id cache) [ none ↦ none | some o ↦ some (to_monitor o) ]

unfoldable pub get_with_stats : String → List Object → Option MonitorWithStats
get_with_stats id cache = elim (get_from_cache id cache) [
  | none ↦ none
  | some o ↦ some (record { monitor = to_monitor o; stats = some (to_stats o) })
]

unfoldable pub active_objects : List Object → List Object
active_objects cache =
    by_phase MonitorStatus.initializing cache
    ++ (by_phase MonitorStatus.waiting cache ++ by_phase MonitorStatus.monitoring cache)

unfoldable pub get_active_monitors :
    (oldest_first : List Monitor → List Monitor) → List Object → List Monitor
get_active_monitors oldest_first cache = oldest_first (map to_monitor (active_objects cache))

unfoldable pub count_active_monitors : List Object → ℕ
count_active_monitors cache =
    length (by_phase MonitorStatus.initializing cache)
    + length (by_phase MonitorStatus.waiting cache)
    + length (by_phase MonitorStatus.monitoring cache)

pub record ListParams : Type 0 where
  pub status : Option MonitorStatus
  pub limit : ℤ
  pub offset : ℤ

-- The limit as `List` corrects it.
unfoldable pub clamp_limit : ℤ → ℕ
clamp_limit limit =
    if leb_ℤ limit (pos 0) then 50 else (if ltb_ℤ (pos 100) limit then 100 else pos_part limit)

-- `monitors[start:end]`.
unfoldable pub page : ListParams → List Monitor → List Monitor
page p monitors =
    let total : ℕ = length monitors in
    let start : ℕ = if ltb total (pos_part p.offset) then total else pos_part p.offset in
    let last : ℕ = start + clamp_limit p.limit in
    let end' : ℕ = if ltb total last then total else last in
    take (end' - start) (drop start monitors)

-- The objects that `List` reads: those of one phase, or all.
abbrev pub objects_listed : ListParams → List Object → List Object
objects_listed p cache = elim p.status [ none ↦ cache | some s ↦ by_phase s cache ]

-- `List`: the page, and the number of all that match.
unfoldable pub list :
    (newest_first : List Monitor → List Monitor) → ListParams → List Object → List Monitor × ℕ
list newest_first p cache =
    let monitors : List Monitor = newest_first (map to_monitor (objects_listed p cache)) in
    (page p monitors, length monitors)
