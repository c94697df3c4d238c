-- ===== src/Watcher/Earned.antt =====
-- internal/k8s/watcher.go: for which monitors the sessions of the watcher send webhooks.
use youtube_stream_tracker.Model.{Monitor, MonitorStatus, is_active}
use youtube_stream_tracker.Store.Api.{Server}
use youtube_stream_tracker.Store.Objects.{Object}
use youtube_stream_tracker.Store.Queries.{get_by_id}
use youtube_stream_tracker.Store.Writes.Conditions.{Swapped}
use youtube_stream_tracker.Watcher.{PodEvent}
use youtube_stream_tracker.Prelude.{List, true, some, ◌≡◌}

-- The monitor was active in a cache, under the name that a pod gave, and the watcher's own compare-and-set
-- turned that status into an error on the server.
pub record IsEarned (api : Server) (m : Monitor) : Type 0 where
  pub pod : PodEvent
  pub cache : List Object
  pub before : api.S
  pub after : api.S
  pub was_cached : get_by_id pod.monitor_id cache ≡ some m
  pub was_active : is_active m.status ≡ true
  pub was_swapped : Swapped api pod.monitor_id m.status MonitorStatus.error before after
