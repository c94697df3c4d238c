-- ===== src/Handlers/Listing.antt =====
-- internal/api/handlers.go: ListMonitors, over the pages of the store.
use youtube_stream_tracker.Handlers.Internal.{is_valid_monitor_status}
use youtube_stream_tracker.Handlers.{validation_error, monitors_listed, Response, Handler}
use youtube_stream_tracker.Prelude.Int.{negsuc, ◌≤ℤ◌, ltb_ℤ, leb_ℤ, pos, ℤ}
use youtube_stream_tracker.Store.Api.{Server}
use youtube_stream_tracker.Model.{Monitor, MonitorStatus}
use youtube_stream_tracker.Prelude.{
  arith, get_or, not, none, List, some, Option, ◌≡◌, ◌&&◌, ◌↔◌, if◌then◌else◌,
}
use youtube_stream_tracker.Store.Queries.{is_empty_status, list, ListParams, clamp_limit}

-- The query as it is parsed. An absent status is `other ""`; an absent limit, or one that is no number,
-- is `none`; an absent offset is `none`, and one that is no number `some none`.
pub record ListQuery : Type 0 where
  pub status : MonitorStatus
  pub limit : Option ℤ
  pub offset : Option (Option ℤ)

-- `none` where the offset is refused.
abbrev pub checked_offset : Option (Option ℤ) → Option ℤ
checked_offset none = some (pos 0)
checked_offset (some none) = none
checked_offset (some (some n)) = if ltb_ℤ n (pos 0) then none else some n

-- The limit as the answer names it.
abbrev pub shown_limit : ℤ → ℤ
shown_limit limit = if leb_ℤ limit (pos 0) && leb_ℤ (pos 0) limit then pos 50 else limit

module _ (api : Server) (h : Handler api) (newest_first : List Monitor → List Monitor) where
  open api use {S}

  unfoldable pub list_page : ListParams → S → Response × S
  list_page p s =
      let (monitors, total) = list newest_first p (h.cache s) in
      (monitors_listed monitors total (shown_limit p.limit) p.offset, s)

  unfoldable pub list_monitors : ListQuery → S → Response × S
  list_monitors q s =
      if not (is_empty_status q.status) && not (is_valid_monitor_status q.status)
      then (validation_error, s)
      else elim (checked_offset q.offset) [
        | none ↦ (validation_error, s)
        | some n ↦
            list_page
              (record {
                status = if is_empty_status q.status then none else some q.status;
                limit = get_or q.limit (pos 0);
                offset = n;
              })
              s
      ]

-- The limit that ListMonitors names in its answer is the one that the store applies to the page exactly
-- where the limit of the query lies between 0 and 100; for any other limit the two differ.
pub shown_limit-clamp_limit :
    (limit : ℤ)
    → (shown_limit limit ≡ pos (clamp_limit limit)) ↔ ((pos 0 ≤ℤ limit) × (limit ≤ℤ pos 100))
unfolding clamp_limit
shown_limit-clamp_limit (pos n) = ground arith
shown_limit-clamp_limit (negsuc n) = ground arith
