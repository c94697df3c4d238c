-- ===== src/Middleware/Registry.antt =====
-- internal/httpapi/middleware.go: the rate limiters that routes with the same limit and window share.
use youtube_stream_tracker.Middleware.RateLimiter.{
  new_rate_limiter, cleanup, find_visitor, Limited, Buckets, Heap,
}
use youtube_stream_tracker.Prelude.{none, true, some, map, ℕ, Bool, String, List, ◌∷◌}

-- The map from the text of a limit and a window to its limiter, and whether the cleanup loop was started.
pub record LimiterRegistry (L : Type 0) : Type 0 where
  pub limiters : List (String × L)
  pub started : Bool

module _ (heap : Heap) (buckets : Buckets) (format : (limit window : ℕ) → String) where
  abbrev pub Limiters : Type 0
  Limiters = LimiterRegistry (Limited heap buckets)

  -- `get` returns the shared limiter, which is found by its key.
  unfoldable pub get : (limit window : ℕ) → Limiters → String × Limiters
  get limit window r =
      let key : String = format limit window in
      elim (find_visitor key r.limiters) [
        | some limiter ↦ (key, r)
        | none ↦ (
          key,
          record {
            limiters = (key, new_rate_limiter heap buckets limit window) ∷ r.limiters;
            started = true;
          },
        )
      ]

  -- A tick of `cleanupLoop`: every limiter is cleaned up.
  unfoldable pub clean_all : (now : ℕ) → Limiters → Limiters
  clean_all now r = record r {
    limiters = map (λ l. (l.0, cleanup heap buckets now (l.1))) r.limiters;
  }
