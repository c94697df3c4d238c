-- ===== src/Middleware/Invariant.antt =====
-- internal/httpapi/middleware.go: every operation of a rate limiter keeps its structures in agreement.
use youtube_stream_tracker.Middleware.Insertion.{
  refresh-IsConsistent, insert-IsConsistent, set_visitor-IsConsistent,
}
use youtube_stream_tracker.Middleware.Visitors.{
  find_visitor-none, absent-pop_visitor, room-pop_visitor, find_visitor-some,
  pop_visitor-IsConsistent, IsConsistent,
}
use youtube_stream_tracker.Middleware.Counts.{count}
use youtube_stream_tracker.Middleware.RateLimiter.{
  sweep_step, visit, evict_from, make_room, find_visitor, VisitorEntry, sweep, get_limiter,
  new_rate_limiter, evict, cleanup, has_key, rate_limit, Limited, Buckets, Heap,
}
use youtube_stream_tracker.Prelude.{
  none, zero, some, leb→le, Option, suc, Bool, leb, sym, false, ap, true, length, ℕ, List, String,
  ◌≡◌, ◌≤◌, ◌∷◌, arith, refl, [], ◌<◌, if◌then◌else◌, ◌∙◌,
}

-- A request, with X-API-Key and the client's address, or a tick of the cleanup.
pub data Operation : Type 0 where
  request : (api_key_header client_ip : String) (now : ℕ) → Operation
  tick : (now : ℕ) → Operation

module _ (heap : Heap) (buckets : Buckets) where
  unfoldable pub handle : Operation → Limited heap buckets → Limited heap buckets
  handle (request header ip now) l = (rate_limit heap buckets header ip now l).1
  handle (tick now) l = cleanup heap buckets now l

  unfoldable pub handle_all : List Operation → Limited heap buckets → Limited heap buckets
  handle_all [] l = l
  handle_all (o ∷ os) l = handle_all os (handle o l)

  -- Room is made for a visitor that has no entry.
  abbrev Spacious : (key : String) → Limited heap buckets → Type 0
  Spacious key l =
      IsConsistent heap buckets l
      × (length l.visitors < l.max_visitors)
      × (count (has_key key) l.min_heap ≡ 0)

  evict_from-Spacious :
      (key : String) (l : Limited heap buckets) (h : List VisitorEntry)
      → l.min_heap ≡ h
      → IsConsistent heap buckets l
      → count (has_key key) l.min_heap ≡ 0
      → l.max_visitors ≤ length l.visitors
      → Spacious key (evict_from heap buckets h l)
  unfolding evict_from
  evict_from-Spacious key l [] at c absent full =
      absurd (omega (arith, ap length at, c.sizes, c.room, full))
  evict_from-Spacious key l (e ∷ es) at c absent full = (
    pop_visitor-IsConsistent heap buckets l e es c at,
    room-pop_visitor heap buckets l e es c at,
    absent-pop_visitor heap buckets l e es c at key absent,
  )

  make_room-Spacious :
      (key : String) (l : Limited heap buckets)
      → (full : Bool) → leb l.max_visitors (length l.visitors) ≡ full
      → IsConsistent heap buckets l
      → count (has_key key) l.min_heap ≡ 0
      → Spacious key (if full then evict heap buckets l else l)
  unfolding evict
  make_room-Spacious key l true h c absent =
      evict_from-Spacious key l l.min_heap refl c absent (leb→le _ _ h)
  make_room-Spacious key l false h c absent = (c, ground arith, absent)

  visit-IsConsistent :
      (o : Option buckets.Limiter) (key : String) (now : ℕ) (l : Limited heap buckets)
      → find_visitor key l.visitors ≡ o
      → IsConsistent heap buckets l
      → IsConsistent heap buckets ((visit heap buckets o key now l).0)
  unfolding visit make_room
  visit-IsConsistent none key now l e c =
      let (c', small, absent) =
        make_room-Spacious key l (leb l.max_visitors (length l.visitors)) refl c
          (sym (c.visitor_keys key) ∙ find_visitor-none key l.visitors e) in
      insert-IsConsistent heap buckets key _ now _ absent small c'
  visit-IsConsistent (some limiter) key now l e c =
      refresh-IsConsistent heap buckets key now l (find_visitor-some key l.visitors limiter e) c

  get_limiter-IsConsistent :
      (key : String) (now : ℕ) (l : Limited heap buckets)
      → IsConsistent heap buckets l
      → IsConsistent heap buckets ((get_limiter heap buckets key now l).0)
  unfolding get_limiter
  get_limiter-IsConsistent key now l c =
      visit-IsConsistent (find_visitor key l.visitors) key now l refl c

  rate_limit-IsConsistent :
      (header ip : String) (now : ℕ) (l : Limited heap buckets)
      → IsConsistent heap buckets l
      → IsConsistent heap buckets ((rate_limit heap buckets header ip now l).1)
  unfolding rate_limit
  rate_limit-IsConsistent header ip now l c =
      set_visitor-IsConsistent heap buckets _ _ _ (get_limiter-IsConsistent _ now l c)

  abbrev Maybe : Option (Limited heap buckets) → Type 0
  Maybe none = Unit
  Maybe (some l) = IsConsistent heap buckets l

  if-Maybe :
      (b : Bool) (l : Limited heap buckets)
      → IsConsistent heap buckets l
      → Maybe (if b then some l else none)
  if-Maybe true l c = c
  if-Maybe false l c = tt

  next-IsConsistent :
      (o : Option (Limited heap buckets)) (l : Limited heap buckets)
      (f : Limited heap buckets → Limited heap buckets)
      → Maybe o
      → IsConsistent heap buckets l
      → ((l' : Limited heap buckets)
          → IsConsistent heap buckets l'
          → IsConsistent heap buckets (f l'))
      → IsConsistent heap buckets (elim o [ none ↦ l | some l' ↦ f l' ])
  next-IsConsistent none l f m c g = c
  next-IsConsistent (some l') l f m c g = g l' m

  sweep_step-Maybe :
      (now : ℕ) (l : Limited heap buckets) (h : List VisitorEntry)
      → l.min_heap ≡ h
      → IsConsistent heap buckets l
      → Maybe (sweep_step heap buckets h now l)
  unfolding sweep_step
  sweep_step-Maybe now l [] at c = tt
  sweep_step-Maybe now l (e ∷ es) at c =
      if-Maybe _ _ (pop_visitor-IsConsistent heap buckets l e es c at)

  pub sweep-IsConsistent :
      (fuel now : ℕ) (l : Limited heap buckets)
      → IsConsistent heap buckets l
      → IsConsistent heap buckets (sweep heap buckets fuel now l)
  unfolding sweep
  sweep-IsConsistent zero now l c = c
  sweep-IsConsistent (suc fuel) now l c =
      next-IsConsistent (sweep_step heap buckets l.min_heap now l) l (sweep heap buckets fuel now)
        (sweep_step-Maybe now l l.min_heap refl c) c (sweep-IsConsistent fuel now)

  handle-IsConsistent :
      (o : Operation) (l : Limited heap buckets)
      → IsConsistent heap buckets l
      → IsConsistent heap buckets (handle o l)
  unfolding handle cleanup
  handle-IsConsistent (request header ip now) l c = rate_limit-IsConsistent header ip now l c
  handle-IsConsistent (tick now) l c = sweep-IsConsistent (length l.min_heap) now l c

  keeps-IsConsistent :
      (os : List Operation) (l : Limited heap buckets)
      → IsConsistent heap buckets l
      → IsConsistent heap buckets (handle_all os l)
  unfolding handle_all
  keeps-IsConsistent [] l c = c
  keeps-IsConsistent (o ∷ os) l c = keeps-IsConsistent os (handle o l) (handle-IsConsistent o l c)

  -- Whatever requests and cleanups a new rate limiter handles, its three structures agree: each visitor has
  -- one limiter, one entry and one place in the heap, there are at most `max_visitors` of them, and the heap
  -- is ordered.
  pub handle_all-IsConsistent :
      (limit window : ℕ) (os : List Operation)
      → IsConsistent heap buckets (handle_all os (new_rate_limiter heap buckets limit window))
  unfolding new_rate_limiter
  handle_all-IsConsistent limit window os =
      keeps-IsConsistent os (new_rate_limiter heap buckets limit window) (record {
        visitor_keys = λ k. refl;
        entry_keys = λ k. refl;
        once = λ k. omega arith;
        sizes = refl;
        bounded = omega arith;
        room = omega arith;
        ordered = heap.empty-IsHeap;
      })
