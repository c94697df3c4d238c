-- ===== src/Middleware/Eviction.antt =====
-- internal/httpapi/middleware.go: whom a full rate limiter forgets.
use youtube_stream_tracker.Middleware.Counts.{without, count}
use youtube_stream_tracker.Middleware.Visitors.{root-once, IsConsistent}
use youtube_stream_tracker.Middleware.RateLimiter.{
  is_visitor, seen_before, has_key, find_visitor, VisitorEntry, Limited, Buckets, Heap, evict_from,
  make_room, evict, pop_visitor, remove, visit, insert, get_limiter,
}
use youtube_stream_tracker.Prelude.{
  subst, true, some, Option, leb, ap, none, length, List, false, String, ltb, ℕ, ◌∷◌, arith, ◌∙◌,
  ◌≡◌, [], ◌≤◌, refl,
}

le→leb : (a b : ℕ) → a ≤ b → leb a b ≡ true
le→leb a b h = ground arith

never_before : (t : ℕ) → ltb t t ≡ false
never_before t = ground arith

module _ (heap : Heap) (buckets : Buckets) where
  evict_from-least :
      (l : Limited heap buckets) (h : List VisitorEntry)
      → l.min_heap ≡ h
      → IsConsistent heap buckets l
      → l.max_visitors ≤ length l.visitors
      → (e : VisitorEntry) × ((es : List VisitorEntry) × (l.min_heap ≡ e ∷ es))
        × (count (has_key e.key) l.min_heap ≡ 1)
        × (count (seen_before e.last_seen) l.min_heap ≡ 0)
        × ((evict_from heap buckets h l).visitors ≡ without (is_visitor e.key) l.visitors)
  unfolding evict_from pop_visitor remove
  evict_from-least l [] at c full = absurd (omega (arith, ap length at, c.sizes, c.room, full))
  evict_from-least l (e ∷ es) at c full = (
    e,
    (es, at),
    root-once heap buckets l e es c at,
    ap (count (seen_before e.last_seen)) at
        ∙ rw (never_before e.last_seen)
            (omega (arith, heap.root-least e es (subst heap.IsHeap at c.ordered))),
    refl,
  )

  visit-new :
      (o : Option buckets.Limiter) (key : String) (now : ℕ) (l : Limited heap buckets)
      (vs : List (String × buckets.Limiter))
      → o ≡ none
      → l.max_visitors ≤ length l.visitors
      → (evict_from heap buckets l.min_heap l).visitors ≡ vs
      → (((visit heap buckets o key now l).0).visitors
          ≡ (key, buckets.new_limiter l.interval l.burst) ∷ vs)
        × ((visit heap buckets o key now l).1 ≡ buckets.new_limiter l.interval l.burst)
  unfolding visit make_room insert evict
  visit-new none key now l vs new full rest = let at = le→leb _ _ full in (rw (at, rest) refl, refl)
  visit-new (some x) key now l vs new full rest = grind arith

  -- In a rate limiter whose structures agree and that is full, a new visitor takes the place of the one whose
  -- entry stands at the root of the heap: no visitor's entry was seen before that one. Exactly that visitor is forgotten, every other visitor keeps its
  -- limiter, and the new one gets a fresh limiter.
  pub get_limiter-evicts :
      (key : String) (now : ℕ) (l : Limited heap buckets)
      → IsConsistent heap buckets l
      → find_visitor key l.visitors ≡ none
      → l.max_visitors ≤ length l.visitors
      → (e : VisitorEntry) × ((es : List VisitorEntry) × (l.min_heap ≡ e ∷ es))
        × (count (has_key e.key) l.min_heap ≡ 1)
        × (count (seen_before e.last_seen) l.min_heap ≡ 0)
        × (((get_limiter heap buckets key now l).0).visitors
            ≡ (key, buckets.new_limiter l.interval l.burst) ∷ without (is_visitor e.key) l.visitors)
        × ((get_limiter heap buckets key now l).1 ≡ buckets.new_limiter l.interval l.burst)
  unfolding get_limiter
  get_limiter-evicts key now l c new full =
      let (e, root, once, least, rest) = evict_from-least l l.min_heap refl c full in
      let (visitors, limiter) = visit-new (find_visitor key l.visitors) key now l _ new full rest in
      (e, root, once, least, visitors, limiter)
