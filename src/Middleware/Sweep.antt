-- ===== src/Middleware/Sweep.antt =====
-- internal/httpapi/middleware.go: which visitors the cleanup forgets.
use youtube_stream_tracker.Middleware.Invariant.{sweep-IsConsistent}
use youtube_stream_tracker.Middleware.Counts.{
  count-without-and, count-le, without-nothing, without, SameElements, count,
}
use youtube_stream_tracker.Middleware.Visitors.{same-length, pop_visitor-IsConsistent, IsConsistent}
use youtube_stream_tracker.Middleware.RateLimiter.{
  remove, pop_visitor, sweep_step, cleanup, sweep, seen_before, Limited, Buckets, VisitorEntry,
  Heap,
}
use youtube_stream_tracker.Prelude.{
  true, not, ap, sym, Option, subst, if◌then◌else◌, ◌&&◌, zero, some, none, suc, refl, [], ◌∙◌,
  false, length, ltb, List, Bool, ℕ, ◌∷◌, arith, ◌+◌, ◌≡◌, ◌≤◌,
}

-- Not seen for longer than the window.
abbrev pub is_expired : (window now : ℕ) → VisitorEntry → Bool
is_expired window now e = ltb (e.last_seen + window) now

module _ (heap : Heap) (buckets : Buckets) where
  none_expired :
      (window now : ℕ) (e : VisitorEntry) (es : List VisitorEntry)
      → is_expired window now e ≡ false
      → count (seen_before e.last_seen) es ≡ 0
      → without (is_expired window now) (e ∷ es) ≡ e ∷ es
  none_expired window now e es h least = without-nothing (is_expired window now) (e ∷ es) (
      rw h (
        omega (
          arith,
          least,
          count-le (is_expired window now) (seen_before e.last_seen) es (λ x k. ground arith),
        )))

  -- One turn of the loop: it ends with no expired visitor, or takes one out.
  abbrev Turned : (now : ℕ) → Limited heap buckets → Option (Limited heap buckets) → Type 0
  Turned now l none = without (is_expired l.window now) l.min_heap ≡ l.min_heap
  Turned now l (some l') =
      IsConsistent heap buckets l'
      × (suc (length l'.min_heap) ≡ length l.min_heap)
      × (l'.window ≡ l.window)
      × SameElements (without (is_expired l.window now) l'.min_heap)
          (without (is_expired l.window now) l.min_heap)

  pop-Turned :
      (now : ℕ) (l : Limited heap buckets) (e : VisitorEntry) (es : List VisitorEntry) (b : Bool)
      → is_expired l.window now e ≡ b
      → l.min_heap ≡ e ∷ es
      → IsConsistent heap buckets l
      → Turned now l (if b then some (pop_visitor heap buckets e es l) else none)
  unfolding pop_visitor remove
  pop-Turned now l e es false h at c =
      subst (λ g. without (is_expired l.window now) g ≡ g) (sym at)
        (none_expired l.window now e es h (heap.root-least e es (subst heap.IsHeap at c.ordered)))
  pop-Turned now l e es true h at c = (
    pop_visitor-IsConsistent heap buckets l e es c at,
    omega (arith, ap length at, same-length (heap.pop_root e es) es (heap.pop_root-same e es)),
    refl,
    λ p.
        let expired : (v : VisitorEntry) → Bool = is_expired l.window now in
        count-without-and expired p (heap.pop_root e es)
        ∙ heap.pop_root-same e es (λ v. not (expired v) && p v)
        ∙ sym (count-without-and expired p es)
        ∙ rw (at, h) refl,
  )

  turn :
      (now : ℕ) (l : Limited heap buckets) (h : List VisitorEntry)
      → l.min_heap ≡ h
      → IsConsistent heap buckets l
      → Turned now l (sweep_step heap buckets h now l)
  unfolding sweep_step
  turn now l [] at c = subst (λ h. without (is_expired l.window now) h ≡ h) (sym at) refl
  turn now l (e ∷ es) at c = pop-Turned now l e es (is_expired l.window now e) refl at c

  next-without :
      (fuel now : ℕ) (l : Limited heap buckets) (f : Limited heap buckets → Limited heap buckets)
      (o : Option (Limited heap buckets))
      → length l.min_heap ≤ suc fuel
      → Turned now l o
      → ((l' : Limited heap buckets)
          → length l'.min_heap ≤ fuel
          → IsConsistent heap buckets l'
          → SameElements (f l').min_heap (without (is_expired l'.window now) l'.min_heap))
      → SameElements
          (elim o as (λ o. Limited heap buckets) [ none ↦ l | some l' ↦ f l' ]).min_heap
          (without (is_expired l.window now) l.min_heap)
  next-without fuel now l f none enough same rest p = sym (ap (count p) same)
  next-without fuel now l f (some l') enough (c, shorter, window, same) rest p =
      rest l' (omega (arith, shorter, enough)) c p
      ∙ ap (λ w. count p (without (is_expired w now) l'.min_heap)) window
      ∙ same p

  nothing_left :
      (now window : ℕ) (h : List VisitorEntry)
      → length h ≤ 0
      → without (is_expired window now) h ≡ h
  nothing_left now window [] k = refl
  nothing_left now window (e ∷ es) k = absurd (omega (arith, k))

  sweep-without :
      (fuel now : ℕ) (l : Limited heap buckets)
      → length l.min_heap ≤ fuel
      → IsConsistent heap buckets l
      → SameElements
          (sweep heap buckets fuel now l).min_heap
          (without (is_expired l.window now) l.min_heap)
  unfolding sweep
  sweep-without zero now l enough c p =
      sym (ap (count p) (nothing_left now l.window l.min_heap enough))
  sweep-without (suc fuel) now l enough c p =
      next-without fuel now l (sweep heap buckets fuel now)
        (sweep_step heap buckets l.min_heap now l) enough (turn now l l.min_heap refl c)
        (sweep-without fuel now) p

  -- In a rate limiter whose structures agree, the cleanup leaves exactly the visitors that were seen within
  -- the window before `now`: each of their entries stays in the heap, as often as before, no other does, and
  -- the structures agree again.
  pub cleanup-without :
      (now : ℕ) (l : Limited heap buckets)
      → IsConsistent heap buckets l
      → SameElements
          (cleanup heap buckets now l).min_heap
          (without (is_expired l.window now) l.min_heap)
        × IsConsistent heap buckets (cleanup heap buckets now l)
  unfolding cleanup
  cleanup-without now l c = (
    sweep-without (length l.min_heap) now l (omega arith) c,
    sweep-IsConsistent heap buckets (length l.min_heap) now l c,
  )
