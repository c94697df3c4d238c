-- ===== src/Middleware/Insertion.antt =====
-- internal/httpapi/middleware.go: what a request changes keeps the structures of a rate limiter in agreement.
use youtube_stream_tracker.Middleware.Visitors.{
  length-touch, same-length, count-touch, IsConsistent,
}
use youtube_stream_tracker.Middleware.Counts.{count}
use youtube_stream_tracker.Middleware.RateLimiter.{
  position, touch, set_visitor, has_key, is_visitor, Limited, Buckets, Heap, insert, refresh,
}
use youtube_stream_tracker.Prelude.{
  Bool-cases, inr, eq_iff, subst, inl, sym, false, ap, true, str_eq, length, ℕ, List, String, ◌≡◌,
  ◌≤◌, ◌∷◌, arith, refl, ◌⊎◌, [], ◌+◌, ◌<◌, if◌then◌else◌, ◌∙◌,
}

count-set_visitor :
    {L : Type 0} (k key : String) (l : L) (vs : List (String × L))
    → count (is_visitor k) (set_visitor key l vs) ≡ count (is_visitor k) vs
count-set_visitor k key l [] = refl
count-set_visitor k key l ((j, m) ∷ vs) = let rest = count-set_visitor k key l vs in ground arith

length-set_visitor :
    {L : Type 0} (key : String) (l : L) (vs : List (String × L))
    → length (set_visitor key l vs) ≡ length vs
length-set_visitor key l [] = refl
length-set_visitor key l ((j, m) ∷ vs) = let rest = length-set_visitor key l vs in ground arith

at_most_new :
    (k key : String) (f : String → ℕ)
    → f key ≡ 0
    → f k ≤ 1
    → (str_eq k key ≡ true) ⊎ (str_eq k key ≡ false)
    → (if str_eq k key then 1 else 0) + f k ≤ 1
at_most_new k key f none_yet h (inl e) = rw e (omega (arith, none_yet, ap f ((eq_iff k key).0 e)))
at_most_new k key f none_yet h (inr e) = rw e (omega (arith, h))

module _ (heap : Heap) (buckets : Buckets) where
  pub insert-IsConsistent :
      (key : String) (limiter : buckets.Limiter) (now : ℕ) (l : Limited heap buckets)
      → count (has_key key) l.min_heap ≡ 0
      → length l.visitors < l.max_visitors
      → IsConsistent heap buckets l
      → IsConsistent heap buckets (insert heap buckets key limiter now l)
  unfolding insert
  insert-IsConsistent key limiter now l absent h c =
      let same = heap.push-same (record { key = key; last_seen = now }) l.min_heap in
      record {
        visitor_keys = λ k.
            ap (λ n. (if str_eq k key then 1 else 0) + n) (c.visitor_keys k)
            ∙ sym (same (has_key k));
        entry_keys = λ k.
            ap (λ n. (if str_eq k key then 1 else 0) + n) (c.entry_keys k) ∙ sym (same (has_key k));
        once = λ k.
            subst (λ n. n ≤ 1) (sym (same (has_key k)))
              (at_most_new k key (λ k. count (has_key k) l.min_heap) absent (c.once k)
                (Bool-cases (str_eq k key)));
        sizes = omega (
          arith,
          c.sizes,
          same-length (heap.push (record { key = key; last_seen = now }) l.min_heap)
              ((record { key = key; last_seen = now }) ∷ l.min_heap) same,
        );
        bounded = omega (arith, h);
        room = c.room;
        ordered = heap.push-IsHeap (record { key = key; last_seen = now }) l.min_heap c.ordered;
      }

  pub refresh-IsConsistent :
      (key : String) (now : ℕ) (l : Limited heap buckets)
      → 1 ≤ count (is_visitor key) l.visitors
      → IsConsistent heap buckets l
      → IsConsistent heap buckets (refresh heap buckets key now l)
  unfolding refresh
  refresh-IsConsistent key now l present c =
      let same = heap.fix-same (touch key now l.min_heap) (position key l.min_heap) in
      let keys : (k : String)
          → count (has_key k) l.min_heap
            ≡ count (has_key k) (heap.fix (touch key now l.min_heap) (position key l.min_heap)) =
        λ k. sym (same (has_key k) ∙ count-touch k key now l.min_heap) in
      record {
        visitor_keys = λ k. c.visitor_keys k ∙ keys k;
        entry_keys = λ k. c.entry_keys k ∙ keys k;
        once = λ k. subst (λ n. n ≤ 1) (keys k) (c.once k);
        sizes = c.sizes ∙ sym (same-length _ _ same ∙ length-touch key now l.min_heap);
        bounded = c.bounded;
        room = c.room;
        ordered =
            heap.fix-IsHeap key now l.min_heap (omega (arith, present, c.visitor_keys key))
              c.ordered;
      }

  pub set_visitor-IsConsistent :
      (key : String) (limiter : buckets.Limiter) (l : Limited heap buckets)
      → IsConsistent heap buckets l
      → IsConsistent heap buckets (record l { visitors = set_visitor key limiter l.visitors })
  set_visitor-IsConsistent key limiter l c = record {
    visitor_keys = λ k. count-set_visitor k key limiter l.visitors ∙ c.visitor_keys k;
    entry_keys = c.entry_keys;
    once = c.once;
    sizes = length-set_visitor key limiter l.visitors ∙ c.sizes;
    bounded = omega (arith, length-set_visitor key limiter l.visitors, c.bounded);
    room = c.room;
    ordered = c.ordered;
  }
