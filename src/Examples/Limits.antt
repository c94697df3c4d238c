-- ===== src/Examples/Limits.antt =====
-- internal/httpapi/middleware.go at a rate limiter for one visitor, whose heap is a sorted list.
use youtube_stream_tracker.Middleware.Eviction.{get_limiter-evicts}
use youtube_stream_tracker.Middleware.Sweep.{cleanup-without, is_expired}
use youtube_stream_tracker.Middleware.Invariant.{handle_all-IsConsistent, tick, request, handle_all}
use youtube_stream_tracker.Middleware.RateLimiter.{
  new_rate_limiter, is_visitor, get_limiter, has_key, seen_before, touch, cleanup, VisitorEntry,
  Heap, Buckets, Limited,
}
use youtube_stream_tracker.Middleware.Visitors.{IsConsistent}
use youtube_stream_tracker.Middleware.Counts.{count-le, without, count, SameElements}
use youtube_stream_tracker.Prelude.{
  true, false, ap, ℕ, ltb, str_eq, List, Bool, arith, if◌then◌else◌, ◌+◌, ◌∷◌, ◌∙◌, [], ◌≡◌, ◌≤◌,
  ◌-◌, refl,
}

abbrev pub add : VisitorEntry → List VisitorEntry → List VisitorEntry
add e [] = e ∷ []
add e (x ∷ xs) =
    let rest : List VisitorEntry = add e xs in
    if ltb x.last_seen e.last_seen then x ∷ rest else e ∷ x ∷ xs

abbrev pub sort : List VisitorEntry → List VisitorEntry
sort [] = []
sort (e ∷ es) = add e (sort es)

abbrev pub IsSorted : List VisitorEntry → Type 0
IsSorted [] = Unit
IsSorted (e ∷ es) = (count (seen_before e.last_seen) es ≡ 0) × IsSorted es

pub add-same : (e : VisitorEntry) (h : List VisitorEntry) → SameElements (add e h) (e ∷ h)
add-same e [] p = refl
add-same e (x ∷ xs) p = let rest = add-same e xs p in ground arith

pub sort-same : (h : List VisitorEntry) → SameElements (sort h) h
sort-same [] p = refl
sort-same (e ∷ es) p =
    add-same e (sort es) p ∙ ap (λ n. (if p e then 1 else 0) + n) (sort-same es p)

earlier :
    (e x : VisitorEntry) (xs : List VisitorEntry)
    → ltb x.last_seen e.last_seen ≡ false
    → count (seen_before x.last_seen) xs ≡ 0
    → count (seen_before e.last_seen) (x ∷ xs) ≡ 0
earlier e x xs h least =
    let fewer =
      count-le (seen_before e.last_seen) (seen_before x.last_seen) xs (λ y k. ground arith) in
    ground arith

add-IsSorted-by :
    (b : Bool) (e x : VisitorEntry) (xs : List VisitorEntry)
    → ltb x.last_seen e.last_seen ≡ b
    → IsSorted (x ∷ xs)
    → IsSorted (add e xs)
    → IsSorted (if b then x ∷ add e xs else e ∷ x ∷ xs)
add-IsSorted-by true e x xs h (least, s) rest =
    (add-same e xs (seen_before x.last_seen) ∙ ground arith, rest)
add-IsSorted-by false e x xs h (least, s) rest = (earlier e x xs h least, (least, s))

pub add-IsSorted : (e : VisitorEntry) (h : List VisitorEntry) → IsSorted h → IsSorted (add e h)
add-IsSorted e [] s = (refl, tt)
add-IsSorted e (x ∷ xs) s =
    add-IsSorted-by (ltb x.last_seen e.last_seen) e x xs refl s (add-IsSorted e xs (s.1))

pub sort-IsSorted : (h : List VisitorEntry) → IsSorted (sort h)
sort-IsSorted [] = tt
sort-IsSorted (e ∷ es) = add-IsSorted e (sort es) (sort-IsSorted es)

abbrev pub sorted_list : Heap
sorted_list = record {
  push = add;
  pop_root = λ e h. h;
  fix = λ h i. sort h;
  IsHeap = IsSorted;
  empty-IsHeap = tt;
  push-same = add-same;
  pop_root-same = λ e h p. refl;
  fix-same = λ h i. sort-same h;
  push-IsHeap = add-IsSorted;
  pop_root-IsHeap = λ e h s. s.1;
  fix-IsHeap = λ key now h k s. sort-IsSorted (touch key now h);
  root-least = λ e h s. s.0;
}

abbrev pub tokens : Buckets
tokens = record {
  Limiter = ℕ;
  new_limiter = λ interval burst. burst;
  allow = λ now n. (ltb 0 n, n - 1);
}

-- The only place is taken by a visitor seen at 3.
abbrev occupied : Limited sorted_list tokens
occupied = record {
  interval = 10;
  burst = 2;
  window = 20;
  max_visitors = 1;
  visitors = ("10.0.0.1", 1) ∷ [];
  entries = "10.0.0.1" ∷ [];
  min_heap = record { key = "10.0.0.1"; last_seen = 3 } ∷ [];
}

one_at_most : (b : Bool) → (if b then 1 else 0) + 0 ≤ 1
one_at_most b = ground arith

occupied-IsConsistent : IsConsistent sorted_list tokens occupied
occupied-IsConsistent = record {
  visitor_keys = λ k. refl;
  entry_keys = λ k. refl;
  once = λ k. one_at_most (str_eq k "10.0.0.1");
  sizes = refl;
  bounded = omega arith;
  room = omega arith;
  ordered = (refl, tt);
}

handle_all-IsConsistent_example : IsConsistent sorted_list tokens (
    handle_all sorted_list tokens
      (request "" "10.0.0.1" 3 ∷ request "key" "10.0.0.2" 4 ∷ tick 99 ∷ [])
      (new_rate_limiter sorted_list tokens 25 60_000_000_000))
handle_all-IsConsistent_example =
    handle_all-IsConsistent sorted_list tokens 25 60_000_000_000
      (request "" "10.0.0.1" 3 ∷ request "key" "10.0.0.2" 4 ∷ tick 99 ∷ [])

get_limiter-evicts_example :
    (e : VisitorEntry) × ((es : List VisitorEntry) × (occupied.min_heap ≡ e ∷ es))
    × (count (has_key e.key) occupied.min_heap ≡ 1)
    × (count (seen_before e.last_seen) occupied.min_heap ≡ 0)
    × (((get_limiter sorted_list tokens "10.0.0.2" 5 occupied).0).visitors
        ≡ ("10.0.0.2", 2) ∷ without (is_visitor e.key) occupied.visitors)
    × ((get_limiter sorted_list tokens "10.0.0.2" 5 occupied).1 ≡ 2)
get_limiter-evicts_example =
    get_limiter-evicts sorted_list tokens "10.0.0.2" 5 occupied occupied-IsConsistent refl
      (omega arith)

cleanup-without_example :
    SameElements
      (cleanup sorted_list tokens 99 occupied).min_heap
      (without (is_expired occupied.window 99) occupied.min_heap)
    × IsConsistent sorted_list tokens (cleanup sorted_list tokens 99 occupied)
cleanup-without_example = cleanup-without sorted_list tokens 99 occupied occupied-IsConsistent
