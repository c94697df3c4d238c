-- ===== src/Middleware/RateLimiter.antt =====
-- internal/httpapi/middleware.go: `rateLimiter` and `RateLimit`. The heap of container/heap and the token
-- buckets of golang.org/x/time/rate are parameters.
use youtube_stream_tracker.Middleware.Counts.{count, without, SameElements}
use youtube_stream_tracker.Prelude.{
  ◌≤◌, zero, leb, some, ◌==◌, none, ltb, Bool, suc, ◌/◌, str_eq, Option, length, ℕ, List, String,
  if◌then◌else◌, ◌+◌, ◌∷◌, [], ◌≡◌,
}

-- `index` is the position in the heap, and left out: `position` finds it.
pub record VisitorEntry : Type 0 where
  pub key : String
  pub last_seen : ℕ

abbrev pub has_key : String → VisitorEntry → Bool
has_key key e = str_eq key e.key

abbrev pub seen_before : ℕ → VisitorEntry → Bool
seen_before t e = ltb e.last_seen t

abbrev pub position : String → List VisitorEntry → ℕ
position key [] = 0
position key (e ∷ es) = let rest = position key es in if has_key key e then 0 else suc rest

-- `entry.lastSeen = now`
abbrev pub touch : String → (now : ℕ) → List VisitorEntry → List VisitorEntry
touch key now [] = []
touch key now (e ∷ es) =
    let rest = touch key now es in
    if has_key key e then (record e { last_seen = now }) ∷ es else e ∷ rest

-- What container/heap documents. `pop_root x xs` is what is left of the heap `x ∷ xs` when its root `x` is
-- popped, and `fix` orders the heap again when the entry at an index has changed.
pub record Heap : Type 1 where
  pub push : VisitorEntry → List VisitorEntry → List VisitorEntry
  pub pop_root : VisitorEntry → List VisitorEntry → List VisitorEntry
  pub fix : List VisitorEntry → (index : ℕ) → List VisitorEntry
  pub IsHeap : List VisitorEntry → Type 0
  pub empty-IsHeap : IsHeap []
  pub push-same : (e : VisitorEntry) (h : List VisitorEntry) → SameElements (push e h) (e ∷ h)
  pub pop_root-same : (e : VisitorEntry) (h : List VisitorEntry) → SameElements (pop_root e h) h
  pub fix-same : (h : List VisitorEntry) (i : ℕ) → SameElements (fix h i) h
  pub push-IsHeap : (e : VisitorEntry) (h : List VisitorEntry) → IsHeap h → IsHeap (push e h)
  pub pop_root-IsHeap :
      (e : VisitorEntry) (h : List VisitorEntry) → IsHeap (e ∷ h) → IsHeap (pop_root e h)
  pub fix-IsHeap :
      (key : String) (now : ℕ) (h : List VisitorEntry)
      → 1 ≤ count (has_key key) h
      → IsHeap h
      → IsHeap (fix (touch key now h) (position key h))
  pub root-least :
      (e : VisitorEntry) (h : List VisitorEntry)
      → IsHeap (e ∷ h)
      → count (seen_before e.last_seen) h ≡ 0

-- `rate.NewLimiter` and `Limiter.Allow`, with the time.
pub record Buckets : Type 1 where
  pub Limiter : Type 0
  pub new_limiter : (interval burst : ℕ) → Limiter
  pub allow : (now : ℕ) → Limiter → Bool × Limiter

abbrev pub second : ℕ
second = 1_000_000_000

abbrev pub default_max_visitors : ℕ
default_max_visitors = 10_000

module _ {L : Type 0} where
  abbrev pub is_visitor : String → String × L → Bool
  is_visitor key v = str_eq key (v.0)

  abbrev pub find_visitor : String → List (String × L) → Option L
  find_visitor key [] = none
  find_visitor key ((k, l) ∷ vs) =
      let rest = find_visitor key vs in if str_eq key k then some l else rest

  abbrev pub set_visitor : String → L → List (String × L) → List (String × L)
  set_visitor key l' [] = []
  set_visitor key l' ((k, l) ∷ vs) =
      let rest = set_visitor key l' vs in if str_eq key k then (k, l') ∷ rest else (k, l) ∷ rest

-- An entry that `entries` points to is found in the heap by its key. An insertion in a map comes first.
pub record RateLimiter (L : Type 0) : Type 0 where
  pub interval : ℕ
  pub burst : ℕ
  pub window : ℕ
  pub max_visitors : ℕ
  pub visitors : List (String × L)
  pub entries : List String
  pub min_heap : List VisitorEntry

module _ (heap : Heap) (buckets : Buckets) where
  abbrev pub Limited : Type 0
  Limited = RateLimiter buckets.Limiter

  -- For a `limit` of at least 1; the division by a `limit` of 0 panics.
  unfoldable pub new_rate_limiter : (limit window : ℕ) → Limited
  new_rate_limiter limit window = record {
    interval = if window / limit == 0 then second else window / limit;
    burst = limit;
    window = window;
    max_visitors = default_max_visitors;
    visitors = [];
    entries = [];
    min_heap = [];
  }

  unfoldable pub remove : String → Limited → Limited
  remove key l = record l {
    visitors = without (is_visitor key) l.visitors;
    entries = without (str_eq key) l.entries;
  }

  -- The first visitor that the map gives.
  unfoldable pub evict_any : List (String × buckets.Limiter) → Limited → Limited
  evict_any [] l = l
  evict_any ((key, _) ∷ vs) l = remove key l

  -- The root `e` of the heap `e ∷ es`, and its visitor.
  unfoldable pub pop_visitor : VisitorEntry → List VisitorEntry → Limited → Limited
  pop_visitor e es l = record (remove e.key l) { min_heap = heap.pop_root e es }

  unfoldable pub evict_from : List VisitorEntry → Limited → Limited
  evict_from [] l = evict_any l.visitors l
  evict_from (e ∷ es) l = pop_visitor e es l

  unfoldable pub evict : Limited → Limited
  evict l = evict_from l.min_heap l

  unfoldable pub insert : String → buckets.Limiter → (now : ℕ) → Limited → Limited
  insert key limiter now l = record l {
    visitors = (key, limiter) ∷ l.visitors;
    entries = key ∷ l.entries;
    min_heap = heap.push (record { key = key; last_seen = now }) l.min_heap;
  }

  unfoldable pub refresh : String → (now : ℕ) → Limited → Limited
  refresh key now l = record l {
    min_heap = heap.fix (touch key now l.min_heap) (position key l.min_heap);
  }

  unfoldable pub make_room : Limited → Limited
  make_room l = if leb l.max_visitors (length l.visitors) then evict l else l

  unfoldable pub visit :
      Option buckets.Limiter → String → (now : ℕ) → Limited → Limited × buckets.Limiter
  visit none key now l =
      let limiter = buckets.new_limiter l.interval l.burst in
      (insert key limiter now (make_room l), limiter)
  visit (some limiter) key now l = (refresh key now l, limiter)

  unfoldable pub get_limiter : String → (now : ℕ) → Limited → Limited × buckets.Limiter
  get_limiter key now l = visit (find_visitor key l.visitors) key now l

  -- `none` ends the loop.
  unfoldable pub sweep_step : List VisitorEntry → (now : ℕ) → Limited → Option Limited
  sweep_step [] now l = none
  sweep_step (e ∷ es) now l =
      if ltb (e.last_seen + l.window) now then some (pop_visitor e es l) else none

  -- `fuel` is the number of entries.
  unfoldable pub sweep : (fuel now : ℕ) → Limited → Limited
  sweep zero now l = l
  sweep (suc fuel) now l = elim (sweep_step l.min_heap now l) [
    | none ↦ l
    | some l' ↦ sweep fuel now l'
  ]

  unfoldable pub cleanup : (now : ℕ) → Limited → Limited
  cleanup now l = sweep (length l.min_heap) now l

  -- The visitor's limiter is shared with the map, and `Allow` changes it. `true` lets the request pass.
  unfoldable pub rate_limit :
      (api_key_header client_ip : String) (now : ℕ) → Limited → Bool × Limited
  rate_limit api_key_header client_ip now l =
      let key : String = if str_eq api_key_header "" then client_ip else api_key_header in
      let (l', limiter) = get_limiter key now l in
      let (allowed, limiter') = buckets.allow now limiter in
      (allowed, record l' { visitors = set_visitor key limiter' l'.visitors })
