-- ===== src/Middleware/Visitors.antt =====
-- internal/httpapi/middleware.go: the three structures of a rate limiter agree.
use youtube_stream_tracker.Middleware.Counts.{
  count-without-other, length-without, count-without-same, without, count-true, count, SameElements,
}
use youtube_stream_tracker.Middleware.RateLimiter.{
  remove, pop_visitor, is_visitor, has_key, touch, Limited, VisitorEntry, find_visitor, Buckets,
  Heap,
}
use youtube_stream_tracker.Prelude.{
  eq_refl, suc, ap, ◌+◌, ◌⊎◌, inr, inl, eq_iff, Bool-cases, subst, true, sym, length, false, Bool,
  some, none, ℕ, str_eq, String, List, ◌≡◌, [], ◌≤◌, ◌<◌, if◌then◌else◌, ◌∙◌, ◌∷◌, refl, arith,
}

-- For one key: a text that equals another key is not equal to this one.
apart : (k key x : String) → str_eq k key ≡ false → str_eq key x ≡ true → str_eq k x ≡ false
apart k key x h e = subst (λ y. str_eq k y ≡ false) ((eq_iff key x).0 e) h

pub same-length {ℓ} : {A : Type ℓ} (xs ys : List A) → SameElements xs ys → length xs ≡ length ys
same-length xs ys same = sym (count-true xs) ∙ same (λ x. true) ∙ count-true ys

module _ {L : Type 0} where
  pub find_visitor-some :
      (key : String) (vs : List (String × L)) (l : L)
      → find_visitor key vs ≡ some l
      → 1 ≤ count (is_visitor key) vs
  find_visitor-some key [] l h = grind arith
  find_visitor-some key ((k, m) ∷ vs) l h = let rest = find_visitor-some key vs l in ground arith

  pub find_visitor-none :
      (key : String) (vs : List (String × L))
      → find_visitor key vs ≡ none
      → count (is_visitor key) vs ≡ 0
  find_visitor-none key [] h = refl
  find_visitor-none key ((k, m) ∷ vs) h = let rest = find_visitor-none key vs in ground arith

pub count-touch :
    (k key : String) (now : ℕ) (h : List VisitorEntry)
    → count (has_key k) (touch key now h) ≡ count (has_key k) h
count-touch k key now [] = refl
count-touch k key now (e ∷ es) = let rest = count-touch k key now es in ground arith

pub length-touch :
    (key : String) (now : ℕ) (h : List VisitorEntry) → length (touch key now h) ≡ length h
length-touch key now [] = refl
length-touch key now (e ∷ es) = let rest = length-touch key now es in ground arith

-- How often a key is left where another one, or it, is taken out.
count-without-by :
    {A : Type 0} (name : A → String) (k key : String) (xs : List A)
    → (str_eq k key ≡ true) ⊎ (str_eq k key ≡ false)
    → count (λ a. str_eq k (name a)) (without (λ a. str_eq key (name a)) xs)
      ≡ (if str_eq k key then 0 else count (λ a. str_eq k (name a)) xs)
count-without-by name k key xs (inl e) =
    rw (e, (eq_iff k key).0 e) (count-without-same (λ a. str_eq key (name a)) xs)
count-without-by name k key xs (inr e) = rw e (
    count-without-other (λ a. str_eq key (name a)) (λ a. str_eq k (name a)) xs
      (λ a. apart k key (name a) e))

count-without :
    {A : Type 0} (name : A → String) (k key : String) (xs : List A)
    → count (λ a. str_eq k (name a)) (without (λ a. str_eq key (name a)) xs)
      ≡ (if str_eq k key then 0 else count (λ a. str_eq k (name a)) xs)
count-without name k key xs = count-without-by name k key xs (Bool-cases (str_eq k key))

exactly_one : (b : Bool) (n m : ℕ) → b ≡ true → n ≡ (if b then 1 else 0) + m → n ≤ 1 → n ≡ 1
exactly_one b n m e h k = ground arith

none_left : (b : Bool) (n m : ℕ) → n ≡ (if b then 1 else 0) + m → n ≡ 0 → m ≡ 0
none_left b n m h k = ground arith

at_most : (b : Bool) (n m : ℕ) → n ≡ (if b then 1 else 0) + m → n ≤ 1 → m ≤ 1
at_most b n m h k = ground arith

drop_one : (b : Bool) (n m : ℕ) → n ≡ (if b then 1 else 0) + m → n ≤ 1 → (if b then 0 else n) ≡ m
drop_one true n m e h = omega arith
drop_one false n m e h = omega arith

module _ (heap : Heap) (buckets : Buckets) where
  -- Every visitor has one limiter, one pointer to an entry and that entry in the heap.
  pub record IsConsistent (l : Limited heap buckets) : Type 0 where
    pub visitor_keys : (k : String) → count (is_visitor k) l.visitors ≡ count (has_key k) l.min_heap
    pub entry_keys : (k : String) → count (str_eq k) l.entries ≡ count (has_key k) l.min_heap
    pub once : (k : String) → count (has_key k) l.min_heap ≤ 1
    pub sizes : length l.visitors ≡ length l.min_heap
    pub bounded : length l.visitors ≤ l.max_visitors
    pub room : 0 < l.max_visitors
    pub ordered : heap.IsHeap l.min_heap

  module _ (l : Limited heap buckets) (e : VisitorEntry) (es : List VisitorEntry)
      (c : IsConsistent l) (at : l.min_heap ≡ e ∷ es) where
    without_root :
        (k : String)
        → (if str_eq k e.key then 0 else count (has_key k) l.min_heap)
          ≡ count (has_key k) (heap.pop_root e es)
    without_root k =
        drop_one (str_eq k e.key) (count (has_key k) l.min_heap) (count (has_key k) es)
          (ap (count (has_key k)) at) (c.once k)
        ∙ sym (heap.pop_root-same e es (has_key k))

    pub root-once : count (has_key e.key) l.min_heap ≡ 1
    root-once =
        exactly_one (has_key e.key e) _ _ (eq_refl e.key) (ap (count (has_key e.key)) at)
          (c.once e.key)

    pub length-pop_visitor :
        suc (length (pop_visitor heap buckets e es l).visitors) ≡ length l.visitors
    unfolding pop_visitor remove
    length-pop_visitor =
        let all = length-without (is_visitor e.key) l.visitors in
        let one = c.visitor_keys e.key in omega (arith, all, one, root-once)

    pub pop_visitor-IsConsistent : IsConsistent (pop_visitor heap buckets e es l)
    unfolding pop_visitor remove
    pop_visitor-IsConsistent = record {
      visitor_keys = λ k.
          count-without (λ v. v.0) k e.key l.visitors
          ∙ ap (λ n. if str_eq k e.key then 0 else n) (c.visitor_keys k)
          ∙ without_root k;
      entry_keys = λ k.
          count-without (λ s. s) k e.key l.entries
          ∙ ap (λ n. if str_eq k e.key then 0 else n) (c.entry_keys k)
          ∙ without_root k;
      once = λ k.
          subst (λ n. n ≤ 1) (sym (heap.pop_root-same e es (has_key k)))
            (at_most (has_key k e) _ _ (ap (count (has_key k)) at) (c.once k));
      sizes = omega (
        arith,
        length-pop_visitor,
        c.sizes,
        ap length at,
        same-length (heap.pop_root e es) es (heap.pop_root-same e es),
      );
      bounded = omega (arith, length-pop_visitor, c.bounded);
      room = c.room;
      ordered = heap.pop_root-IsHeap e es (subst heap.IsHeap at c.ordered);
    }

    pub room-pop_visitor :
        length (pop_visitor heap buckets e es l).visitors
        < (pop_visitor heap buckets e es l).max_visitors
    unfolding pop_visitor remove
    room-pop_visitor = omega (arith, length-pop_visitor, c.bounded)

    pub absent-pop_visitor :
        (key : String)
        → count (has_key key) l.min_heap ≡ 0
        → count (has_key key) (pop_visitor heap buckets e es l).min_heap ≡ 0
    unfolding pop_visitor remove
    absent-pop_visitor key absent =
        heap.pop_root-same e es (has_key key)
        ∙ none_left (has_key key e) _ _ (ap (count (has_key key)) at) absent
