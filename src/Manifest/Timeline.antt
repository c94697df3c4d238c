-- ===== src/Manifest/Timeline.antt =====
-- internal/manifest/manifest.go: the loop over a timeline counts the segments that the timeline stands for.
use youtube_stream_tracker.Manifest.Mpd.{
  at_start, Progress, advance_timeline, read_timeline, repeat_of, start_time, TimelineS,
}
use native.Mathlib.Nat.{mul-suc}
use youtube_stream_tracker.Prelude.{
  ltb, last_or-append, last_or, sym, none, length-append, if◌then◌else◌, true, some, All, ap, zero,
  false, ◌^◌, suc, ◌%◌, List, ◌==◌, length, ℕ, Bool, ◌*◌, ◌∷◌, refl, [], arith, ◌++◌, ◌≡◌, ◌+◌, ◌∙◌,
}

-- The start times of `n` segments of length `d`.
abbrev pub repeat_from : (t d n : ℕ) → List ℕ
repeat_from t d zero = []
repeat_from t d (suc n) = t ∷ repeat_from (t + d) d n

-- An element starts at the time that it names. Where it names none, it starts at 0 if it is the first, and else
-- where the one before it ends.
abbrev pub own_start : (first : Bool) (current_time : ℕ) → TimelineS → ℕ
own_start true current_time s = s.t
own_start false current_time s = if ltb 0 s.t then s.t else current_time

-- How often the segment is repeated: not at all where the 64 bits stand for a negative number.
abbrev pub repeats : TimelineS → ℕ
repeats s = if ltb s.r (2 ^ 63) then s.r else 0

own_start-start_time :
    (first : Bool) (cur : ℕ) (s : TimelineS) → own_start first cur s ≡ start_time first cur s
own_start-start_time true cur s = ground arith
own_start-start_time false cur s = ground arith

repeats-repeat_of : (s : TimelineS) → repeats s ≡ repeat_of s
repeats-repeat_of s = ground arith

-- The start times of all segments, without wrapping around: an element with a repeat of `r` stands for
-- `r + 1` segments, one after the other.
abbrev pub starts : (first : Bool) (current_time : ℕ) → List TimelineS → List ℕ
starts first current_time [] = []
starts first current_time (s ∷ ss) =
    let t : ℕ = own_start first current_time s in
    repeat_from t s.d (suc (repeats s)) ++ starts false (t + s.d * (repeats s + 1)) ss

starts-suc :
    (first : Bool) (cur : ℕ) (s : TimelineS) (ss : List TimelineS)
    → starts first cur (s ∷ ss)
      ≡ repeat_from (start_time first cur s) s.d (suc (repeat_of s))
        ++ starts false (start_time first cur s + s.d * (repeat_of s + 1)) ss
starts-suc first cur s ss = rw (own_start-start_time first cur s, repeats-repeat_of s) refl

abbrev pub last_duration : ℕ → List TimelineS → ℕ
last_duration d [] = d
last_duration d (s ∷ ss) = last_duration s.d ss

abbrev pub HasDuration : TimelineS → Type 0
HasDuration s = (s.d == 0) ≡ false

length-repeat_from : (t d n : ℕ) → length (repeat_from t d n) ≡ n
length-repeat_from t d zero = refl
length-repeat_from t d (suc n) = ap suc (length-repeat_from (t + d) d n)

last_or-repeat_from : (x t d n : ℕ) → last_or x (repeat_from t d (suc n)) ≡ t + d * n
last_or-repeat_from x t d zero = omega arith
last_or-repeat_from x t d (suc n) = last_or-repeat_from t (t + d) d n ∙ omega (arith, mul-suc d n)

same_start :
    (first : Bool) (a b : ℕ) (s : TimelineS)
    → a % 2 ^ 64 ≡ b % 2 ^ 64
    → start_time first a s % 2 ^ 64 ≡ start_time first b s % 2 ^ 64
same_start first a b s h = ground arith

wrap : (a b c : ℕ) → a % 2 ^ 64 ≡ b % 2 ^ 64 → (a + c) % 2 ^ 64 ≡ (b + c) % 2 ^ 64
wrap a b c h = omega (arith, h)

wrap_twice : (a : ℕ) → a % 2 ^ 64 % 2 ^ 64 ≡ a % 2 ^ 64
wrap_twice a = omega arith

length-starts :
    (first : Bool) (cur : ℕ) (s : TimelineS) (ss : List TimelineS)
    → length (starts first cur (s ∷ ss))
      ≡ suc (repeat_of s)
        + length (starts false (start_time first cur s + s.d * (repeat_of s + 1)) ss)
length-starts first cur s ss =
    ap length (starts-suc first cur s ss)
    ∙ length-append (repeat_from (start_time first cur s) s.d (suc (repeat_of s))) _
    ∙ ap (λ n. n + length (starts false (start_time first cur s + s.d * (repeat_of s + 1)) ss))
        (length-repeat_from (start_time first cur s) s.d (suc (repeat_of s)))

last_or-starts :
    (first : Bool) (cur x : ℕ) (s : TimelineS) (ss : List TimelineS)
    → last_or x (starts first cur (s ∷ ss))
      ≡ last_or
          (start_time first cur s + s.d * repeat_of s)
          (starts false (start_time first cur s + s.d * (repeat_of s + 1)) ss)
last_or-starts first cur x s ss =
    ap (last_or x) (starts-suc first cur s ss)
    ∙ last_or-append x (repeat_from (start_time first cur s) s.d (suc (repeat_of s))) _
    ∙ ap (λ y. last_or y (starts false (start_time first cur s + s.d * (repeat_of s + 1)) ss))
        (last_or-repeat_from x (start_time first cur s) s.d (repeat_of s))

wrap_length : (c n r m k : ℕ) → c ≡ (n + suc r + m) % 2 ^ 64 → k ≡ suc r + m → c ≡ (n + k) % 2 ^ 64
wrap_length c n r m k h e = omega (arith, h, e)

read_timeline-from :
    (first : Bool) (ss : List TimelineS) (p : Progress) (cur x n : ℕ)
    → All HasDuration ss
    → p.current_time % 2 ^ 64 ≡ cur % 2 ^ 64
    → p.time_value ≡ x % 2 ^ 64
    → p.segments_count ≡ n % 2 ^ 64
    → (q : Progress) × (read_timeline first ss p ≡ some q)
      × (q.segments_count ≡ (n + length (starts first cur ss)) % 2 ^ 64)
      × (q.time_value ≡ last_or x (starts first cur ss) % 2 ^ 64)
      × (q.duration ≡ last_duration p.duration ss)
unfolding read_timeline advance_timeline
read_timeline-from first [] p cur x n given c v k = (p, refl, omega (arith, k), v, refl)
read_timeline-from first (s ∷ ss) p cur x n (d, given) c v k =
    let t : ℕ = start_time first cur s in
    let same = same_start first p.current_time cur s c in
    let (q, e, m, w, l) =
      read_timeline-from false ss (advance_timeline first s p) (t + s.d * (repeat_of s + 1))
        (t + s.d * repeat_of s) (n + suc (repeat_of s)) given
        (wrap_twice (start_time first p.current_time s + s.d * (repeat_of s + 1))
          ∙ wrap _ _ (s.d * (repeat_of s + 1)) same)
        (wrap _ _ (s.d * repeat_of s) same) (omega (arith, k)) in
    (
      q,
      ap (λ b. if b then none else read_timeline false ss (advance_timeline first s p)) d ∙ e,
      wrap_length _ n (repeat_of s) _ _ m (length-starts first cur s ss),
      w ∙ sym (ap (λ y. y % 2 ^ 64) (last_or-starts first cur x s ss)),
      l,
    )

-- Every element of a timeline having a duration, the loop over it ends without an error, and it counts the
-- segments that the timeline stands for and finds the start time of the last one and its duration, up to
-- the wrap-around of the 64-bit numbers. An element with a repeat of `r` stands for `r + 1` segments, with a
-- negative one for one, and it starts at its own time or, without one, where the element before it ends.
pub read_timeline-starts :
    (ss : List TimelineS)
    → All HasDuration ss
    → (q : Progress) × (read_timeline true ss at_start ≡ some q)
      × (q.segments_count ≡ length (starts true 0 ss) % 2 ^ 64)
      × (q.time_value ≡ last_or 0 (starts true 0 ss) % 2 ^ 64)
      × (q.duration ≡ last_duration 0 ss)
read_timeline-starts ss given =
    let (q, e, m, w, l) = read_timeline-from true ss at_start 0 0 0 given refl refl refl in
    (q, e, omega (arith, m), w, l)
