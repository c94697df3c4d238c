-- ===== src/Manifest/Fetch.antt =====
-- internal/manifest/manifest.go: `FetchSegment`, with its limit on the size. An `int64` is its bits.
use youtube_stream_tracker.Manifest.Mpd.{is_not_positive}
use youtube_stream_tracker.Prelude.{
  length-take, min, inr, Bool-cases, leb→le, inl, ◌==◌, ◌∙◌, not, zero, ltb, take, ap, true, ◌%◌,
  none, false, leb, some, length, ◌^◌, Option, suc, List, ℕ, ◌⊎◌, ◌+◌, ◌∷◌, if◌then◌else◌, arith,
  [], ◌≤◌, refl, ◌≡◌, ◌<◌,
}

-- What `io.ReadAll` reads through an `io.LimitReader`: nothing where the limit is not positive.
abbrev pub read_limited : {A : Type 0} → (limit : ℕ) → List A → List A
read_limited limit body = if is_not_positive limit then [] else take limit body

-- `response` is the status and the body, or `none` where the request or the reading fails; `A` is a byte. The
-- limit is positive.
unfoldable pub fetch_segment :
    {A : Type 0} → (max_segment_bytes : ℕ) → (response : Option (ℕ × List A)) → Option (List A)
fetch_segment max_segment_bytes none = none
fetch_segment max_segment_bytes (some (status, body)) =
    let content = read_limited ((max_segment_bytes + 1) % 2 ^ 64) body in
    if not (status == 200)
    then none
    else if ltb max_segment_bytes (length content)
    then none
    else some content

take-all : {A : Type 0} (n : ℕ) (xs : List A) → length xs ≤ n → take n xs ≡ xs
take-all zero [] h = refl
take-all zero (x ∷ xs) h = absurd (omega (arith, h))
take-all (suc n) [] h = refl
take-all (suc n) (x ∷ xs) h = ap (λ ys. x ∷ ys) (take-all n xs (omega (arith, h)))

-- `FetchSegment` written without a reader.
abbrev pub whole : {A : Type 0} → (max_segment_bytes : ℕ) → List A → Option (List A)
whole max_segment_bytes body = if leb (length body) max_segment_bytes then some body else none

positive : (limit n : ℕ) → limit ≡ suc n → limit < 2 ^ 63 → is_not_positive limit ≡ false
positive limit n e h = ground arith

from_limit :
    {A : Type 0} (limit n : ℕ) (body : List A)
    → limit ≡ suc n
    → limit < 2 ^ 63
    → read_limited limit body ≡ take (suc n) body
from_limit limit n body e h = rw (positive limit n e h) (ap (λ k. take k body) e)

read_limited-take :
    {A : Type 0} (max : ℕ) (body : List A)
    → max + 1 < 2 ^ 63
    → read_limited ((max + 1) % 2 ^ 64) body ≡ take (suc max) body
read_limited-take max body h =
    from_limit ((max + 1) % 2 ^ 64) max body (omega (arith, h)) (omega (arith, h))

not_above : (max n : ℕ) → n ≤ max → ltb max n ≡ false
not_above max n h = ground arith

above : (max n k : ℕ) → leb n max ≡ false → k ≡ min (suc max) n → ltb max k ≡ true
above max n k e h = ground arith

by_length :
    {A : Type 0} (max : ℕ) (body : List A)
    → (leb (length body) max ≡ true) ⊎ (leb (length body) max ≡ false)
    → (if ltb max (length (take (suc max) body)) then none else some (take (suc max) body))
      ≡ whole max body
by_length max body (inl e) =
    rw (e, take-all (suc max) body (ground (arith, leb→le (length body) max e)))
      (rw (not_above max (length body) (leb→le _ _ e)) refl)
by_length max body (inr e) = rw (e, above max (length body) _ e (length-take (suc max) body)) refl

-- With a limit below the largest `int64`, a segment that is answered with status 200 is returned whole if
-- it has at most that many bytes and refused otherwise: it is never cut.
pub fetch_segment-whole :
    {A : Type 0} (max : ℕ) (body : List A)
    → max + 1 < 2 ^ 63
    → fetch_segment max (some (200, body)) ≡ whole max body
unfolding fetch_segment
fetch_segment-whole max body h =
    ap (λ xs. if ltb max (length xs) then none else some xs) (read_limited-take max body h)
    ∙ by_length max body (Bool-cases (leb (length body) max))
