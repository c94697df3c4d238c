-- ===== src/Analyzer/Silence.antt =====
-- internal/ffmpeg/ffmpeg.go: the silences of a segment, from what ffmpeg prints of them.
use youtube_stream_tracker.Analyzer.{silence_result, is_full, unfinished_silence, sum}
use youtube_stream_tracker.Prelude.{
  last_or-append, length-append, last_or, sym, length-map, append-nil, ap, length, none, map, List,
  ltb, suc, some, Option, ℕ, if◌then◌else◌, ◌*◌, ◌≤◌, arith, ◌∙◌, ◌-◌, ◌∷◌, ◌++◌, ◌≡◌, [], ◌+◌,
}

-- Silences by start and duration, one after the other, from `begin` to at most `end`.
abbrev pub Follow : (begin : ℕ) → List (ℕ × ℕ) → (end : ℕ) → Type 0
Follow begin [] end = begin ≤ end
Follow begin ((start, duration) ∷ silences) end =
    (begin ≤ start) × Follow (start + duration) silences end

-- The start of a silence that does not end in the segment, if there is one.
abbrev pub pending_start : Option ℕ → List ℕ
pending_start none = []
pending_start (some start) = start ∷ []

abbrev pub pending_from : Option ℕ → (total : ℕ) → ℕ
pending_from none total = total
pending_from (some start) total = start

-- How long it is silent.
abbrev pub silent_time : (total : ℕ) → List (ℕ × ℕ) → Option ℕ → ℕ
silent_time total silences pending =
    sum (map (λ s. s.1) silences) + (total - pending_from pending total)

sum-Follow :
    (begin end : ℕ) (silences : List (ℕ × ℕ))
    → Follow begin silences end
    → begin + sum (map (λ s. s.1) silences) ≤ end
sum-Follow begin end [] f = omega (arith, f)
sum-Follow begin end ((start, duration) ∷ silences) (f, fs) =
    omega (arith, f, sum-Follow (start + duration) end silences fs)

ended : (m n t : ℕ) → n ≡ m → (if ltb m n then t else 0) ≡ 0
ended m n t h = ground arith

not_finished : (m n t : ℕ) → n ≡ suc m → (if ltb m n then t else 0) ≡ t
not_finished m n t h = ground arith

unfinished_silence-open :
    (total : ℕ) (silences : List (ℕ × ℕ)) (pending : Option ℕ)
    → unfinished_silence total
        (map (λ s. s.0) silences ++ pending_start pending)
        (map (λ s. s.1) silences)
      ≡ total - pending_from pending total
unfolding unfinished_silence
unfinished_silence-open total silences none =
    let starts : List ℕ = map (λ s. s.0) silences ++ [] in
    let same : length starts ≡ length (map (λ s. s.1) silences) =
      ap length (append-nil (map (λ s. s.0) silences))
      ∙ length-map (λ s. s.0) silences
      ∙ sym (length-map (λ s. s.1) silences) in
    ended (length (map (λ s. s.1) silences)) (length starts) (total - last_or 0 starts) same
    ∙ omega arith
unfinished_silence-open total silences (some start) =
    let starts : List ℕ = map (λ s. s.0) silences ++ (start ∷ []) in
    let more : length starts ≡ suc (length (map (λ s. s.1) silences)) =
      length-append (map (λ s. s.0) silences) (start ∷ [])
      ∙ omega (arith, length-map (λ s. s.0) silences, length-map (λ s. s.1) silences) in
    not_finished (length (map (λ s. s.1) silences)) (length starts) (total - last_or 0 starts) more
    ∙ ap (λ t. total - t) (last_or-append 0 (map (λ s. s.0) silences) (start ∷ []))

full : (part total : ℕ) → part ≤ total → is_full part total ≡ ltb (9 * total) (10 * part)
unfolding is_full
full part total h = ground arith

-- Silences follow one another in a segment, and the last of them may go on to its end. Where the expressions match
-- the start of every one and the duration of every one that ends (a start with a sign is not matched), the whole
-- silent time is found, which is at most the segment's duration, and the segment is fully silent just when
-- that is more than 90 percent of it.
silence_result-silent_time :
    (total : ℕ) (silences : List (ℕ × ℕ)) (pending : Option ℕ)
    → Follow 0 silences (pending_from pending total)
    → pending_from pending total ≤ total
    → let r =
        silence_result total
          (map (λ s. s.0) silences ++ pending_start pending)
          (map (λ s. s.1) silences) in
      (r.silence_duration ≡ silent_time total silences pending)
      × (r.silence_duration ≤ total)
      × (r.fully_silent ≡ ltb (9 * total) (10 * silent_time total silences pending))
unfolding silence_result
silence_result-silent_time total silences pending follow inside =
    let e = unfinished_silence-open total silences pending in
    let most = sum-Follow 0 (pending_from pending total) silences follow in
    let bound : silent_time total silences pending ≤ total = omega (arith, most, inside) in
    let same : sum (map (λ s. s.1) silences)
          + unfinished_silence total (map (λ s. s.0) silences ++ pending_start pending)
              (map (λ s. s.1) silences)
        ≡ silent_time total silences pending =
      ap (λ n. sum (map (λ s. s.1) silences) + n) e in
    (same, omega (arith, same, bound), ap (λ n. is_full n total) same ∙ full _ total bound)
