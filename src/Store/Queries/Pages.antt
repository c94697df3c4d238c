-- ===== src/Store/Queries/Pages.antt =====
-- internal/k8s/store/store.go: what the pages of `List` hold, and what counts as active.
use youtube_stream_tracker.Store.Writes.{has_active_phase}
use youtube_stream_tracker.Store.Objects.{to_monitor, Object}
use youtube_stream_tracker.Model.{status_eq, MonitorStatus, is_active, Monitor}
use youtube_stream_tracker.Prelude.Int.{pos_part, negsuc, pos, ℤ}
use youtube_stream_tracker.Prelude.{
  sym, false, none, not, some, Option, ◌&&◌, map, inr, inl, Bool-cases, length-take, min, ◌∙◌, ap,
  zero, length-drop, suc, ◌<◌, drop, take, length, ltb, List, ℕ, ◌≡◌, ◌≤◌, ◌∷◌, arith, ◌-◌,
  if◌then◌else◌, refl, ◌+◌, [],
}
use youtube_stream_tracker.Store.Queries.{
  is_empty_status, by_phase, in_phase_index, objects_listed, count_active_monitors, ListParams,
  page, list, clamp_limit,
}

take-beyond : {A : Type 0} (n : ℕ) (xs : List A) → length xs ≤ n → take n xs ≡ xs
take-beyond zero [] p = refl
take-beyond (suc n) [] p = refl
take-beyond zero (x ∷ xs) p = absurd (omega (arith, p))
take-beyond (suc n) (x ∷ xs) p = ap (λ ys. x ∷ ys) (take-beyond n xs (omega (arith, p)))

drop-beyond : {A : Type 0} (n : ℕ) (xs : List A) → length xs ≤ n → drop n xs ≡ []
drop-beyond zero [] p = refl
drop-beyond (suc n) [] p = refl
drop-beyond zero (x ∷ xs) p = absurd (omega (arith, p))
drop-beyond (suc n) (x ∷ xs) p = drop-beyond n xs (omega (arith, p))

-- Go's slice between bounds that are kept within the list.
slice : {A : Type 0} (offset limit : ℕ) → List A → List A
slice offset limit xs =
    let start : ℕ = if ltb (length xs) offset then length xs else offset in
    let end' : ℕ = if ltb (length xs) (start + limit) then length xs else start + limit in
    take (end' - start) (drop start xs)

take-nil : {A : Type 0} (n : ℕ) → Path (List A) (take n []) []
take-nil zero = refl
take-nil (suc n) = refl

slice-past :
    {A : Type 0} (offset limit : ℕ) (xs : List A)
    → length xs < offset
    → slice offset limit xs ≡ take limit (drop offset xs)
unfolding slice
slice-past offset limit xs p = grind (arith, take-nil, drop-beyond)

slice-within :
    {A : Type 0} (offset limit : ℕ) (xs : List A)
    → offset ≤ length xs
    → slice offset limit xs ≡ take limit (drop offset xs)
unfolding slice
slice-within offset limit xs p = grind (arith, length-drop, take-beyond)

pub clamp_limit-bound : (l : ℤ) → (1 ≤ clamp_limit l) × (clamp_limit l ≤ 100)
unfolding clamp_limit
clamp_limit-bound (pos n) = (ground arith, ground arith)
clamp_limit-bound (negsuc n) = (ground arith, ground arith)

page-slice :
    (p : ListParams) (monitors : List Monitor)
    → page p monitors ≡ slice (pos_part p.offset) (clamp_limit p.limit) monitors
unfolding page slice
page-slice p monitors = refl

pub page-take :
    (p : ListParams) (monitors : List Monitor)
    → page p monitors ≡ take (clamp_limit p.limit) (drop (pos_part p.offset) monitors)
page-take p monitors =
    page-slice p monitors ∙ elim (Bool-cases (ltb (length monitors) (pos_part p.offset))) [
      | inl h ↦ slice-past (pos_part p.offset) (clamp_limit p.limit) monitors (ground arith)
      | inr h ↦ slice-within (pos_part p.offset) (clamp_limit p.limit) monitors (ground arith)
    ]

page-length :
    (p : ListParams) (monitors : List Monitor)
    → length (page p monitors) ≡ min (clamp_limit p.limit) (length monitors - pos_part p.offset)
page-length p monitors =
    ap length (page-take p monitors)
    ∙ length-take (clamp_limit p.limit) (drop (pos_part p.offset) monitors)
    ∙ ap (min (clamp_limit p.limit)) (length-drop (pos_part p.offset) monitors)

-- For every limit and offset, negative ones too, `List` returns the part of the sorted monitors that
-- starts behind the offset (0 where that is negative) and is as long as the limit (corrected to
-- 1..100) and the remaining monitors allow, so never longer than 100, and with it the number of all
-- monitors that match.
pub list-page :
    (newest_first : List Monitor → List Monitor) (p : ListParams) (cache : List Object)
    → let monitors : List Monitor = newest_first (map to_monitor (objects_listed p cache)) in
      (((list newest_first p cache).0)
        ≡ take (clamp_limit p.limit) (drop (pos_part p.offset) monitors))
      × (length ((list newest_first p cache).0)
          ≡ min (clamp_limit p.limit) (length monitors - pos_part p.offset))
      × (length ((list newest_first p cache).0) ≤ 100)
      × (((list newest_first p cache).1) ≡ length monitors)
unfolding list
list-page newest_first p cache =
    let monitors : List Monitor = newest_first (map to_monitor (objects_listed p cache)) in
    let counted : length (page p monitors)
        ≡ min (clamp_limit p.limit) (length monitors - pos_part p.offset) =
      page-length p monitors in
    (page-take p monitors, counted, omega (arith, counted, (clamp_limit-bound p.limit).1), refl)

-- The objects whose phase is active.
abbrev pub actives : List Object → List Object
actives [] = []
actives (o ∷ os) = if has_active_phase o then o ∷ actives os else actives os

indexed : MonitorStatus → Option MonitorStatus → ℕ
indexed s none = 0
indexed s (some p) = if not (is_empty_status p) && status_eq p s then 1 else 0

by_phase-length :
    (s : MonitorStatus) (o : Object) (os : List Object)
    → length (by_phase s (o ∷ os)) ≡ indexed s o.status.phase + length (by_phase s os)
unfolding by_phase in_phase_index indexed
by_phase-length s o os = grind arith

indexed-active :
    (p : Option MonitorStatus)
    → indexed MonitorStatus.initializing p
        + indexed MonitorStatus.waiting p
        + indexed MonitorStatus.monitoring p
      ≡ (if (elim p [ none ↦ false | some q ↦ is_active q ]) then 1 else 0)
unfolding indexed is_active
indexed-active none = refl
indexed-active (some MonitorStatus.initializing) = refl
indexed-active (some MonitorStatus.waiting) = refl
indexed-active (some MonitorStatus.monitoring) = refl
indexed-active (some MonitorStatus.scheduled) = refl
indexed-active (some MonitorStatus.completed) = refl
indexed-active (some MonitorStatus.stopped) = refl
indexed-active (some MonitorStatus.error) = refl
indexed-active (some (MonitorStatus.other s)) = ground arith

actives-length :
    (o : Object) (os : List Object)
    → length (actives (o ∷ os)) ≡ (if has_active_phase o then 1 else 0) + length (actives os)
actives-length o os = elim (Bool-cases (has_active_phase o)) [
  | inl h ↦ grind (arith, h)
  | inr h ↦ grind (arith, h)
]

count-step :
    (o : Object) (os : List Object)
    → count_active_monitors (o ∷ os)
      ≡ (if has_active_phase o then 1 else 0) + count_active_monitors os
unfolding count_active_monitors
count-step o os = omega (
  arith,
  by_phase-length MonitorStatus.initializing o os,
  by_phase-length MonitorStatus.waiting o os,
  by_phase-length MonitorStatus.monitoring o os,
  indexed-active o.status.phase,
)

-- `CountActiveMonitors` counts each cached object whose phase is initializing, waiting or monitoring
-- exactly once, and no other.
pub count_active_monitors-actives :
    (cache : List Object) → count_active_monitors cache ≡ length (actives cache)
unfolding count_active_monitors by_phase
count_active_monitors-actives [] = refl
count_active_monitors-actives (o ∷ os) =
    count-step o os
    ∙ ap (λ n. (if has_active_phase o then 1 else 0) + n) (count_active_monitors-actives os)
    ∙ sym (actives-length o os)
