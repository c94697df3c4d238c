-- ===== src/Worker/Alarm.antt =====
-- What blackout and silence detection promise, as a machine of its own: an alarm over the readings
-- of one segment after the other, with no clock and no webhook.
use youtube_stream_tracker.Prelude.{
  ◌||◌, ℕ, suc, ◌+◌, ◌<◌, ◌≡◌, refl, ap, ap₂, ◌∙◌, Bool, true, false, not, ◌&&◌, Option, none, some,
  List, [], ◌∷◌, ◌++◌, arith, leb, if◌then◌else◌,
}

pub data Signal : Type 0 where
  raised recovered : Signal

-- `total` is the length of the current run of bad segments, `active` says that there is one.
pub record Alarm : Type 0 where
  pub threshold : ℕ
  pub sent : Bool
  pub active : Bool
  pub total : ℕ
  pub count : ℕ

-- A bad segment of the given duration.
unfoldable pub bad : ℕ → Alarm → Alarm × Option Signal
bad d a =
    let a' : Alarm = record a { active = true; total = a.total + d } in
    if not a.sent && leb a.threshold (a.total + d)
    then (record a' { sent = true; count = suc a.count }, some raised)
    else (a', none)

unfoldable pub good : Alarm → Alarm × Option Signal
good a =
    let a' : Alarm = record a { active = false; total = 0 } in
    if a.sent && a.active then (record a' { sent = false }, some recovered) else (a', none)

-- A reading is a duration, and whether the segment was bad.
abbrev pub step : Bool × ℕ → Alarm → Alarm × Option Signal
step (true, d) a = bad d a
step (false, d) a = good a

abbrev pub cons_signal : Option Signal → List Signal → List Signal
cons_signal none ss = ss
cons_signal (some s) ss = s ∷ ss

-- The state after the readings, and the signals, in order.
unfoldable pub feed : List (Bool × ℕ) → Alarm → Alarm × List Signal
feed [] a = (a, [])
feed (r ∷ rs) a = let (a', s) = step r a in let (a'', ss) = feed rs a' in (a'', cons_signal s ss)

abbrev pub bads : List ℕ → List (Bool × ℕ)
bads [] = []
bads (d ∷ ds) = (true, d) ∷ bads ds

abbrev pub sum : List ℕ → ℕ
sum [] = 0
sum (d ∷ ds) = d + sum ds

-- Between two runs of bad segments, with nothing to recover from.
pub record IsClear (a : Alarm) : Type 0 where
  pub not_sent : a.sent ≡ false
  pub not_active : a.active ≡ false
  pub no_total : a.total ≡ 0

feed-sent :
    (ds : List ℕ) (d : ℕ) (a : Alarm)
    → a.sent ≡ true
    → a.active ≡ true
    → let (a', ss) = feed (bads ds ++ (false, d) ∷ []) a in
      (ss ≡ recovered ∷ []) × IsClear a' × (a'.count ≡ a.count)
unfolding feed good bad
feed-sent [] d a h k = ground arith
feed-sent (e ∷ ds) d a h k = ground (arith, feed-sent ds d (bad e a).0)

feed-unsent :
    (ds : List ℕ) (d : ℕ) (a : Alarm)
    → a.sent ≡ false
    → a.total < a.threshold
    → let (a', ss) = feed (bads ds ++ (false, d) ∷ []) a in
      (ss ≡ (if leb a.threshold (a.total + sum ds) then raised ∷ recovered ∷ [] else []))
      × IsClear a'
      × (a'.count ≡ (if leb a.threshold (a.total + sum ds) then suc a.count else a.count))
unfolding feed good bad
feed-unsent [] d a h k = ground arith
feed-unsent (e ∷ ds) d a h k =
    ground (arith, feed-unsent ds d (bad e a).0, feed-sent ds d (bad e a).0)

-- A run of bad segments with a good one behind it raises the alarm once and recovers from it, if the
-- run is long enough, and is silent if not.
pub feed-run :
    (e : ℕ) (ds : List ℕ) (d : ℕ) (a : Alarm)
    → IsClear a
    → let (a', ss) = feed (bads (e ∷ ds) ++ (false, d) ∷ []) a in
      (ss ≡ (if leb a.threshold (sum (e ∷ ds)) then raised ∷ recovered ∷ [] else []))
      × IsClear a'
      × (a'.count ≡ (if leb a.threshold (sum (e ∷ ds)) then suc a.count else a.count))
unfolding feed good bad
feed-run e ds d a h = ground (arith, feed-unsent ds d (bad e a).0, feed-sent ds d (bad e a).0)

-- Raised and recovered by turns: `open` says which is next.
abbrev pub Alternates : Bool → List Signal → Type 0
Alternates is_raised [] = Unit
Alternates true (recovered ∷ ss) = Alternates false ss
Alternates false (raised ∷ ss) = Alternates true ss
Alternates _ (_ ∷ ss) = ⊥

abbrev pub raises : List Signal → ℕ
raises [] = 0
raises (raised ∷ ss) = suc (raises ss)
raises (recovered ∷ ss) = raises ss

-- An alarm that was raised has a run of bad segments under way.
unfoldable pub IsSound : Alarm → Type 0
IsSound a = (not a.sent || a.active) ≡ true

pub step-IsSound : (r : Bool × ℕ) (a : Alarm) → IsSound a → IsSound (step r a).0
unfolding IsSound bad good
step-IsSound (true, d) a h = ground arith
step-IsSound (false, d) a h = ground arith

-- Whatever the readings, the signals alternate, and `count` counts the raised ones.
pub feed-Alternates :
    (rs : List (Bool × ℕ)) (a : Alarm)
    → IsSound a
    → Alternates a.sent (feed rs a).1 × ((feed rs a).0.count ≡ raises (feed rs a).1 + a.count)
unfolding feed IsSound bad good
feed-Alternates [] a h = (tt, omega arith)
feed-Alternates ((true, d) ∷ rs) a h =
    ground (arith, feed-Alternates rs (bad d a).0, step-IsSound (true, d) a)
feed-Alternates ((false, d) ∷ rs) a h =
    ground (arith, feed-Alternates rs (good a).0, step-IsSound (false, d) a)

-- Readings as runs of bad segments, each with a good segment behind it.
abbrev pub readings : List (List ℕ × ℕ) → List (Bool × ℕ)
readings [] = []
readings ((ds, d) ∷ runs) = (bads ds ++ (false, d) ∷ []) ++ readings runs

-- What a run is worth: a pair of signals, if it is long enough.
abbrev pub signals_of_run : ℕ → List ℕ → List Signal
signals_of_run threshold [] = []
signals_of_run threshold (e ∷ ds) =
    if leb threshold (sum (e ∷ ds)) then raised ∷ recovered ∷ [] else []

abbrev pub signals : ℕ → List (List ℕ × ℕ) → List Signal
signals threshold [] = []
signals threshold ((ds, d) ∷ runs) = signals_of_run threshold ds ++ signals threshold runs

append_cons_signal :
    (s : Option Signal) (xs ys : List Signal) → cons_signal s xs ++ ys ≡ cons_signal s (xs ++ ys)
append_cons_signal none xs ys = refl
append_cons_signal (some s) xs ys = refl

feed-append :
    (xs ys : List (Bool × ℕ)) (a : Alarm)
    → feed (xs ++ ys) a ≡ ((feed ys (feed xs a).0).0, (feed xs a).1 ++ (feed ys (feed xs a).0).1)
unfolding feed
feed-append [] ys a = refl
feed-append (x ∷ xs) ys a = ground (
  arith,
  feed-append xs ys (step x a).0,
  append_cons_signal (step x a).1 (feed xs (step x a).0).1 (feed ys (feed xs (step x a).0).0).1,
)

step-threshold : (r : Bool × ℕ) (a : Alarm) → (step r a).0.threshold ≡ a.threshold
unfolding bad good
step-threshold (true, d) a = ground arith
step-threshold (false, d) a = ground arith

feed-threshold : (rs : List (Bool × ℕ)) (a : Alarm) → (feed rs a).0.threshold ≡ a.threshold
unfolding feed
feed-threshold [] a = refl
feed-threshold (r ∷ rs) a = feed-threshold rs (step r a).0 ∙ step-threshold r a

feed-one :
    (ds : List ℕ) (d : ℕ) (a : Alarm)
    → IsClear a
    → let (a', ss) = feed (bads ds ++ (false, d) ∷ []) a in
      (ss ≡ signals_of_run a.threshold ds) × IsClear a'
unfolding feed good
feed-one [] d a h = ground arith
feed-one (e ∷ ds) d a h = let (s, c, n) = feed-run e ds d a h in (s, c)

-- Whatever the runs, each is worth its signals, and no other is sent.
pub feed-readings :
    (runs : List (List ℕ × ℕ)) (a : Alarm)
    → IsClear a
    → ((feed (readings runs) a).1 ≡ signals a.threshold runs) × IsClear (feed (readings runs) a).0
unfolding feed
feed-readings [] a h = (refl, h)
feed-readings ((ds, d) ∷ runs) a h =
    let first : List (Bool × ℕ) = bads ds ++ (false, d) ∷ [] in
    let a' : Alarm = (feed first a).0 in
    let (s, c) = feed-one ds d a h in
    let (s', c') = feed-readings runs a' c in
    rw (feed-append first (readings runs) a)
      (ap₂ ◌++◌ s (s' ∙ ap (λ t. signals t runs) (feed-threshold first a)), c')
