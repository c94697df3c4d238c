-- ===== src/Pods/Readiness.antt =====
-- internal/k8s/k8s.go: `WaitForPodReady`. The pods and the clock are functions of the number of attempts.
use youtube_stream_tracker.Prelude.{
  inr, inl, ap, Bool-cases, refl, get_or, zero, ltb, str_eq, Option, false, true, suc, ℕ, String,
  List, Bool, ◌&&◌, ◌≡◌, ◌+◌, ◌∷◌, arith, ◌<◌, [], ◌*◌, if◌then◌else◌, ◌||◌, ◌≢◌, ◌≤◌, none, some,
}

pub data Phase : Type 0 where
  pending running succeeded failed unknown : Phase

pub record Condition : Type 0 where
  pub condition_type : String
  pub condition_status : String

pub record PodStatus : Type 0 where
  pub phase : Phase
  pub conditions : List Condition

pub data PodReply : Type 0 where
  found : PodStatus → PodReply
  not_found get_failed : PodReply

-- The time at an attempt, in milliseconds, the server's reply to it, and whether the `select` after it
-- finds the context done.
pub record Attempts : Type 0 where
  pub clock : ℕ → ℕ
  pub reply : ℕ → PodReply
  pub ctx_done : ℕ → Bool

pub data WaitResult : Type 0 where
  ready get_pod pod_failed ctx_err timeout out_of_fuel : WaitResult

abbrev pub is_pod_running : PodStatus → Bool
is_pod_running p = elim p.phase [ Phase.running ↦ true | _ ↦ false ]

abbrev pub is_pod_failed : PodStatus → Bool
is_pod_failed p = elim p.phase [ Phase.failed ↦ true | _ ↦ false ]

abbrev pub is_ready : List Condition → Bool
is_ready [] = false
is_ready (c ∷ cs) =
    (str_eq c.condition_type "Ready" && str_eq c.condition_status "True") || is_ready cs

-- What an attempt comes to; `none` where another is made.
unfoldable pub after_reply : PodReply → (ctx_done : Bool) → Option WaitResult
after_reply not_found done = none
after_reply get_failed done = some get_pod
after_reply (found p) done =
    if is_pod_running p && is_ready p.conditions
    then some ready
    else if is_pod_failed p
    then some pod_failed
    else if done
    then some ctx_err
    else none

module _ (o : Attempts) (deadline : ℕ) where
  -- `fuel` bounds the attempts, and `k` numbers them.
  unfoldable pub wait_for_pod_ready : (fuel k : ℕ) → WaitResult
  wait_for_pod_ready zero k = out_of_fuel
  wait_for_pod_ready (suc fuel) k =
      let rest : WaitResult = wait_for_pod_ready fuel (suc k) in
      if ltb (o.clock k) deadline
      then get_or (after_reply (o.reply k) (o.ctx_done k)) rest
      else timeout

  not_out_of_fuel : (r : PodReply) (done : Bool) → after_reply r done ≢ some out_of_fuel
  unfolding after_reply
  not_out_of_fuel not_found done h = grind arith
  not_out_of_fuel get_failed done h = grind arith
  not_out_of_fuel (found p) done h = ground arith

  returns-by :
      (b : Bool) (r : Option WaitResult) (rest : WaitResult)
      → r ≢ some out_of_fuel
      → (b ≡ true → rest ≢ out_of_fuel)
      → (if b then get_or r rest else timeout) ≢ out_of_fuel
  returns-by true none rest x y h = y refl h
  returns-by true (some r) rest x y h = x (ap (λ v. some v) h)
  returns-by false r rest x y h = grind arith

  -- Where each wait between two attempts takes at least a second, an attempt for each second up to the
  -- deadline, and one more, are enough: the function returns.
  pub wait_for_pod_ready-returns :
      ((k : ℕ) → o.clock k + 1000 ≤ o.clock (suc k))
      → (fuel k : ℕ) → deadline ≤ o.clock k + fuel * 1000
      → wait_for_pod_ready (suc fuel) k ≢ out_of_fuel
  unfolding wait_for_pod_ready
  wait_for_pod_ready-returns passes zero k h =
      returns-by (ltb (o.clock k) deadline) _ out_of_fuel (not_out_of_fuel _ _)
        λ e. absurd ground arith
  wait_for_pod_ready-returns passes (suc fuel) k h =
      let later = passes k in
      returns-by (ltb (o.clock k) deadline) _ (wait_for_pod_ready (suc fuel) (suc k))
        (not_out_of_fuel _ _) λ e. wait_for_pod_ready-returns passes fuel (suc k) (omega arith)

  -- An attempt that found the pod ready before the deadline.
  abbrev pub FoundReady : Type 0
  FoundReady =
      (n : ℕ) × (p : PodStatus) × (o.clock n < deadline)
      × (o.reply n ≡ found p)
      × (is_pod_running p ≡ true)
      × (is_ready p.conditions ≡ true)

  after_reply-ready :
      (r : PodReply) (done : Bool)
      → after_reply r done ≡ some ready
      → (p : PodStatus) × (r ≡ found p) × (is_pod_running p ≡ true) × (is_ready p.conditions ≡ true)
  unfolding after_reply
  after_reply-ready not_found done h = absurd grind arith
  after_reply-ready get_failed done h = absurd grind arith
  after_reply-ready (found p) done h =
      elim (Bool-cases (is_pod_running p && is_ready p.conditions)) [
        | inl e ↦ (p, refl, ground arith, ground arith)
        | inr e ↦ absurd ground arith
      ]

  ready-by :
      (b : Bool) (r : Option WaitResult) (rest : WaitResult)
      → (b ≡ true → r ≡ some ready → FoundReady)
      → (rest ≡ ready → FoundReady)
      → (if b then get_or r rest else timeout) ≡ ready
      → FoundReady
  ready-by true none rest x y h = y h
  ready-by true (some r) rest x y h = x refl (ap (λ v. some v) h)
  ready-by false r rest x y h = absurd grind arith

  -- The function says ready only after an attempt, begun before the deadline, that found the pod running
  -- and one of its conditions Ready and True.
  pub wait_for_pod_ready-ready :
      (fuel k : ℕ)
      → wait_for_pod_ready fuel k ≡ ready
      → (n : ℕ) × (p : PodStatus) × (o.clock n < deadline)
        × (o.reply n ≡ found p)
        × (is_pod_running p ≡ true)
        × (is_ready p.conditions ≡ true)
  unfolding wait_for_pod_ready
  wait_for_pod_ready-ready zero k h = absurd grind arith
  wait_for_pod_ready-ready (suc fuel) k h =
      ready-by (ltb (o.clock k) deadline) (after_reply (o.reply k) (o.ctx_done k)) _
        (λ e r.
          let (p, a, b, c) = after_reply-ready (o.reply k) (o.ctx_done k) r in
          (k, p, ground arith, a, b, c))
        (wait_for_pod_ready-ready fuel (suc k)) h
