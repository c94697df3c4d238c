-- ===== src/Webhook/Retries.antt =====
-- internal/webhook/webhook.go: what the retries come to.
use youtube_stream_tracker.Webhook.Sender.{
  empty_result, send, send_with_retries, SendResult, retry_loop, attempt_result, is_success,
  Outside, retry_delay,
}
use native.Mathlib.Nat.{one-le-pow}
use youtube_stream_tracker.Prelude.{
  is_some, false, ◌-◌, ◌+◌, zero, some, none, suc, Option, ltb, ℕ, ◌≡◌, if◌then◌else◌, arith, ◌≤◌,
  refl, ◌&&◌,
}

-- Whether one of the attempts from `attempt` on is answered with a status of 200 to 299, before a wait
-- is cut short: the first such attempt.
unfoldable pub first_success : Outside → (left attempt : ℕ) → Option ℕ
first_success o zero attempt = none
first_success o (suc left) attempt =
    let rest : Option ℕ = first_success o left (suc attempt) in
    if ltb 1 attempt && o.cancelled attempt then none else (elim (o.response attempt) [
      | none ↦ rest
      | some code ↦ if is_success code then some attempt else rest
    ])

retry_delay-pos : (attempt : ℕ) → ltb 0 (retry_delay attempt) ≡ ltb 1 attempt
unfolding retry_delay
retry_delay-pos attempt = ground (arith, one-le-pow (attempt - 2) 2 (omega arith))

-- The waits before the attempts: none, then 1, 2 and 4 seconds; never more than ten.
pub retry_delay_bounds :
    (retry_delay 1 ≡ 0)
    × (retry_delay 2 ≡ 1)
    × (retry_delay 3 ≡ 2)
    × (retry_delay 4 ≡ 4)
    × ((attempt : ℕ) → retry_delay attempt ≤ 10)
unfolding retry_delay
retry_delay_bounds = (refl, refl, refl, refl, λ attempt. ground arith)

-- What the loop makes of the attempts that are left.
loop_lem :
    (o : Outside) (left k : ℕ) (result : SendResult)
    → result.success ≡ false
    → is_success result.status_code ≡ false
    → let r = retry_loop o left (suc k) result in
      (first_success o left (suc k) ≡ (if r.success then some r.attempts else none))
      × (r.success ≡ is_success r.status_code)
unfolding retry_loop first_success attempt_result
loop_lem o zero k result s c = ground arith
loop_lem o (suc left) k result s c = ground (
  arith,
  retry_delay-pos (suc k),
  loop_lem o left (suc k) (attempt_result (suc k) (o.response (suc k))),
)

loop-attempts :
    (o : Outside) (left k : ℕ) (result : SendResult)
    → result.attempts ≡ k
    → (retry_loop o left (suc k) result).attempts ≤ k + left
unfolding retry_loop attempt_result
loop-attempts o zero k result a = omega arith
loop-attempts o (suc left) k result a =
    ground (arith, loop-attempts o left (suc k) (attempt_result (suc k) (o.response (suc k))))

loop-exhausts :
    (o : Outside) (left k : ℕ) (result : SendResult)
    → result.attempts ≡ k
    → ((n : ℕ) → o.cancelled n ≡ false)
    → (retry_loop o left (suc k) result).success ≡ false
    → (retry_loop o left (suc k) result).attempts ≡ k + left
unfolding retry_loop attempt_result
loop-exhausts o zero k result a c s = omega arith
loop-exhausts o (suc left) k result a c s =
    ground
      (arith, c (suc k), loop-exhausts o left (suc k) (attempt_result (suc k) (o.response (suc k))))

-- A webhook counts as delivered exactly if one of the four attempts is answered with a status of 200
-- to 299 before the context ends in a wait: then the result names the first such attempt. It is a
-- success exactly if its status is such a status, and there are at most four attempts.
pub send_with_retries-first_success :
    (o : Outside)
    → let r = send_with_retries o in
      (first_success o 4 1 ≡ (if r.success then some r.attempts else none))
      × (r.success ≡ is_success r.status_code)
      × (r.attempts ≤ 4)
unfolding send_with_retries
send_with_retries-first_success o =
    let (p, q) = loop_lem o 4 0 empty_result refl refl in
    (p, q, loop-attempts o 4 0 empty_result refl)

-- While the context lasts, a webhook is given up only after four attempts.
pub send_with_retries-exhausts :
    (o : Outside)
    → ((n : ℕ) → o.cancelled n ≡ false)
    → (send_with_retries o).success ≡ false
    → (send_with_retries o).attempts ≡ 4
unfolding send_with_retries
send_with_retries-exhausts o c s = loop-exhausts o 4 0 empty_result refl c s

-- `Send` delivers exactly if the URL is allowed, the payload can be encoded and the retries succeed;
-- where one of the first two fails, no attempt is made at all.
pub send-allowed :
    (o : Outside)
    → ((send o).success ≡ (o.url_allowed && is_some o.body && (send_with_retries o).success))
      × ((send o).attempts
          ≡ (if o.url_allowed && is_some o.body then (send_with_retries o).attempts else 0))
unfolding send
send-allowed o = ground arith
