-- ===== src/Webhook/Sender.antt =====
-- internal/webhook/webhook.go: `Send` and what it calls. The validation of the URL, the encoding of the
-- payload, the waits and the HTTP request of each attempt are answered by an `Outside`; an error
-- of Go's client is `none`. Delays are seconds.
use youtube_stream_tracker.Prelude.{
  none, ◌^◌, zero, String, ltb, some, Option, leb, suc, Bool, false, ℕ, ◌&&◌, ◌-◌, if◌then◌else◌,
}

pub data SendError : Type 0 where
  no_error invalid_url marshal context_canceled request_failed : SendError
  http_status : ℕ → SendError

pub record SendResult : Type 0 where
  pub success : Bool
  pub attempts : ℕ
  pub status_code : ℕ
  pub error : SendError

-- Each attempt is numbered from 1.
pub record Outside : Type 0 where
  pub url_allowed : Bool
  pub body : Option String
  -- the context ends during the wait before this attempt
  pub cancelled : ℕ → Bool
  -- the status of the response
  pub response : ℕ → Option ℕ

abbrev pub empty_result : SendResult
empty_result = record { success = false; attempts = 0; status_code = 0; error = no_error }

-- `NewSender`: the first attempt and three retries.
abbrev pub max_retries : ℕ
max_retries = 4

-- At most ten seconds; `attempt` is small, so that `1 << shift` does not overflow.
unfoldable pub retry_delay : ℕ → ℕ
retry_delay attempt =
    if leb attempt 1 then 0 else (if ltb 10 (2 ^ (attempt - 2)) then 10 else 2 ^ (attempt - 2))

abbrev pub is_success : ℕ → Bool
is_success code = leb 200 code && ltb code 300

-- The result of one attempt.
unfoldable pub attempt_result : ℕ → Option ℕ → SendResult
attempt_result attempt none = record {
  success = false;
  attempts = attempt;
  status_code = 0;
  error = request_failed;
}
attempt_result attempt (some code) = record {
  success = is_success code;
  attempts = attempt;
  status_code = code;
  error = if is_success code then no_error else http_status code;
}

-- The loop from `attempt` on, with `left` attempts to make; `result` is what the last one left.
unfoldable pub retry_loop : Outside → (left attempt : ℕ) → SendResult → SendResult
retry_loop o zero attempt result = result
retry_loop o (suc left) attempt result =
    let waits : Bool = ltb 0 (retry_delay attempt) in
    let r : SendResult = attempt_result attempt (o.response attempt) in
    let rest : SendResult = retry_loop o left (suc attempt) r in
    if waits && o.cancelled attempt
    then record result { attempts = attempt; error = context_canceled }
    else (if r.success then r else rest)

unfoldable pub send_with_retries : Outside → SendResult
send_with_retries o = retry_loop o max_retries 1 empty_result

-- `Send`, by `sendValidated`.
unfoldable pub send : Outside → SendResult
send o =
    if o.url_allowed
    then (elim o.body [
      | none ↦ record empty_result { error = marshal }
      | some body ↦ send_with_retries o
    ])
    else record empty_result { error = invalid_url }
