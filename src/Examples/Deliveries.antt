-- ===== src/Examples/Deliveries.antt =====
-- internal/webhook/webhook.go at concrete answers and signatures.
use youtube_stream_tracker.Webhook.Signature.{verify_signature-sign, sign, verify_signature}
use youtube_stream_tracker.Webhook.Retries.{send_with_retries-first_success, first_success}
use youtube_stream_tracker.Prelude.{
  ltb, false, none, ◌↔◌, some, true, String, ℕ, ◌+◌, ◌≤◌, if◌then◌else◌, arith, ◌≡◌,
}
use youtube_stream_tracker.Webhook.Sender.{is_success, Outside, send_with_retries}

-- The first two attempts fail, with an error and with a status, and the third succeeds.
abbrev flaky : Outside
flaky = record {
  url_allowed = true;
  body = some "{}";
  cancelled = λ n. false;
  response = λ n. if ltb n 2 then none else (if ltb n 3 then some 503 else some 204);
}

send_with_retries-first_success_example :
    let r = send_with_retries flaky in
    (first_success flaky 4 1 ≡ (if r.success then some r.attempts else none))
    × (r.success ≡ is_success r.status_code)
    × (r.attempts ≤ 4)
send_with_retries-first_success_example = send_with_retries-first_success flaky

-- Stands for the formatting and for the digest.
abbrev pub format_sample : ℕ → String → String
format_sample n body = body

abbrev pub digest_sample : String → String → String
digest_sample signing_key text = text

verify_signature-sign_example :
    (verify_signature format_sample digest_sample "k" "body" 1700000000 "body" 1700000100 ≡ true)
    ↔ (("body" ≡ sign format_sample digest_sample "k" 1700000000 "body")
        × (1700000100 ≤ 1700000000 + 300)
        × (1700000000 ≤ 1700000100 + 300))
verify_signature-sign_example =
    verify_signature-sign format_sample digest_sample "k" "body" 1700000000 "body" 1700000100
      (omega arith) (omega arith)
