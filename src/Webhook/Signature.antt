-- ===== src/Webhook/Signature.antt =====
-- internal/webhook/webhook.go: the signature of a webhook, and its verification by a receiver.
-- An `int64` is its bit pattern, a number below 2 ^ 64; the sums wrap around.
use youtube_stream_tracker.Prelude.{
  eq_iff, ltb, str_eq, not, false, leb, true, Bool, ◌^◌, String, ◌%◌, ℕ, if◌then◌else◌, ◌+◌, arith,
  ◌&&◌, ◌<◌, ◌≤◌, ◌≡◌, ◌↔◌, ◌-◌,
}

abbrev pub modulus : ℕ
modulus = 2 ^ 64

abbrev pub is_negative : ℕ → Bool
is_negative n = leb (2 ^ 63) n

abbrev pub sub64 : ℕ → ℕ → ℕ
sub64 a b = (a + modulus - b) % modulus

-- `abs`: the smallest `int64` is its own opposite.
unfoldable pub abs : ℕ → ℕ
abs n = if is_negative n then sub64 0 n else n

-- `n > 300`, signed.
abbrev pub is_above_window : ℕ → Bool
is_above_window n = not (is_negative n) && ltb 300 n

-- Go's `fmt.Sprintf("%d.%s", …)`, and crypto/hmac with SHA-256 in hexadecimal.
module _ (format : ℕ → String → String) (hmac : String → String → String) where
  unfoldable pub sign : String → ℕ → String → String
  sign signing_key timestamp body = hmac signing_key (format timestamp body)

  unfoldable pub verify_signature :
      (signing_key signature : String) (timestamp : ℕ) (body : String) (now : ℕ) → Bool
  verify_signature signing_key signature timestamp body now =
      if is_above_window (abs (sub64 now timestamp))
      then false
      else str_eq signature (hmac signing_key (format timestamp body))

  -- With a clock and a timestamp from 1970 on, exactly the signature that the sender makes is accepted,
  -- and only for five minutes before and after the timestamp.
  pub verify_signature-sign :
      (signing_key signature : String) (timestamp : ℕ) (body : String) (now : ℕ)
      → timestamp < 2 ^ 63
      → now < 2 ^ 63
      → (verify_signature signing_key signature timestamp body now ≡ true) ↔ (
          (signature ≡ sign signing_key timestamp body)
          × (now ≤ timestamp + 300)
          × (timestamp ≤ now + 300))
  unfolding verify_signature sign abs
  verify_signature-sign signing_key signature timestamp body now ht hn =
      ground (arith, eq_iff signature (hmac signing_key (format timestamp body)))

  -- A timestamp 2 ^ 63 seconds before the clock passes the test of the window: the difference is the
  -- smallest `int64`, and its `abs` is negative.
  pub verify_signature-wraps :
      (signing_key : String) (body : String) (now : ℕ)
      → now < 2 ^ 63
      → verify_signature signing_key (sign signing_key (now + 2 ^ 63) body) (now + 2 ^ 63) body now
        ≡ true
  unfolding verify_signature sign abs
  verify_signature-wraps signing_key body now hn = ground (
    arith,
    eq_iff (hmac signing_key (format (now + 2 ^ 63) body))
        (hmac signing_key (format (now + 2 ^ 63) body)),
  )
