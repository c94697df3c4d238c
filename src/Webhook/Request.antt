-- ===== src/Webhook/Request.antt =====
-- internal/webhook/webhook.go, `sendOnce`, and the receiver of cmd/webhook-demo/main.go. The decimals of a
-- timestamp, the signature's parts and the parser of the payload are parameters. A request whose body
-- cannot be read is left out.
use youtube_stream_tracker.Prelude.{
  slice-append_right, len-append, refl, len, ◌^◌, str_eq, slice, List, str_append, starts_with,
  true, not, Bool, String, ℕ, Option, ◌<◌, ◌≡◌, if◌then◌else◌, ◌≤◌, ◌∷◌, [], ◌+◌, none, some,
}
use youtube_stream_tracker.Webhook.Signature.{verify_signature-sign, sign, verify_signature}
use text.Mathlib.TextPositions.{starts_with-append}

pub record Request : Type 0 where
  pub method : String
  pub url : String
  pub headers : List (String × String)
  pub body : String

-- `strconv.ParseInt` and `%d`, `%d.%s`, HMAC-SHA256 in hexadecimal, and whether encoding/json reads the
-- payload.
pub record Codec : Type 0 where
  pub decimal : ℕ → String
  pub parse_int : String → Option ℕ
  pub format : ℕ → String → String
  pub hmac : String → String → String
  pub unmarshals : String → Bool

-- `Header.Get`: an absent header reads as the empty text.
abbrev pub header : String → List (String × String) → String
header name [] = ""
header name ((n, v) ∷ hs) = let rest : String = header name hs in if str_eq name n then v else rest

abbrev pub trim_prefix : (s prefix : String) → String
trim_prefix s prefix = if starts_with s prefix then slice s (len prefix) (len s) else s

pub data Received : Type 0 where
  method_not_allowed invalid_timestamp invalid_signature invalid_payload ok : Received

module _ (codec : Codec) where
  unfoldable pub signed_request :
      (signing_key url : String) → (timestamp : ℕ) → (body : String) → Request
  signed_request signing_key url timestamp body = record {
    method = "POST";
    url = url;
    headers =
        ("Content-Type", "application/json")
        ∷ ("X-Timestamp", codec.decimal timestamp)
        ∷ (
          "X-Signature-256",
          str_append "sha256=" (sign codec.format codec.hmac signing_key timestamp body),
        )
        ∷ [];
    body = body;
  }

  -- The status of the response; `none` where the client fails.
  unfoldable pub send_once :
      (perform : Request → Option ℕ)
      → (signing_key url : String) → (timestamp : ℕ) → (body : String) → Option ℕ
  send_once perform signing_key url timestamp body =
      perform (signed_request signing_key url timestamp body)

  unfoldable pub receive_signed :
      (signing_key : String) → (timestamp : ℕ) → Request → (now : ℕ) → Received
  receive_signed signing_key timestamp r now =
      if not (
        verify_signature codec.format codec.hmac signing_key
          (trim_prefix (header "X-Signature-256" r.headers) "sha256=") timestamp r.body now)
      then invalid_signature
      else if codec.unmarshals r.body
      then ok
      else invalid_payload

  unfoldable pub receive : (signing_key : String) → Request → (now : ℕ) → Received
  receive signing_key r now =
      if not (str_eq r.method "POST")
      then method_not_allowed
      else elim (codec.parse_int (header "X-Timestamp" r.headers)) [
        | none ↦ invalid_timestamp
        | some timestamp ↦ receive_signed signing_key timestamp r now
      ]

trim_prefix-append : (p s : String) → trim_prefix (str_append p s) p ≡ s
trim_prefix-append p s = rw (starts_with-append p s, len-append p s) (slice-append_right p s)

-- The request that the sender makes passes the tests of the receiver of the demo, where both have the same
-- key, the decimals of the timestamp are read back, the clocks are from 1970 on and at most five minutes
-- apart, and the payload can be read.
pub receive-signed_request :
    (codec : Codec) (signing_key url body : String) (timestamp now : ℕ)
    → codec.parse_int (codec.decimal timestamp) ≡ some timestamp
    → codec.unmarshals body ≡ true
    → timestamp < 2 ^ 63
    → now < 2 ^ 63
    → now ≤ timestamp + 300
    → timestamp ≤ now + 300
    → receive codec signing_key (signed_request codec signing_key url timestamp body) now ≡ ok
unfolding receive receive_signed signed_request
receive-signed_request codec signing_key url body timestamp now back readable ht hn late early =
    let signature = sign codec.format codec.hmac signing_key timestamp body in
    let trimmed = trim_prefix-append "sha256=" signature in
    let verified =
      (verify_signature-sign codec.format codec.hmac signing_key signature timestamp body now ht
          hn).1
        (refl, late, early) in
    rw (back, trimmed, verified, readable) refl
