-- ===== src/Webhook.antt =====
-- internal/webhook/webhook.go: the delivery of a webhook with retries, and its signature.
pub mod Sender
pub mod Redirects
pub mod Retries
pub mod Signature
pub mod Request
