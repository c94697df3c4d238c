-- ===== src/Middleware.antt =====
-- internal/httpapi/middleware.go: the keys of an API, and the rate limits.
pub mod Keys
pub mod RateLimiter
pub mod Counts
pub mod Visitors
pub mod Insertion
pub mod Invariant
pub mod Eviction
pub mod Sweep
pub mod Registry
pub mod Replies
use youtube_stream_tracker.Prelude.{len, slice, starts_with, str_eq, String, if◌then◌else◌}

pub data Authorization : Type 0 where
  key_required invalid_key authorized : Authorization

unfoldable pub check_key : (api_key key : String) → Authorization
check_key api_key key =
    if str_eq key "" then key_required else if str_eq key api_key then authorized else invalid_key

-- The key of the header Authorization.
unfoldable pub bearer_key : String → String
bearer_key auth = if starts_with auth "Bearer " then slice auth 7 (len auth) else ""

abbrev pub given_key : (header auth : String) → String
given_key header auth = if str_eq header "" then bearer_key auth else header

-- `header` is X-API-Key and `auth` is Authorization; an absent header reads as the empty text.
unfoldable pub api_key_auth : (api_key header auth : String) → Authorization
api_key_auth api_key header auth = check_key api_key (given_key header auth)

unfoldable pub internal_api_key_auth : (api_key header : String) → Authorization
internal_api_key_auth api_key header = check_key api_key header
