-- ===== src/Validation.antt =====
-- internal/validation/url.go: the URLs and addresses that the gateway and the workers may call.
pub mod Dialling
pub mod Outbound
use youtube_stream_tracker.Prelude.{
  str_eq, not, none, true, false, some, String, List, Bool, Option, ◌∷◌, if◌then◌else◌, ◌&&◌, [],
  ◌||◌,
}

-- The tests of `net.IP`. A nil address is `none` where the code tests for it.
pub record Ip : Type 0 where
  pub text : String
  pub is_global_unicast : Bool
  pub is_loopback : Bool
  pub is_private : Bool
  pub is_link_local_multicast : Bool
  pub is_link_local_unicast : Bool
  pub is_multicast : Bool
  pub is_unspecified : Bool

unfoldable pub is_private_ip : Option Ip → Bool
is_private_ip none = true
is_private_ip (some ip) =
    if not ip.is_global_unicast
    then true
    else ip.is_loopback || ip.is_private || ip.is_link_local_multicast || ip.is_link_local_unicast
      || ip.is_multicast || ip.is_unspecified

pub data UrlError : Type 0 where
  parse_url unsupported_scheme missing_host private_ip_not_allowed resolve_host no_resolved_ip :
      UrlError

pub record Url : Type 0 where
  pub scheme : String
  pub hostname : String

-- What net/url and net answer. A resolved address may be nil.
pub record Network : Type 0 where
  pub parse : String → Option Url
  pub parse_ip : String → Option Ip
  pub lookup_ip_addr : (host : String) → Option (List (Option Ip))
  pub split_host_port : String → Option (String × String)
  -- whether a connection to an address and a port is made
  pub dial : Option Ip → (port : String) → Bool

abbrev pub any_private : List (Option Ip) → Bool
any_private [] = false
any_private (ip ∷ ips) = is_private_ip ip || any_private ips

unfoldable pub check_resolved : (allow_private : Bool) → Option (List (Option Ip)) → Option UrlError
check_resolved allow_private none = some resolve_host
check_resolved allow_private (some []) = some no_resolved_ip
check_resolved allow_private (some (ip ∷ ips)) =
    if allow_private
    then none
    else if any_private (ip ∷ ips)
    then some private_ip_not_allowed
    else none

unfoldable pub check_host :
    Network → (allow_private : Bool) → (host : String) → Option Ip → Option UrlError
check_host net allow_private host none = check_resolved allow_private (net.lookup_ip_addr host)
check_host net allow_private host (some ip) =
    if not allow_private && is_private_ip (some ip) then some private_ip_not_allowed else none

unfoldable pub check_parsed : Network → (allow_private : Bool) → Option Url → Option UrlError
check_parsed net allow_private none = some parse_url
check_parsed net allow_private (some parsed) =
    if not (str_eq parsed.scheme "http") && not (str_eq parsed.scheme "https")
    then some unsupported_scheme
    else if str_eq parsed.hostname ""
    then some missing_host
    else check_host net allow_private parsed.hostname (net.parse_ip parsed.hostname)

-- `none` is no error.
unfoldable pub validate_outbound_url :
    Network → (raw_url : String) → (allow_private : Bool) → Option UrlError
validate_outbound_url net raw_url allow_private = check_parsed net allow_private (net.parse raw_url)

-- The loop of `DialContext` over the resolved addresses: the address that is connected to, and those that
-- were dialled, in their order.
unfoldable pub dial_ips :
    Network
    → (allow_private : Bool) → (port : String) → List (Option Ip)
    → Option (Option Ip) × List (Option Ip)
dial_ips net allow_private port [] = (none, [])
dial_ips net allow_private port (ip ∷ ips) =
    let (conn, dialled) = dial_ips net allow_private port ips in
    if not allow_private && is_private_ip ip
    then (conn, dialled)
    else if net.dial ip port
    then (some ip, ip ∷ [])
    else (conn, ip ∷ dialled)

-- The `DialContext` of `NewSafeHTTPClientWithPrivate`.
unfoldable pub dial_context :
    Network → (allow_private : Bool) → (addr : String) → Option (Option Ip) × List (Option Ip)
dial_context net allow_private addr = elim (net.split_host_port addr) [
  | none ↦ (none, [])
  | some (host, port) ↦ elim (net.lookup_ip_addr host) [
    | none ↦ (none, [])
    | some ips ↦ dial_ips net allow_private port ips
  ]
]
