-- ===== src/Validation/Outbound.antt =====
-- internal/validation/url.go: what an accepted URL leads to.
use youtube_stream_tracker.Validation.Dialling.{IsPublic}
use youtube_stream_tracker.Validation.{
  private_ip_not_allowed, check_parsed, missing_host, is_private_ip, unsupported_scheme,
  any_private, Url, Ip, Network, UrlError, validate_outbound_url, check_host, check_resolved,
}
use youtube_stream_tracker.Prelude.{
  eq_iff, inr, true, All, inl, some, none, str_eq, Bool, not, false, Option, String, List, ◌&&◌,
  ◌∷◌, arith, ◌≡◌, if◌then◌else◌, ◌⊎◌, refl, [],
}

-- An address that is written out is not private, and a name is resolved, to at least one address and to none
-- that is private.
abbrev pub LeadsOutside : Network → (host : String) → Option Ip → Type 0
LeadsOutside net host (some ip) = IsPublic (some ip)
LeadsOutside net host none =
    (ip : Option Ip) × (ips : List (Option Ip)) × (net.lookup_ip_addr host ≡ some (ip ∷ ips))
    × All IsPublic (ip ∷ ips)

no_error : (x : UrlError) (b : Bool) → (if b then some x else none) ≡ none → b ≡ false
no_error x true h = absurd grind arith
no_error x false h = refl

any_private-All : (ips : List (Option Ip)) → any_private ips ≡ false → All IsPublic ips
any_private-All [] h = tt
any_private-All (ip ∷ ips) h = (grind arith, any_private-All ips (grind arith))

check_resolved-outside :
    (r : Option (List (Option Ip)))
    → check_resolved false r ≡ none
    → (ip : Option Ip) × (ips : List (Option Ip)) × (r ≡ some (ip ∷ ips)) × All IsPublic (ip ∷ ips)
unfolding check_resolved
check_resolved-outside none h = absurd grind arith
check_resolved-outside (some []) h = absurd grind arith
check_resolved-outside (some (ip ∷ ips)) h = (
  ip,
  ips,
  refl,
  any_private-All (ip ∷ ips) (no_error private_ip_not_allowed (any_private (ip ∷ ips)) h),
)

check_host-outside :
    (net : Network) (host : String) (literal : Option Ip)
    → check_host net false host literal ≡ none
    → LeadsOutside net host literal
unfolding check_host
check_host-outside net host none h = check_resolved-outside (net.lookup_ip_addr host) h
check_host-outside net host (some ip) h =
    no_error private_ip_not_allowed (is_private_ip (some ip)) h

by_tests :
    (s : String) (b c : Bool)
    → str_eq s "http" ≡ b
    → str_eq s "https" ≡ c
    → (not (str_eq s "http") && not (str_eq s "https")) ≡ false
    → (s ≡ "http") ⊎ (s ≡ "https")
by_tests s true c e f h = inl ((eq_iff s "http").0 e)
by_tests s false true e f h = inr ((eq_iff s "https").0 f)
by_tests s false false e f h = absurd grind arith

scheme_cases :
    (s : String)
    → (not (str_eq s "http") && not (str_eq s "https")) ≡ false
    → (s ≡ "http") ⊎ (s ≡ "https")
scheme_cases s h = by_tests s (str_eq s "http") (str_eq s "https") refl refl h

url-outside :
    (net : Network) (u : Url) (bad_scheme no_host : Bool)
    → (not (str_eq u.scheme "http") && not (str_eq u.scheme "https")) ≡ bad_scheme
    → str_eq u.hostname "" ≡ no_host
    → (if bad_scheme
        then some unsupported_scheme
        else if no_host
        then some missing_host
        else check_host net false u.hostname (net.parse_ip u.hostname))
      ≡ none
    → ((u.scheme ≡ "http") ⊎ (u.scheme ≡ "https"))
      × (str_eq u.hostname "" ≡ false)
      × LeadsOutside net u.hostname (net.parse_ip u.hostname)
url-outside net u true no_host e f h = absurd grind arith
url-outside net u false true e f h = absurd grind arith
url-outside net u false false e f h =
    (scheme_cases u.scheme e, f, check_host-outside net u.hostname (net.parse_ip u.hostname) h)

parsed-outside :
    (net : Network) (o : Option Url)
    → check_parsed net false o ≡ none
    → (u : Url) × (o ≡ some u)
      × ((u.scheme ≡ "http") ⊎ (u.scheme ≡ "https"))
      × (str_eq u.hostname "" ≡ false)
      × LeadsOutside net u.hostname (net.parse_ip u.hostname)
unfolding check_parsed
parsed-outside net none h = absurd grind arith
parsed-outside net (some u) h =
    let (scheme, host, outside) =
      url-outside net u (not (str_eq u.scheme "http") && not (str_eq u.scheme "https"))
        (str_eq u.hostname "") refl refl h in
    (u, refl, scheme, host, outside)

-- A URL that is accepted without leave for private addresses can be parsed, is http or https, names a host,
-- and that host is an address that is not private, or a name that resolves to at least one address and to
-- none that is private.
pub validate_outbound_url-outside :
    (net : Network) (raw_url : String)
    → validate_outbound_url net raw_url false ≡ none
    → (u : Url) × (net.parse raw_url ≡ some u)
      × ((u.scheme ≡ "http") ⊎ (u.scheme ≡ "https"))
      × (str_eq u.hostname "" ≡ false)
      × LeadsOutside net u.hostname (net.parse_ip u.hostname)
unfolding validate_outbound_url
validate_outbound_url-outside net raw_url h = parsed-outside net (net.parse raw_url) h
