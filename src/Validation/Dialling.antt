-- ===== src/Validation/Dialling.antt =====
-- internal/validation/url.go: the client never calls a private address.
use youtube_stream_tracker.Validation.{is_private_ip, Ip, Network, dial_ips}
use youtube_stream_tracker.Prelude.{
  ap, some, Bool, sym, subst, true, All, false, String, List, Option, ◌∷◌, [], if◌then◌else◌, ◌≡◌,
  refl,
}

-- What `isPrivateIP` lets through.
abbrev pub IsPublic : Option Ip → Type 0
IsPublic ip = is_private_ip ip ≡ false

-- The addresses of a list that are not private.
abbrev pub publics : List (Option Ip) → List (Option Ip)
publics [] = []
publics (ip ∷ ips) = let rest = publics ips in if is_private_ip ip then rest else ip ∷ rest

keep-All :
    (b : Bool) (ip : Option Ip) (ips : List (Option Ip))
    → is_private_ip ip ≡ b
    → All IsPublic ips
    → All IsPublic (if b then ips else ip ∷ ips)
keep-All true ip ips h ps = ps
keep-All false ip ips h ps = (h, ps)

publics-All : (ips : List (Option Ip)) → All IsPublic (publics ips)
publics-All [] = tt
publics-All (ip ∷ ips) = keep-All (is_private_ip ip) ip (publics ips) refl (publics-All ips)

-- The two ways to go on from an address.
dial_next :
    (net : Network) (port : String) (ip : Option Ip) (ips ps : List (Option Ip)) (b : Bool)
    → dial_ips net false port ips ≡ dial_ips net true port ps
    → (if b
        then dial_ips net false port ips
        else if net.dial ip port
        then (some ip, ip ∷ [])
        else ((dial_ips net false port ips).0, ip ∷ (dial_ips net false port ips).1))
      ≡ dial_ips net true port (if b then ps else ip ∷ ps)
unfolding dial_ips
dial_next net port ip ips ps true same = same
dial_next net port ip ips ps false same =
    ap (λ r. if net.dial ip port then (some ip, ip ∷ []) else (r.0, ip ∷ r.1)) same

dial_ips-publics :
    (net : Network) (port : String) (ips : List (Option Ip))
    → dial_ips net false port ips ≡ dial_ips net true port (publics ips)
unfolding dial_ips
dial_ips-publics net port [] = refl
dial_ips-publics net port (ip ∷ ips) =
    dial_next net port ip ips (publics ips) (is_private_ip ip) (dial_ips-publics net port ips)

first-All :
    (b : Bool) (P : Option Ip → Type 0) (r : Option (Option Ip) × List (Option Ip)) (ip : Option Ip)
    → P ip
    → All P (r.1)
    → All P (
        (if◌then◌else◌ {A = Option (Option Ip) × List (Option Ip)} b
          (some ip, ip ∷ [])
          (r.0, ip ∷ r.1)).1)
first-All true P r ip p ps = (p, tt)
first-All false P r ip p ps = (p, ps)

dial_ips-All :
    (P : Option Ip → Type 0) (net : Network) (port : String) (ips : List (Option Ip))
    → All P ips
    → All P ((dial_ips net true port ips).1)
unfolding dial_ips
dial_ips-All P net port [] p = tt
dial_ips-All P net port (ip ∷ ips) (p, ps) =
    first-All (net.dial ip port) P (dial_ips net true port ips) ip p
      (dial_ips-All P net port ips ps)

-- Without leave for private addresses, whatever a name resolves to at the time of the call, a client dials
-- the resolved addresses that are not private, in their order, up to the first that answers, as it would
-- dial a list of these alone, and it dials no private one.
pub dial_ips-IsPublic :
    (net : Network) (port : String) (ips : List (Option Ip))
    → (dial_ips net false port ips ≡ dial_ips net true port (publics ips))
      × All IsPublic ((dial_ips net false port ips).1)
dial_ips-IsPublic net port ips =
    let same = dial_ips-publics net port ips in
    (
      same,
      subst (λ r. All IsPublic (r.1)) (sym same)
          (dial_ips-All IsPublic net port (publics ips) (publics-All ips)),
    )
