-- ===== src/Manifest/Playlist.antt =====
-- internal/manifest/manifest.go: the playlists as the m3u8 library decodes them, the end of a list, and its
-- latest segment. The requests, the decoding and the resolution of URLs are answered by a `Web`.
use youtube_stream_tracker.Manifest.Segment.{MediaType, Segment}
use youtube_stream_tracker.Prelude.{
  ◌^◌, zero, ◌%◌, false, none, some, suc, ltb, Option, String, Bool, ℕ, List, ◌∷◌, ◌+◌, [],
  if◌then◌else◌,
}

pub record Variant : Type 0 where
  pub uri : String
  pub bandwidth : ℕ

pub record MediaSegment : Type 0 where
  pub uri : String
  pub duration : ℕ

-- The places of a media playlist's segments, some of them nil, up to its count.
pub record MediaPlaylist : Type 0 where
  pub closed : Bool
  pub seq_no : ℕ
  pub segments : List (Option MediaSegment)

pub data DecodedPlaylist : Type 0 where
  media : MediaPlaylist → DecodedPlaylist
  master : List Variant → DecodedPlaylist
  unknown : DecodedPlaylist

-- `fetch` is one call of the HTTP client, with the redirects that it follows; `none` is an error of the request,
-- of its status or of the decoding.
pub record Web : Type 0 where
  pub fetch : String → Option DecodedPlaylist
  pub resolve : (base uri : String) → Option String
  pub is_dash : String → Bool

-- `lowestBandwidthVariant`: the first of the lowest; the loop from the variant found so far on.
unfoldable pub lowest_bandwidth_variant : Variant → List Variant → Variant
lowest_bandwidth_variant lowest [] = lowest
lowest_bandwidth_variant lowest (v ∷ vs) =
    lowest_bandwidth_variant (if ltb v.bandwidth lowest.bandwidth then v else lowest) vs

-- The URL of the variant to follow; no variants are an error.
unfoldable pub variant_url : Web → String → List Variant → Option String
variant_url web url [] = none
variant_url web url (v ∷ vs) = web.resolve url (lowest_bandwidth_variant v vs).uri

-- `isEndListWithDepth`, with the depths that are left, and the URLs that it asks the client for, in their order.
unfoldable pub is_end_list_with_depth : Web → (left : ℕ) → String → Option Bool × List String
is_end_list_with_depth web zero url = (none, [])
is_end_list_with_depth web (suc left) url = elim (web.fetch url) [
  | none ↦ (none, url ∷ [])
  | some unknown ↦ (none, url ∷ [])
  | some (media pl) ↦ (some pl.closed, url ∷ [])
  | some (master vs) ↦ elim (variant_url web url vs) [
    | none ↦ (none, url ∷ [])
    | some next ↦ let (r, urls) = is_end_list_with_depth web left next in (r, url ∷ urls)
  ]
]

-- Depths from 0 to 4.
abbrev pub max_is_end_list_depth : ℕ
max_is_end_list_depth = 4

unfoldable pub is_end_list : Web → String → Option Bool × List String
is_end_list web url =
    if web.is_dash url
    then (some false, [])
    else is_end_list_with_depth web (suc max_is_end_list_depth) url

-- The last segment that is not nil, with its index; `found` is the one before `index`.
unfoldable pub last_segment :
    (index : ℕ)
    → (found : Option (ℕ × MediaSegment)) → List (Option MediaSegment)
    → Option (ℕ × MediaSegment)
last_segment index found [] = found
last_segment index found (none ∷ xs) = last_segment (suc index) found xs
last_segment index found (some s ∷ xs) = last_segment (suc index) (some (index, s)) xs

-- `extractLatestFromMediaPlaylist`; the sum of `uint64` wraps around.
unfoldable pub extract_latest_from_media_playlist : Web → String → MediaPlaylist → Option Segment
extract_latest_from_media_playlist web base pl = elim (last_segment 0 none pl.segments) [
  | none ↦ none
  | some (index, s) ↦ elim (web.resolve base s.uri) [
    | none ↦ none
    | some url ↦ some (record {
      url = url;
      duration = s.duration;
      sequence = (pl.seq_no + index) % 2 ^ 64;
      media_type = MediaType.hls;
    })
  ]
]
