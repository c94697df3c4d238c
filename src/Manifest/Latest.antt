-- ===== src/Manifest/Latest.antt =====
-- internal/manifest/manifest.go: `getLatestHLSSegment`, which follows a master playlist without a bound.
use youtube_stream_tracker.Manifest.Segment.{Segment}
use youtube_stream_tracker.Manifest.Playlist.{
  variant_url, extract_latest_from_media_playlist, Variant, Web, unknown, media, master,
}
use youtube_stream_tracker.Prelude.{zero, suc, none, List, String, some, ℕ, Option, ◌≡◌, refl}

pub data Latest : Type 0 where
  latest : Segment → Latest
  no_segment out_of_fuel : Latest

abbrev pub from_option : Option Segment → Latest
from_option none = no_segment
from_option (some s) = latest s

-- `fuel` bounds the playlists that are fetched; the code has no such bound.
unfoldable pub get_latest_hls_segment : Web → (fuel : ℕ) → String → Latest
get_latest_hls_segment web zero url = out_of_fuel
get_latest_hls_segment web (suc fuel) url = elim (web.fetch url) [
  | none ↦ no_segment
  | some unknown ↦ no_segment
  | some (media pl) ↦ from_option (extract_latest_from_media_playlist web url pl)
  | some (master vs) ↦ elim (variant_url web url vs) [
    | none ↦ no_segment
    | some next ↦ get_latest_hls_segment web fuel next
  ]
]

-- Where the variant that is followed from a master playlist is that playlist again, the code never returns:
-- no number of requests is enough.
pub get_latest_hls_segment-circle :
    (web : Web) (url : String) (vs : List Variant)
    → web.fetch url ≡ some (master vs)
    → variant_url web url vs ≡ some url
    → (fuel : ℕ) → get_latest_hls_segment web fuel url ≡ out_of_fuel
unfolding get_latest_hls_segment
get_latest_hls_segment-circle web url vs fetched next zero = refl
get_latest_hls_segment-circle web url vs fetched next (suc fuel) =
    rw (fetched, next, get_latest_hls_segment)
      (get_latest_hls_segment-circle web url vs fetched next fuel)
