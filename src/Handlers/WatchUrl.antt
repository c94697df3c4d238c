-- ===== src/Handlers/WatchUrl.antt =====
-- internal/api/handlers.go: `isValidYouTubeWatchURL`.
use youtube_stream_tracker.Prelude.{
  inr, eq_iff, inl, refl, true, ◌==◌, len, str_eq, false, Option, not, Bool, String, ◌⊎◌, ◌≡◌,
  if◌then◌else◌, arith, ◌&&◌, none, some,
}

-- youtubeWatchURLRegex and the packages strings and net/url: the host of a parsed URL, and its parameter v.
pub record WatchUrls : Type 0 where
  pub matches_regex : String → Bool
  pub parse : String → Option (String × String)
  pub to_lower : String → String

module _ (urls : WatchUrls) where
  unfoldable pub is_valid_youtube_watch_url : String → Bool
  is_valid_youtube_watch_url url =
      if not (urls.matches_regex url) then false else elim (urls.parse url) [
        | none ↦ false
        | some (host, v) ↦
            if not (str_eq (urls.to_lower host) "youtube.com")
              && not (str_eq (urls.to_lower host) "www.youtube.com")
            then false
            else if not (len v == 11)
            then false
            else true
      ]

  -- Two of the names of the host.
  abbrev pub IsYouTube : String → Type 0
  IsYouTube host = (urls.to_lower host ≡ "youtube.com") ⊎ (urls.to_lower host ≡ "www.youtube.com")

  by_tests :
      (a b c : Bool) (host v : String)
      → str_eq (urls.to_lower host) "youtube.com" ≡ a
      → str_eq (urls.to_lower host) "www.youtube.com" ≡ b
      → (len v == 11) ≡ c
      → (if not a && not b then false else if not c then false else true) ≡ true
      → IsYouTube host × (len v ≡ 11)
  by_tests true b true host v e f g h = (inl ((eq_iff _ "youtube.com").0 e), ground arith)
  by_tests false true true host v e f g h = (inr ((eq_iff _ "www.youtube.com").0 f), ground arith)
  by_tests true b false host v e f g h = absurd grind arith
  by_tests false true false host v e f g h = absurd grind arith
  by_tests false false c host v e f g h = absurd grind arith

  by_parts :
      (b : Bool) (o : Option (String × String))
      → (let outcome : Bool = if not b then false else elim o [
        | none ↦ false
        | some (host, v) ↦
            if not (str_eq (urls.to_lower host) "youtube.com")
              && not (str_eq (urls.to_lower host) "www.youtube.com")
            then false
            else if not (len v == 11)
            then false
            else true
      ] in
          outcome ≡ true)
      → (b ≡ true)
        × (host : String) × (v : String) × (o ≡ some (host, v))
        × IsYouTube host
        × (len v ≡ 11)
  by_parts false o h = absurd grind arith
  by_parts true none h = absurd grind arith
  by_parts true (some (host, v)) h =
      let (site, size) =
        by_tests (str_eq (urls.to_lower host) "youtube.com")
          (str_eq (urls.to_lower host) "www.youtube.com") (len v == 11) host v refl refl refl h in
      (refl, host, v, refl, site, size)

  -- A stream's URL that is accepted matches the expression, can be parsed, has the host youtube.com or
  -- www.youtube.com in capitals or not, and a parameter v of eleven characters.
  pub is_valid_youtube_watch_url-IsYouTube :
      (url : String)
      → is_valid_youtube_watch_url url ≡ true
      → (urls.matches_regex url ≡ true)
        × (host : String) × (v : String) × (urls.parse url ≡ some (host, v))
        × IsYouTube host
        × (len v ≡ 11)
  unfolding is_valid_youtube_watch_url
  is_valid_youtube_watch_url-IsYouTube url h = by_parts (urls.matches_regex url) (urls.parse url) h
