-- ===== src/Manifest/Reference.antt =====
-- internal/manifest/manifest.go: `resolveURL`, and the choice between HLS and DASH.
use youtube_stream_tracker.Prelude.{
  eq_iff, Option-cases, ◌≢◌, inr, inl, Bool-cases, false, starts_with, true, str_eq, not, Option,
  String, Bool, refl, ◌≡◌, if◌then◌else◌, ◌⊎◌, ◌||◌, arith, none, some,
}

-- The parts of a `url.URL` that the code reads or sets. `user` is empty where there is none.
pub record Url : Type 0 where
  pub scheme : String
  pub user : String
  pub host : String
  pub path : String
  pub raw_query : String
  pub fragment : String

-- `url.Parse`, `URL.String`, `path.Join`, `path.Dir`, and three functions of the package strings.
pub record Urls : Type 0 where
  pub parse : String → Option Url
  pub print : Url → String
  pub join : String → String → String
  pub dir : String → String
  pub contains : String → String → Bool
  pub to_lower : String → String
  pub ends_with : String → String → Bool

abbrev pub is_abs : Url → Bool
is_abs u = not (str_eq u.scheme "")

module _ (urls : Urls) where
  -- A reference without a path changes the query and the fragment alone.
  unfoldable pub with_suffix : Url → (text : String) → (ref : Url) → Url
  with_suffix base text ref = record base {
    raw_query =
        if not (str_eq ref.raw_query "") || starts_with text "?"
        then ref.raw_query
        else base.raw_query;
    fragment =
        if not (str_eq ref.fragment "") || urls.contains text "#"
        then ref.fragment
        else base.fragment;
  }

  unfoldable pub with_path : Url → (text : String) → (ref : Url) → Url
  with_path base text ref = record base {
    path = if starts_with text "/" then ref.path else urls.join (urls.dir base.path) ref.path;
    raw_query = ref.raw_query;
    fragment = ref.fragment;
  }

  unfoldable pub resolve_relative : Url → (text : String) → (ref : Url) → Url
  resolve_relative base text ref =
      if str_eq ref.path "" then with_suffix base text ref else with_path base text ref

  unfoldable pub resolve_url : Url → (ref : String) → Option String
  resolve_url base text = elim (urls.parse text) [
    | none ↦ none
    | some ref ↦ some (urls.print (if is_abs ref then ref else resolve_relative base text ref))
  ]

  -- What stays of the base in a relative reference: the scheme, the user and the host.
  abbrev pub IsAtHost : Url → Url → Type 0
  IsAtHost base u = (u.scheme ≡ base.scheme) × (u.user ≡ base.user) × (u.host ≡ base.host)

  -- What a relative reference `ref`, read from `text`, comes to: without a path it keeps the path of the
  -- base, and a query or a fragment of the base that it does not replace; with one it brings its own query
  -- and fragment, and its path is taken from the directory of the base's unless it starts with a slash.
  pub record IsResolved (base : Url) (text : String) (ref u : Url) : Type 0 where
    pub at_host : IsAtHost base u
    pub kept_path : str_eq ref.path "" ≡ true → u.path ≡ base.path
    pub rooted_path : str_eq ref.path "" ≡ false → starts_with text "/" ≡ true → u.path ≡ ref.path
    pub joined_path :
        str_eq ref.path "" ≡ false
        → starts_with text "/" ≡ false
        → u.path ≡ urls.join (urls.dir base.path) ref.path
    pub own_suffix :
        str_eq ref.path "" ≡ false → (u.raw_query ≡ ref.raw_query) × (u.fragment ≡ ref.fragment)
    pub given_query : ref.raw_query ≢ "" → u.raw_query ≡ ref.raw_query
    pub emptied_query : starts_with text "?" ≡ true → u.raw_query ≡ ref.raw_query
    pub kept_query :
        str_eq ref.path "" ≡ true
        → ref.raw_query ≡ ""
        → starts_with text "?" ≡ false
        → u.raw_query ≡ base.raw_query
    pub given_fragment : ref.fragment ≢ "" → u.fragment ≡ ref.fragment
    pub emptied_fragment : urls.contains text "#" ≡ true → u.fragment ≡ ref.fragment
    pub kept_fragment :
        str_eq ref.path "" ≡ true
        → ref.fragment ≡ ""
        → urls.contains text "#" ≡ false
        → u.fragment ≡ base.fragment

  same_text : (s t : String) → s ≡ t → str_eq s t ≡ true
  same_text s t h = (eq_iff s t).1 h

  other_text : (s t : String) → s ≢ t → str_eq s t ≡ false
  other_text s t h = elim (Bool-cases (str_eq s t)) [
    | inl e ↦ absurd (h ((eq_iff s t).0 e))
    | inr e ↦ e
  ]

  resolve_relative-IsAtHost :
      (base : Url) (text : String) (ref : Url) → IsAtHost base (resolve_relative base text ref)
  unfolding resolve_relative with_suffix with_path
  resolve_relative-IsAtHost base text ref = ground arith

  resolve_relative-IsResolved :
      (base : Url) (text : String) (ref : Url)
      → IsResolved base text ref (resolve_relative base text ref)
  unfolding resolve_relative with_suffix with_path
  resolve_relative-IsResolved base text ref = record {
    at_host = resolve_relative-IsAtHost base text ref;
    kept_path = λ p. ground arith;
    rooted_path = λ p q. ground arith;
    joined_path = λ p q. ground arith;
    own_suffix = λ p. ground arith;
    given_query = λ h. let k = other_text ref.raw_query "" h in ground arith;
    emptied_query = λ h. ground arith;
    kept_query = λ p h q. let k = same_text ref.raw_query "" h in ground arith;
    given_fragment = λ h. let k = other_text ref.fragment "" h in ground arith;
    emptied_fragment = λ h. ground arith;
    kept_fragment = λ p h q. let k = same_text ref.fragment "" h in ground arith;
  }

  -- A reference resolves just when it parses. One with a scheme resolves to itself. One without a scheme
  -- resolves to a URL with the scheme, the user and the host of the base, also where the reference has a host of
  -- its own, and with the path, the query and the fragment that `IsResolved` names.
  pub resolve_url-IsResolved :
      (base : Url) (text : String)
      → ((urls.parse text ≡ none) × (resolve_url base text ≡ none))
        ⊎ ((r : Url) × (urls.parse text ≡ some r)
            × (((is_abs r ≡ true) × (resolve_url base text ≡ some (urls.print r)))
                ⊎ ((u : Url) × (is_abs r ≡ false)
                    × (resolve_url base text ≡ some (urls.print u))
                    × IsResolved base text r u)))
  unfolding resolve_url
  resolve_url-IsResolved base text = elim (Option-cases (urls.parse text)) [
    | inl h ↦ inl (h, rw (resolve_url, h) refl)
    | inr (r, h) ↦ inr (
      r,
      h,
      elim (Bool-cases (is_abs r)) [
        | inl e ↦ inl (e, rw (resolve_url, h, e) refl)
        | inr e ↦ inr (
          resolve_relative base text r,
          e,
          rw (resolve_url, h, e) refl,
          resolve_relative-IsResolved base text r,
        )
      ],
    )
  ]

  unfoldable pub is_dash_manifest_url : String → Bool
  is_dash_manifest_url url = elim (urls.parse url) [
    | none ↦ urls.ends_with (urls.to_lower url) ".mpd"
    | some u ↦ urls.ends_with (urls.to_lower u.path) ".mpd"
  ]

  -- The two ways to a segment; HLS is also the default.
  unfoldable pub get_latest_segment :
      {A : Type 0} (dash hls : String → A) → (manifest_url : String) → A
  get_latest_segment dash hls manifest_url =
      if is_dash_manifest_url manifest_url
      then dash manifest_url
      else if urls.contains (urls.to_lower manifest_url) ".m3u8"
      then hls manifest_url
      else hls manifest_url
