-- ===== src/Manifest/Variants.antt =====
-- internal/manifest/manifest.go: which variant is followed, and how far.
use youtube_stream_tracker.Manifest.Playlist.{
  DecodedPlaylist, variant_url, Web, Variant, is_end_list, lowest_bandwidth_variant,
  is_end_list_with_depth,
}
use youtube_stream_tracker.Prelude.{
  ap, sym, subst, Option-cases, inr, zero, Bool-cases, inl, suc, ltb, All, length, String, ℕ, List,
  [], ◌∷◌, if◌then◌else◌, ◌≤◌, refl, arith, ◌≡◌, ◌⊎◌,
}

abbrev pub Member : Variant → List Variant → Type 0
Member v [] = ⊥
Member v (w ∷ vs) = (v ≡ w) ⊎ Member v vs

lowest-bound :
    (v : Variant) (vs : List Variant) → (lowest_bandwidth_variant v vs).bandwidth ≤ v.bandwidth
unfolding lowest_bandwidth_variant
lowest-bound v [] = omega arith
lowest-bound v (w ∷ vs) =
    ground (arith, lowest-bound (if ltb w.bandwidth v.bandwidth then w else v) vs)

-- That a variant is one of a list, and none of the list has a lower bandwidth.
abbrev pub IsLowest : List Variant → Variant → Type 0
IsLowest vs x = Member x vs × All (λ w. x.bandwidth ≤ w.bandwidth) vs

-- The variant that is followed is one of the playlist's, and no variant has a lower bandwidth.
pub lowest_bandwidth_variant-IsLowest :
    (v : Variant) (vs : List Variant) → IsLowest (v ∷ vs) (lowest_bandwidth_variant v vs)
unfolding lowest_bandwidth_variant
lowest_bandwidth_variant-IsLowest v [] = (inl refl, (omega arith, tt))
lowest_bandwidth_variant-IsLowest v (w ∷ vs) = elim (Bool-cases (ltb w.bandwidth v.bandwidth)) [
  | inl y ↦
      let (m, a) = lowest_bandwidth_variant-IsLowest w vs in
      subst (IsLowest (v ∷ w ∷ vs))
        (sym (ap (λ b. lowest_bandwidth_variant (if b then w else v) vs) y))
        (inr m, (ground (arith, lowest-bound w vs), a))
  | inr n ↦
      let (m, a) = lowest_bandwidth_variant-IsLowest v vs in
      subst (IsLowest (v ∷ w ∷ vs))
        (sym (ap (λ b. lowest_bandwidth_variant (if b then w else v) vs) n))
        (
          elim m [ inl e ↦ inl e | inr k ↦ inr (inr k) ],
          (a.0, (ground (arith, lowest-bound v vs), a.1)),
        )
]

depth-bound :
    (web : Web) (left : ℕ) (url : String) → length ((is_end_list_with_depth web left url).1) ≤ left
unfolding is_end_list_with_depth
depth-bound web zero url = omega arith
depth-bound web (suc left) url = elim (Option-cases (web.fetch url)) [
  | inl e ↦ rw (e, is_end_list_with_depth) (omega arith)
  | inr (DecodedPlaylist.unknown, e) ↦ rw (e, is_end_list_with_depth) (omega arith)
  | inr (DecodedPlaylist.media pl, e) ↦ rw (e, is_end_list_with_depth) (omega arith)
  | inr (DecodedPlaylist.master vs, e) ↦ elim (Option-cases (variant_url web url vs)) [
    | inl q ↦ rw (e, q, is_end_list_with_depth) (omega arith)
    | inr (next, q) ↦ rw (e, q, is_end_list_with_depth) (omega (arith, depth-bound web left next))
  ]
]

-- Whatever the servers answer, playlists that name each other in a circle included, `IsEndList` asks the HTTP
-- client for at most five URLs. The redirects that the client follows by itself are not counted.
is_end_list-bound : (web : Web) (url : String) → length ((is_end_list web url).1) ≤ 5
unfolding is_end_list
is_end_list-bound web url = ground (arith, depth-bound web 5 url)
