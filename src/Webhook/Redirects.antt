-- ===== src/Webhook/Redirects.antt =====
-- internal/webhook/webhook.go: the redirects that the client of `NewSender` follows. net/http asks
-- `CheckRedirect` before each, with the requests made so far.
use youtube_stream_tracker.Prelude.{
  is_some, not, ◌+◌, arith, refl, zero, suc, length, List, leb, All, false, Bool, Option, true, ℕ,
  String, ◌∷◌, ◌≤◌, ◌≡◌, [], ◌≢◌, if◌then◌else◌, ◌<◌, none, some,
}
use youtube_stream_tracker.Validation.{UrlError, validate_outbound_url, Network}

pub data Fetched : Type 0 where
  answered refused out_of_fuel : Fetched

module _ (net : Network) where
  -- `CheckRedirect`, with the number of the requests so far.
  unfoldable pub check_redirect : (via : ℕ) → (url : String) → Bool
  check_redirect via url =
      if leb 5 via then false else not (is_some (validate_outbound_url net url false))

  -- The URLs that are requested, the last first: `location n` is where the response to the n-th request
  -- leads, if it is a redirect.
  unfoldable pub follow :
      (location : ℕ → Option String)
      → (fuel : ℕ) → (via : List String) → (url : String) → List String × Fetched
  follow location zero via url = (via, out_of_fuel)
  follow location (suc fuel) via url = elim (location (suc (length via))) [
    | none ↦ (url ∷ via, answered)
    | some next ↦
        let rest : List String × Fetched = follow location fuel (url ∷ via) next in
        if check_redirect (suc (length via)) next then rest else (url ∷ via, refused)
  ]

  -- A URL that the validation lets pass.
  abbrev pub IsAllowed : String → Type 0
  IsAllowed url = validate_outbound_url net url false ≡ none

  not_refused : (o : Option UrlError) → not (is_some o) ≡ true → o ≡ none
  not_refused none h = refl
  not_refused (some x) h = absurd grind arith

  redirect-by :
      (b : Bool) (via : ℕ) (o : Option UrlError)
      → leb 5 via ≡ b
      → (if b then false else not (is_some o)) ≡ true
      → (via < 5) × (o ≡ none)
  redirect-by true via o e h = absurd grind arith
  redirect-by false via o e h = (ground arith, not_refused o h)

  check_redirect-IsAllowed :
      (via : ℕ) (url : String) → check_redirect via url ≡ true → (via < 5) × IsAllowed url
  unfolding check_redirect
  check_redirect-IsAllowed via url h =
      redirect-by (leb 5 via) via (validate_outbound_url net url false) refl h

  -- What is promised of the requests.
  abbrev pub IsBounded : List String × Fetched → Type 0
  IsBounded (requested, end) =
      All IsAllowed requested × (length requested ≤ 5) × (end ≢ out_of_fuel)

  IsBounded-if :
      (b : Bool) (rest here : List String × Fetched)
      → (b ≡ true → IsBounded rest)
      → IsBounded here
      → IsBounded (if b then rest else here)
  IsBounded-if true rest here p q = p refl
  IsBounded-if false rest here p q = q

  step-IsBounded :
      (o : Option String) (via : List String) (url : String) (go : String → List String × Fetched)
      → length via < 5
      → All IsAllowed via
      → IsAllowed url
      → ((next : String) → (suc (length via) < 5) → IsAllowed next → IsBounded (go next))
      → IsBounded (elim o [
        | none ↦ (url ∷ via, answered)
        | some next ↦
            if check_redirect (suc (length via)) next then go next else (url ∷ via, refused)
      ])
  step-IsBounded none via url go short all ok later = ((ok, all), omega arith, λ h. grind arith)
  step-IsBounded (some next) via url go short all ok later =
      IsBounded-if (check_redirect (suc (length via)) next) (go next) (url ∷ via, refused)
        (λ e.
          let (fewer, good) = check_redirect-IsAllowed (suc (length via)) next e in
          later next fewer good)
        ((ok, all), omega arith, λ h. grind arith)

  follow-IsBounded :
      (location : ℕ → Option String) (fuel : ℕ) (via : List String) (url : String)
      → length via < 5
      → length via + fuel ≡ 5
      → All IsAllowed via
      → IsAllowed url
      → IsBounded (follow location fuel via url)
  unfolding follow
  follow-IsBounded location zero via url short enough all ok = absurd omega arith
  follow-IsBounded location (suc fuel) via url short enough all ok =
      step-IsBounded (location (suc (length via))) via url (follow location fuel (url ∷ via)) short
        all ok
        λ next fewer good.
          follow-IsBounded location fuel (url ∷ via) next fewer (omega arith) (ok, all) good

  -- From a URL that the validation lets pass, redirects are followed through such URLs alone; there are
  -- at most five requests, and they come to an end.
  pub follow-allowed :
      (location : ℕ → Option String) (url : String)
      → IsAllowed url
      → IsBounded (follow location 5 [] url)
  follow-allowed location url ok = follow-IsBounded location 5 [] url (omega arith) refl tt ok
