-- ===== src/Middleware/Keys.antt =====
-- internal/httpapi/middleware.go: who is let in.
use youtube_stream_tracker.Middleware.{
  invalid_key, key_required, given_key, authorized, check_key, internal_api_key_auth, api_key_auth,
}
use youtube_stream_tracker.Prelude.{
  eq_iff, false, true, sym, arith, ◌∙◌, str_eq, Bool, String, if◌then◌else◌, refl, ◌↔◌, ◌≡◌, ◌≢◌,
}

pub true≢false : true ≢ false
true≢false h = grind arith

check_key-by :
    (api_key key : String) (b c : Bool)
    → str_eq key "" ≡ b
    → str_eq key api_key ≡ c
    → ((if b then key_required else if c then authorized else invalid_key) ≡ authorized)
      ↔ ((key ≡ api_key) × (api_key ≢ ""))
check_key-by api_key key true c e h = (
  λ k. grind arith,
  λ k. let (same, given) = k in absurd (given (sym same ∙ (eq_iff key "").0 e)),
)
check_key-by api_key key false true e h = (
  λ k. (
    (eq_iff key api_key).0 h,
    λ k. true≢false (sym ((eq_iff key "").1 ((eq_iff key api_key).0 h ∙ k)) ∙ e),
  ),
  λ k. refl,
)
check_key-by api_key key false false e h =
    (λ k. grind arith, λ k. absurd (true≢false (sym ((eq_iff key api_key).1 (k.0)) ∙ h)))

check_key-authorized :
    (api_key key : String)
    → (check_key api_key key ≡ authorized) ↔ ((key ≡ api_key) × (api_key ≢ ""))
unfolding check_key
check_key-authorized api_key key =
    check_key-by api_key key (str_eq key "") (str_eq key api_key) refl refl

-- A request is let in just when the key it gives, in X-API-Key or else as the bearer token of Authorization,
-- and for the internal API in its own header alone, is the configured one, and the configured one is not
-- empty.
pub api_key_auth-authorized :
    (api_key header auth : String)
    → ((api_key_auth api_key header auth ≡ authorized)
        ↔ ((given_key header auth ≡ api_key) × (api_key ≢ "")))
      × ((internal_api_key_auth api_key header ≡ authorized)
          ↔ ((header ≡ api_key) × (api_key ≢ "")))
unfolding api_key_auth internal_api_key_auth
api_key_auth-authorized api_key header auth =
    (check_key-authorized api_key (given_key header auth), check_key-authorized api_key header)
