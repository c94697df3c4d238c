-- ===== src/Store/Api.antt =====
-- The Kubernetes API server and client-go as internal/k8s/store/store.go uses them: third-party code,
-- and so a parameter. Between two calls other writers may act, so a state is whatever the server holds.
use youtube_stream_tracker.Store.Objects.{Object}
use youtube_stream_tracker.Prelude.{inr, inl, refl, ◌⊎◌, Bool, String, ◌≡◌}

pub data ApiError : Type 0 where
  is_not_found is_already_exists is_conflict failure : ApiError

pub data Reply (A : Type 0) : Type 0 where
  answered : A → Reply A
  err : ApiError → Reply A

-- The dynamic client for StreamMonitor objects. A write answers with the object as it is stored.
pub record Server : Type 1 where
  pub S : Type 0
  pub get_object : String → S → Reply Object
  pub create_object : Object → S → Reply Object × S
  pub update_status : Object → S → Reply Object × S
  pub update_object : Object → S → Reply Object × S
  pub delete_object : String → S → Reply (Unit {0}) × S
  -- whether `ByIndex` finds its index, and whether `toUnstructured`, `SetNestedField` and `fromUnstructured`
  -- go well
  pub is_indexed : S → Bool
  pub to_unstructured : Object → Bool
  pub sets_phase : Object → Bool
  pub from_unstructured : Object → Bool

-- The errors of store.go's methods.
pub data StoreError : Type 0 where
  monitor_not_found duplicate_monitor monitor_not_active : StoreError
  store_failure : ApiError → StoreError

pub data Result (A : Type 0) : Type 0 where
  done : A → Result A
  fails : StoreError → Result A

-- What one attempt of a write comes to: its own error, or the server's.
pub data Attempt (A : Type 0) : Type 0 where
  wrote : A → Attempt A
  refused : StoreError → Attempt A
  rejected : ApiError → Attempt A

-- `retry.RetryOnConflict(retry.DefaultBackoff, …)`. It makes the attempt again while the answer is a
-- conflict, and returns what the last attempt returned: that is all that is assumed of it.
pub record Retry (S : Type 0) : Type 1 where
  pub on_conflict : {A : Type 0} → (S → Attempt A × S) → S → Attempt A × S
  pub is_attempt :
      {A : Type 0} (f : S → Attempt A × S) (s : S) → (s' : S) × (on_conflict f s ≡ f s')

-- To split on an answer and keep the equation.
pub Reply-cases :
    {A : Type 0} (r : Reply A) → ((a : A) × (r ≡ answered a)) ⊎ ((x : ApiError) × (r ≡ err x))
Reply-cases (answered a) = inl (a, refl)
Reply-cases (err x) = inr (x, refl)

pub Result-cases :
    {A : Type 0} (r : Result A) → ((a : A) × (r ≡ done a)) ⊎ ((x : StoreError) × (r ≡ fails x))
Result-cases (done a) = inl (a, refl)
Result-cases (fails x) = inr (x, refl)
