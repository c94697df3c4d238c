-- ===== src/Examples/Reports.antt =====
-- internal/webhook/webhook.go, internal/k8s/reconcile.go and internal/k8s/watcher.go at a signed request, at
-- redirects, and at a monitor without a pod.
use youtube_stream_tracker.Store.Objects.{to_monitor}
use youtube_stream_tracker.Reconcile.Notices.{reconcile_startup-IsMissing, IsMissing}
use youtube_stream_tracker.Watcher.Running.{Turn}
use youtube_stream_tracker.Examples.Deliveries.{digest_sample, format_sample}
use youtube_stream_tracker.Examples.Storage.{sample_object, memory}
use youtube_stream_tracker.Prelude.{true, false, All, ◌≡◌, List, [], arith, ◌∷◌, refl, none, some}
use youtube_stream_tracker.Webhook.Request.{
  receive-signed_request, Codec, receive, signed_request, ok,
}
use youtube_stream_tracker.Webhook.Redirects.{follow-allowed, IsBounded, follow}
use youtube_stream_tracker.Examples.Networks.{network, accepted}
use youtube_stream_tracker.Examples.Requests.{cluster, failed_pod}
use youtube_stream_tracker.Reconcile.{Cluster, reconcile_startup}
use youtube_stream_tracker.Watcher.Session.{modified}

abbrev codec : Codec
codec = record {
  decimal = λ n. "1700000000";
  parse_int = λ s. some 1700000000;
  format = format_sample;
  hmac = digest_sample;
  unmarshals = λ s. true;
}

receive-signed_request_example :
    receive codec "k"
      (signed_request codec "k" "https://example.com/hook" 1700000000 "{}")
      1700000100
    ≡ ok
receive-signed_request_example =
    receive-signed_request codec "k" "https://example.com/hook" "{}" 1700000000 1700000100 refl refl
      (omega arith) (omega arith) (omega arith) (omega arith)

-- Each response leads to the same URL again.
follow-allowed_example : IsBounded network (follow network (λ n. some "outside") 5 [] "outside")
follow-allowed_example = follow-allowed network (λ n. some "outside") "outside" accepted

abbrev podless : Cluster memory
podless = record cluster { list_worker_pods = λ s. some [] }

reconcile_startup-IsMissing_example :
    All
      (IsMissing memory podless [])
      (reconcile_startup memory podless (to_monitor sample_object ∷ []) (some sample_object)).sent
reconcile_startup-IsMissing_example =
    reconcile_startup-IsMissing memory podless (to_monitor sample_object ∷ []) (some sample_object)
      [] refl

-- A session whose watch fails, and one that shows a failed pod twice.
abbrev turns : List Turn
turns =
    record {
      ended = false;
      listed = some ((sample_object ∷ [], failed_pod) ∷ []);
      events = none;
      ends = false;
    }
    ∷ record {
      ended = false;
      listed = some ((sample_object ∷ [], failed_pod) ∷ []);
      events = some ((sample_object ∷ [], modified (some failed_pod)) ∷ []);
      ends = true;
    }
    ∷ []
