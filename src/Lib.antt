-- ===== src/Lib.antt =====
-- The gateway and the worker of a monitor for YouTube live streams.
--
-- A worker process watches one stream: it waits until the stream is live, then fetches the newest
-- segment of its playlist again and again, looks for black pictures and silence in it, and sends webhooks. A
-- gateway keeps the monitors as custom resources of Kubernetes, serves the HTTP interface, starts a pod
-- per monitor, and reconciles monitors and pods. The two talk through the gateway's internal endpoints.
--
-- Which file models what:
--   Prelude      numbers, integers, lists and tests that the others share
--   Model        internal/model/model.go: statuses, configurations and their validation
--   Analyzer     internal/ffmpeg/ffmpeg.go: what is made of ffmpeg's output; Silence on its silences,
--                Files on the files of the segments
--   Callback     internal/worker/callback.go: a worker's requests to the gateway; Delivered what a report
--                changes there
--   Config       internal/config/config.go: Gateway and Worker hold the two configurations and their
--                loading, Loading what a loaded one guarantees
--   Gateway      cmd/gateway/main.go: the routes; Serving a request's way through the middlewares to
--                its handler, Routing and Guards what these establish, Boot the start, Exchange
--                a worker's requests and their answers, Reports and Terminations what the accepted ones did
--   Ids          internal/ids/ids.go
--   Manifest     internal/manifest/manifest.go: Playlist the variant that is followed, the end of a
--                playlist and the latest segment of a media playlist, Latest the walk to it, Mpd and Dash
--                the latest segment of a DASH manifest, Timeline what its timeline stands for, Fetch the
--                download of a segment, Reference resolveURL and the choice between HLS and DASH
--   Worker       internal/worker/worker.go. World holds the worker's fields, the outside, and the
--                effects in a trace, and the small monad; Actions the small methods (sendWebhook,
--                reportStatus, gracefulShutdown); Detection processBlackDetection and
--                processSilenceDetection; Segments analyzeLatestSegment, handleSegmentError,
--                checkLiveStatus and checkSuspension; Waiting waitingMode; Modes monitoringMode and Run.
--                Alarm is the specification that Detection implements; Frame and Delivery hold the
--                lemmas on what the methods keep and send, Progress why a shutdown ends Run,
--                Upkeep how a property of the trace gets through every method, with the files and
--                the suspensions as its uses; Program is cmd/worker/main.go.
--   Webhook      internal/webhook/webhook.go: Sender the retries, Signature the signature,
--                Redirects what the client follows, Request sendOnce and its receiver in
--                cmd/webhook-demo/main.go
--   Ytdlp        internal/ytdlp/ytdlp.go: the commands and their answers
--   Store        internal/k8s/store/store.go and convert.go and the types of the custom resource:
--                Objects the conversions, Api the API server, Queries the reads from the informer's
--                cache, Writes the writes
--   Handlers     internal/api/handlers.go: Public, Listing and Internal, by the endpoints'
--                audience; WatchUrl the test of a stream's URL
--   Reconcile    internal/k8s/reconcile.go: ReconcileStartup; Notices the webhooks, Periodic RunPeriodic
--   Pods         internal/k8s/k8s.go: the pod of a worker; Client the calls of Kubernetes and CreateMonitorPod
--                of internal/k8s/reconcile.go; Environment what a worker reads of its pod, Readiness
--                WaitForPodReady
--   Middleware   internal/httpapi/middleware.go: the checks of the keys; RateLimiter the visitors of a
--                rate limiter, Counts the view of lists that its lemmas take, Replies the status and
--                the error code of an answer (errors.go, response.go)
--   Validation   internal/validation/url.go: the check of outbound URLs and the dialling of the safe
--                client
--   Watcher      internal/k8s/watcher.go: handlePodEvent; Session the list and the watch of the pods,
--                Running the sessions one after the other, Earned whom their webhooks are for
--   Examples     concrete runs
--
-- How the state and the outside are modelled. A method of the worker is a function from an outside
-- (`Env`) and a world to a result and a world. The outside answers each question by the tick at which
-- it is asked, and any answer may come at any tick; the goroutine that turns the end of the context
-- into a shutdown may run at any question. An effect such as `saved` or `cleaned` is a call; `cleaned`
-- says whether it went well. Times are milliseconds, and so are durations; `float64` durations are
-- numbers of milliseconds, decibels are integers. A worker whose configured durations are not whole
-- milliseconds, or are negative, has no run in the model (`not_modelled`). The API server is a record
-- of calls on a state of any kind, so other writers may act in it; `retry.RetryOnConflict` is assumed
-- to return what one of its attempts returned. Whether `Create` finds its index and can convert its
-- objects is a parameter of that record too; elsewhere the failures of such conversions are left out.
-- The environment of a process is a function from names to texts, the heap of a rate limiter is a list
-- with the operations and laws that container/heap documents, and its token buckets are a parameter;
-- `int64` durations wrap around where the code multiplies. HMAC, the encoding of payloads, ffmpeg,
-- yt-dlp, regular expressions, parsers, URLs and floating-point arithmetic are parameters.
--
-- Loops. The loops of Run, waitingMode and monitoringMode may go on as long as a stream does, and so
-- take fuel: Run's own loop gets three rounds, since it goes from waiting to monitoring to an end, and
-- the loops of the modes get the fuel that `run` is given; a run that uses it all ends in
-- `out_of_fuel`. Once a shutdown is signalled, fuel for a few more rounds than the tick of the signal
-- is enough. The walk over master playlists takes fuel too, since the code has no bound on it; the
-- cleanup of a rate limiter gets its number of entries, and takes one out per turn. WaitForPodReady
-- takes an attempt for each second of its timeout, and one more; a request follows redirects with fuel
-- for the five requests that the client allows. The other loops recurse on their data: the retries on
-- the attempts that are left, the watcher and the periodic reconciliation on the turns that the
-- outside gives them.
--
-- Not modelled: the goroutine of the rate limiters' cleanup, the set-up of the informer, lists of
-- pods, log lines and what only they use, the texts and the JSON of the answers, the servers of the
-- probes and the shutdown of the HTTP servers: calls of libraries or wiring. The handlers and the
-- webhook sender take the tests of URLs and identifiers as parameters, and the walks over playlists
-- the resolution of references.
pub mod Prelude
pub mod Model
pub mod Analyzer
pub mod Callback
pub mod Config
pub mod Examples
pub mod Gateway
pub mod Handlers
pub mod Ids
pub mod Manifest
pub mod Pods
pub mod Middleware
pub mod Reconcile
pub mod Store
pub mod Validation
pub mod Watcher
pub mod Webhook
pub mod Worker
pub mod Ytdlp
