-- ===== src/Worker/Delivery.antt =====
-- What becomes of a webhook: internal/worker/worker.go's `sendWebhook`.
use youtube_stream_tracker.Prelude.{[], List, ◌∷◌, inr, ◌⊎◌, ℕ, suc, ◌≡◌, refl, true, false, arith}
use youtube_stream_tracker.Worker.World.{
  terminated, sent, Payload, State, EventType, EventData, Effect, Env, Worker, World, ◌>>=◌, ◌>>◌,
  pure, advance, request_shutdown, ask, emit, modify, gets,
}
use youtube_stream_tracker.Worker.Actions.{
  now, set_state, is_shutdown_requested, ctx_err, deliver, send_webhook,
}
use youtube_stream_tracker.Worker.Frame.{advance-state, keeps_rules, Keeps}

-- The state is as given, or the worker has failed.
pub record MayFail (s : State) (w : World) : Type 0 where
  pub same_or_error : (w.worker.state ≡ s) ⊎ (w.worker.state ≡ State.error)

module _ {s : State} where
  pub advance-MayFail : (e : Env) (w : World) → MayFail s w → MayFail s (advance e w)
  advance-MayFail e w h = record { same_or_error = rw (advance-state e w) h.same_or_error }

  pub ask-MayFail : {A : Type 0} (q : Env → ℕ → A) → Keeps (MayFail s) (ask q)
  unfolding ask
  ask-MayFail q = record { at = advance-MayFail }

  pub emit-MayFail : (x : Effect) → Keeps (MayFail s) (emit x)
  unfolding emit
  emit-MayFail x = record { at = λ e w h. record { same_or_error = h.same_or_error } }

  pub gets-MayFail : {A : Type 0} (f : Worker → A) → Keeps (MayFail s) (gets f)
  unfolding gets
  gets-MayFail f = record { at = λ e w h. h }

  pub set_error-MayFail : Keeps (MayFail s) (set_state State.error)
  unfolding set_state modify
  set_error-MayFail = record { at = λ e w h. record { same_or_error = inr refl } }

  pub is_shutdown_requested-MayFail : Keeps (MayFail s) is_shutdown_requested
  unfolding is_shutdown_requested
  is_shutdown_requested-MayFail = record { at = advance-MayFail }

  pub ctx_err-MayFail : Keeps (MayFail s) ctx_err
  unfolding ctx_err
  ctx_err-MayFail = record { at = advance-MayFail }

pub ruleset fail_rules = (
  keeps_rules, ask-MayFail, emit-MayFail, gets-MayFail, set_error-MayFail,
  is_shutdown_requested-MayFail, ctx_err-MayFail,
)

pub send_webhook-MayFail :
    {s : State} (t : EventType) (d : EventData) → Keeps (MayFail s) (send_webhook t d)
unfolding send_webhook now deliver
send_webhook-MayFail t d = search fail_rules depth 12

-- What a delivery writes to the trace.
abbrev pub payload : EventType → EventData → Env → World → Payload
payload t d e w = record {
  event_type = t;
  monitor_id = w.worker.cfg.monitor_id;
  stream_url = w.worker.cfg.stream_url;
  timestamp = e.clock w.tick;
  event_data = d;
  metadata = w.worker.metadata;
}

-- Where the webhook is delivered, the state of the worker stays as it is, and the trace gets exactly
-- the one webhook, sent to the configured URL with the payload built from the worker.
pub send_webhook-delivered :
    (t : EventType) (d : EventData) (e : Env) (w : World)
    → e.delivered (suc w.tick) ≡ true
    → let w' = (send_webhook t d e w).1 in
      (w'.worker.state ≡ w.worker.state)
      × (w'.trace ≡ sent w.worker.cfg.webhook_url (payload t d e w) true ∷ w.trace)
unfolding send_webhook now deliver ask gets is_shutdown_requested ctx_err set_state modify emit
    ◌>>=◌ ◌>>◌ pure advance request_shutdown
send_webhook-delivered t d e w h = ground arith

-- Where the webhook is not delivered, and no shutdown was requested before the call or is signalled
-- and the context has not ended and does not end, the worker is in the error state afterwards, and
-- has asked the gateway to terminate the monitor; nothing else but the attempt is in the trace.
send_webhook-undelivered :
    (t : EventType) (d : EventData) (e : Env) (w : World)
    → e.delivered (suc w.tick) ≡ false
    → ((n : ℕ) → (e.shutdown_signalled n ≡ false) × (e.ctx_done n ≡ false))
    → w.worker.shutdown_requested ≡ false
    → w.worker.work_cancelled ≡ false
    → let w' = (send_webhook t d e w).1 in
      (w'.worker.state ≡ State.error)
      × (w'.trace
          ≡ terminated "webhook_delivery_failed"
            ∷ sent w.worker.cfg.webhook_url (payload t d e w) false
            ∷ w.trace)
unfolding send_webhook now deliver ask gets is_shutdown_requested ctx_err set_state modify emit
    ◌>>=◌ ◌>>◌ pure advance request_shutdown
send_webhook-undelivered t d e w h calm r c =
    ground (
      arith,
      calm w.tick,
      calm (suc w.tick),
      calm (suc (suc w.tick)),
      calm (suc (suc (suc w.tick))),
    )

-- Where a shutdown was requested before, sending a webhook leaves the state of the worker as it is,
-- whatever becomes of the delivery.
pub send_webhook-stopping :
    (t : EventType) (d : EventData) (e : Env) (w : World)
    → w.worker.shutdown_requested ≡ true
    → (send_webhook t d e w).1.worker.state ≡ w.worker.state
unfolding send_webhook now deliver ask gets is_shutdown_requested ctx_err set_state modify emit
    ◌>>=◌ ◌>>◌ pure advance request_shutdown
send_webhook-stopping t d e w h = ground arith

-- The events sent, newest first.
abbrev pub sent_types : List Effect → List EventType
sent_types [] = []
sent_types (sent url p ok ∷ xs) = p.event_type ∷ sent_types xs
sent_types (_ ∷ xs) = sent_types xs

-- A call sends one webhook, whatever becomes of it.
pub send_webhook-sent_types :
    (t : EventType) (d : EventData) (e : Env) (w : World)
    → sent_types (send_webhook t d e w).1.trace ≡ t ∷ sent_types w.trace
unfolding send_webhook now deliver ask gets is_shutdown_requested ctx_err set_state modify emit
    ◌>>=◌ ◌>>◌ pure advance
send_webhook-sent_types t d e w = ground arith
