-- ===== src/Worker/Upkeep/Announcement.antt =====
-- internal/worker/worker.go: the flag suspended_alert_sent and the webhooks that its changes call for.
use youtube_stream_tracker.Worker.Actions.{send_webhook, now, deliver}
use youtube_stream_tracker.Worker.Upkeep.Protocol.{replay-∷, replay, upkeep}
use youtube_stream_tracker.Worker.Upkeep.{
  preserves_rules, Preserves-pure, Preserves, IsPlain, is_plain, Upkeep,
}
use youtube_stream_tracker.Prelude.{
  sym, ap, subst, ℕ, ◌∙◌, inr, inl, ◌⊎◌, not, if◌then◌else◌, none, true, some, false, Option, Bool,
  refl, arith, ◌≡◌,
}
use youtube_stream_tracker.Worker.World.{
  EventData, Worker, M, emit, gets, ask, ◌>>=◌, ◌>>◌, update, Effect, World, Env, request_shutdown,
  advance, EventType, stream_suspended, stream_resumed, saved, analyzed, cleaned, cleaned_monitor,
  sent, reported, terminated, fetched, waiting_ticker,
}

-- Whether a suspension is open: one is opened only when none is, and resumed only when one is.
abbrev pub suspension_event : Bool → EventType → Option Bool
suspension_event false stream_suspended = some true
suspension_event true stream_suspended = none
suspension_event true stream_resumed = some false
suspension_event false stream_resumed = none
suspension_event is_open _ = some is_open

abbrev pub suspension_step : Bool → Effect → Option Bool
suspension_step is_open (sent url p success) = suspension_event is_open p.event_type
suspension_step is_open _ = some is_open

suspension_event-plain :
    (is_open : Bool) (t : EventType) → is_plain t ≡ true → suspension_event is_open t ≡ some is_open
suspension_event-plain b stream_suspended h = absurd grind arith
suspension_event-plain b stream_resumed h = absurd grind arith
suspension_event-plain true _ h = refl
suspension_event-plain false _ h = refl

suspension_step-plain :
    (is_open : Bool) (x : Effect) → IsPlain x → suspension_step is_open x ≡ some is_open
suspension_step-plain b (sent url p success) h = suspension_event-plain b p.event_type h
suspension_step-plain b (reported s u) h = refl
suspension_step-plain b (terminated r) h = refl
suspension_step-plain b (fetched u) h = refl
suspension_step-plain b (waiting_ticker n) h = refl
suspension_step-plain b (saved p) h = absurd h
suspension_step-plain b (analyzed p) h = absurd h
suspension_step-plain b (cleaned p removed) h = absurd h
suspension_step-plain b cleaned_monitor h = absurd h

-- The flag says whether the webhooks so far leave a suspension open.
abbrev pub Flagged : Env → World → Type 0
Flagged e w = replay suspension_step false w.trace ≡ some w.worker.suspended_alert_sent

pub advance-suspended :
    (e : Env) (w : World)
    → (advance e w).worker.suspended_alert_sent ≡ w.worker.suspended_alert_sent
unfolding advance request_shutdown
advance-suspended e w = ground arith

pub keeper : Upkeep Flagged
keeper =
    upkeep suspension_step false (λ v. v.suspended_alert_sent) suspension_step-plain
      advance-suspended (λ g still v. (still v).0)

pub Flagged-emit :
    (x : Effect) → ((b : Bool) → suspension_step b x ≡ some b) → Preserves Flagged (emit x)
unfolding emit
Flagged-emit x q = record {
  at = λ e w h. replay-∷ suspension_step false w.worker.suspended_alert_sent x w.trace h ∙ q _;
}

-- An action after which the flag says what the webhooks say, where before it a suspension was open
-- or not, as `was_open` tells, and the flag said the opposite.
pub record Announces {A : Type 0} (was_open : Bool) (m : M A) : Type 0 where
  at :
      (e : Env) (w : World)
      → replay suspension_step false w.trace ≡ some was_open
      → w.worker.suspended_alert_sent ≡ not was_open
      → Flagged e (m e w).1

pub Announces->> :
    {A B : Type 0} {b : Bool} {m : M A} {n : M B}
    → Announces b m
    → Preserves Flagged n
    → Announces b (m >> n)
unfolding ◌>>◌
Announces->> {m} p q = record { at = λ e w h k. q.at e (m e w).1 (p.at e w h k) }

Announces-bind :
    {A B : Type 0} {b : Bool} {m : M A} {f : A → M B}
    → Announces b m
    → ((a : A) → Preserves Flagged (f a))
    → Announces b (m >>= f)
unfolding ◌>>=◌
Announces-bind {m} p q = record { at = λ e w h k. (q (m e w).0).at e (m e w).1 (p.at e w h k) }

Announces-ask :
    {A B : Type 0} {b : Bool} (q : Env → ℕ → A) {f : A → M B}
    → ((a : A) → Announces b (f a))
    → Announces b (ask q >>= f)
unfolding ask ◌>>=◌ advance
Announces-ask q p = record {
  at = λ e w h k. (p (q e w.tick)).at e (advance e w) h (advance-suspended e w ∙ k);
}

Announces-gets :
    {A B : Type 0} {b : Bool} (g : Worker → A) {f : A → M B}
    → ((a : A) → Announces b (f a))
    → Announces b (gets g >>= f)
unfolding gets ◌>>=◌
Announces-gets g p = record { at = λ e w h k. (p (g w.worker)).at e w h k }

Announces-emit : (b : Bool) (x : Effect) → suspension_step b x ≡ some (not b) → Announces b (emit x)
unfolding emit
Announces-emit b x q = record {
  at = λ e w h k. replay-∷ suspension_step false b x w.trace h ∙ q ∙ ap some (sym k);
}

-- The webhook that the change of the flag calls for.
pub Announces-send_webhook :
    Upkeep Flagged
    → (b : Bool) (t : EventType) (d : EventData) → suspension_event b t ≡ some (not b)
    → Announces b (send_webhook t d)
unfolding send_webhook now deliver
Announces-send_webhook u b t d q = Announces-ask _ λ time. Announces-gets _ λ v.
    Announces-bind
      (Announces-ask _ λ success. Announces->> (Announces-emit b _ q) (Preserves-pure _))
      λ success. search preserves_rules depth 10

-- A change of the worker, and whether it changed the flag from `b`.
pub Announces-update :
    {A : Type 0} (b : Bool) (f : Worker → Worker × Bool) {m n : M A}
    → ((v : Worker)
        → (((f v).1 ≡ true) × (v.suspended_alert_sent ≡ b) × ((f v).0.suspended_alert_sent ≡ not b))
          ⊎ (((f v).1 ≡ false) × ((f v).0.suspended_alert_sent ≡ v.suspended_alert_sent)))
    → Announces b m
    → Preserves Flagged n
    → Preserves Flagged (update f >>= λ due. if due then m else n)
unfolding update ◌>>=◌
Announces-update b f {m} {n} cases p q = record {
  at = λ e w h.
      let v : World = record w { worker = (f w.worker).0 } in
      elim (cases w.worker) [
        | inl (due, was, now_is) ↦
            subst (λ x. Flagged e ((if x then m else n) e v).1) (sym due)
              (p.at e v (h ∙ ap some was) now_is)
        | inr (due, same) ↦
            subst (λ x. Flagged e ((if x then m else n) e v).1) (sym due)
              (q.at e v (h ∙ ap some (sym same)))
      ];
}
