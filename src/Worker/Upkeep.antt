-- ===== src/Worker/Upkeep.antt =====
-- internal/worker/worker.go: a property that each small step keeps is kept by the methods made of them.
pub mod Methods
pub mod Rounds
pub mod Loops
pub mod Protocol
pub mod Files
pub mod Announcement
pub mod Suspension
use youtube_stream_tracker.Model.{MonitorStatus}
use youtube_stream_tracker.Worker.Actions.{
  deliver, select_shutdown, now, set_state, send_webhook, ctx_err, is_shutdown_requested,
  report_status,
}
use youtube_stream_tracker.Worker.World.{
  waiting_ticker, fetched, StatusUpdate, Payload, terminated, reported, M, State, advance,
  EventData, World, sent, Effect, EventType, Worker, Env, modify, gets, ask, ◌>>◌, pure, on_answer,
  update, ◌>>=◌, emit,
}
use youtube_stream_tracker.Prelude.{
  none, ap, some, ℕ, true, false, String, Option, Bool, refl, ◌∷◌, ◌≡◌, ◌∙◌, if◌then◌else◌,
}

-- A property of the outside and the world that an action keeps.
pub record Preserves {A : Type 0} (P : Env → World → Type 0) (m : M A) : Type 0 where
  pub at : (e : Env) (w : World) → P e w → P e (m e w).1

-- Events other than the two on a suspension.
abbrev pub is_plain : EventType → Bool
is_plain EventType.stream_suspended = false
is_plain EventType.stream_resumed = false
is_plain _ = true

-- Effects that have nothing to do with files and suspensions.
abbrev pub IsPlain : Effect → Type 0
IsPlain (sent url p success) = is_plain p.event_type ≡ true
IsPlain (reported s u) = Unit
IsPlain (terminated r) = Unit
IsPlain (fetched u) = Unit
IsPlain (waiting_ticker n) = Unit
IsPlain _ = ⊥

-- A change of the worker that leaves the flags of a suspension and of the shutdown as they are.
abbrev pub IsStill : (Worker → Worker) → Type 0
IsStill f =
    (v : Worker)
    → ((f v).suspended_alert_sent ≡ v.suspended_alert_sent)
      × ((f v).shutdown_requested ≡ v.shutdown_requested)

-- A property that the plain steps keep.
pub record Upkeep (P : Env → World → Type 0) : Type 0 where
  pub on_advance : (e : Env) (w : World) → P e w → P e (advance e w)
  pub on_worker :
      (f : Worker → Worker)
      → IsStill f
      → (e : Env) (w : World) → P e w
      → P e (record w { worker = f w.worker })
  pub on_effect :
      (x : Effect)
      → IsPlain x
      → (e : Env) (w : World) → P e w
      → P e (record w { trace = x ∷ w.trace })

module _ {A : Type 0} {P : Env → World → Type 0} where
  pub Preserves-pure : (a : A) → Preserves P (pure a)
  unfolding pure
  Preserves-pure a = record { at = λ e w h. h }

  pub Preserves-if :
      (b : Bool) {m n : M A} → Preserves P m → Preserves P n → Preserves P (if b then m else n)
  Preserves-if true p q = p
  Preserves-if false p q = q

  pub Preserves-gets : (f : Worker → A) → Preserves P (gets f)
  unfolding gets
  Preserves-gets f = record { at = λ e w h. h }

  pub Preserves-ask : Upkeep P → (q : Env → ℕ → A) → Preserves P (ask q)
  unfolding ask
  Preserves-ask u q = record { at = u.on_advance }

  pub Preserves-update :
      Upkeep P → (f : Worker → Worker × A) → IsStill (λ v. (f v).0) → Preserves P (update f)
  unfolding update
  Preserves-update u f still = record { at = u.on_worker (λ v. (f v).0) still }

module _ {A B : Type 0} {P : Env → World → Type 0} where
  pub Preserves-bind :
      {m : M A} {f : A → M B}
      → Preserves P m
      → ((a : A) → Preserves P (f a))
      → Preserves P (m >>= f)
  unfolding ◌>>=◌
  Preserves-bind {m} p q = record { at = λ e w h. (q (m e w).0).at e (m e w).1 (p.at e w h) }

  pub Preserves->> : {m : M A} {n : M B} → Preserves P m → Preserves P n → Preserves P (m >> n)
  unfolding ◌>>◌
  Preserves->> {m} p q = record { at = λ e w h. q.at e (m e w).1 (p.at e w h) }

  pub Preserves-on_answer :
      (o : Option A) {m : M B} {f : A → M B}
      → Preserves P m
      → ((a : A) → Preserves P (f a))
      → Preserves P (on_answer o m f)
  unfolding on_answer
  Preserves-on_answer none p q = p
  Preserves-on_answer (some a) p q = q a

module _ {P : Env → World → Type 0} where
  pub Preserves-emit : Upkeep P → (x : Effect) → IsPlain x → Preserves P (emit x)
  unfolding emit
  Preserves-emit u x plain = record { at = u.on_effect x plain }

  pub Preserves-modify : Upkeep P → (f : Worker → Worker) → IsStill f → Preserves P (modify f)
  unfolding modify
  Preserves-modify u f still = record { at = u.on_worker f still }

  pub Preserves-set_state : Upkeep P → (s : State) → Preserves P (set_state s)
  unfolding set_state
  Preserves-set_state u s = Preserves-modify u _ (λ v. (refl, refl))

  pub Preserves-is_shutdown_requested : Upkeep P → Preserves P is_shutdown_requested
  unfolding is_shutdown_requested
  Preserves-is_shutdown_requested u = record { at = u.on_advance }

  pub Preserves-ctx_err : Upkeep P → Preserves P ctx_err
  unfolding ctx_err
  Preserves-ctx_err u = record { at = u.on_advance }

  pub Preserves-select_shutdown : Upkeep P → Preserves P select_shutdown
  unfolding select_shutdown
  Preserves-select_shutdown u = record { at = u.on_advance }

  pub Preserves-report_status :
      Upkeep P → (s : MonitorStatus) (o : Option StatusUpdate) → Preserves P (report_status s o)
  unfolding report_status
  Preserves-report_status u s o = Preserves-emit u _ tt

  pub Preserves-terminated : Upkeep P → (r : String) → Preserves P (emit (terminated r))
  Preserves-terminated u r = Preserves-emit u _ tt

pub ruleset preserves_rules = (
  Preserves-pure, Preserves-if, Preserves-gets, Preserves-ask, Preserves-bind, Preserves->>,
  Preserves-on_answer, Preserves-set_state, Preserves-is_shutdown_requested, Preserves-ctx_err,
  Preserves-select_shutdown, Preserves-report_status, Preserves-terminated,
)

module _ {P : Env → World → Type 0} where
  -- A webhook whose sending is noted as the property asks for.
  pub Preserves-send :
      Upkeep P
      → (t : EventType) (d : EventData)
      → ((url : String) (p : Payload) (b : Bool)
          → p.event_type ≡ t
          → Preserves P (emit (sent url p b)))
      → Preserves P (send_webhook t d)
  unfolding send_webhook now deliver
  Preserves-send u t d note = Preserves-bind (Preserves-ask u _) λ time.
      Preserves-bind (Preserves-gets _) λ w.
        Preserves-bind
          (Preserves-bind (Preserves-ask u _)
            λ success. Preserves->> (note _ _ _ refl) (Preserves-pure _))
          λ success. search preserves_rules depth 10

  pub Preserves-send_webhook :
      Upkeep P
      → (t : EventType) (d : EventData) → is_plain t ≡ true
      → Preserves P (send_webhook t d)
  Preserves-send_webhook u t d plain =
      Preserves-send u t d λ url p b same. Preserves-emit u _ (ap is_plain same ∙ plain)
