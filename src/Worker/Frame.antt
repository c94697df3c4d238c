-- ===== src/Worker/Frame.antt =====
-- What the small methods of the worker leave alone, and what they write to the trace.
use youtube_stream_tracker.Prelude.{
  ℕ, suc, ◌≡◌, refl, ◌∙◌, Bool, true, false, Option, none, some, arith, if◌then◌else◌,
}
use youtube_stream_tracker.Worker.World.{
  on_answer, State, EventType, EventData, Effect, Env, Worker, World, M, ◌>>=◌, ◌>>◌, pure, advance,
  request_shutdown, ask, emit, modify, gets,
}
use youtube_stream_tracker.Worker.Actions.{
  get_state, now, set_state, is_shutdown_requested, ctx_err, select_shutdown, deliver, send_webhook,
}

-- The worker without its state and its shutdown flags: what only its own thread writes.
abbrev pub data_of : Worker → Worker
data_of w = record w { state = State.waiting; shutdown_requested = false; work_cancelled = false }

-- The goroutine writes the shutdown flags alone.
pub advance-data_of : (e : Env) (w : World) → data_of (advance e w).worker ≡ data_of w.worker
unfolding advance request_shutdown
advance-data_of e w = ground arith

pub advance-state : (e : Env) (w : World) → (advance e w).worker.state ≡ w.worker.state
unfolding advance request_shutdown
advance-state e w = ground arith

pub advance-trace : (e : Env) (w : World) → (advance e w).trace ≡ w.trace
unfolding advance
advance-trace e w = refl

pub advance-tick : (e : Env) (w : World) → (advance e w).tick ≡ suc w.tick
unfolding advance
advance-tick e w = refl

-- A requested shutdown is never taken back.
pub advance-shutdown :
    (e : Env) (w : World)
    → w.worker.shutdown_requested ≡ true
    → (advance e w).worker.shutdown_requested ≡ true
unfolding advance request_shutdown
advance-shutdown e w h = ground arith

-- A property of worlds that an action keeps.
pub record Keeps {A : Type 0} (P : World → Type 0) (m : M A) : Type 0 where
  pub at : (e : Env) (w : World) → P w → P (m e w).1

module _ {A : Type 0} {P : World → Type 0} where
  pub Keeps-pure : (a : A) → Keeps P (pure a)
  unfolding pure
  Keeps-pure a = record { at = λ e w h. h }

  pub Keeps-if :
      (b : Bool) {m n : M A}
      → (b ≡ true → Keeps P m)
      → (b ≡ false → Keeps P n)
      → Keeps P (if b then m else n)
  Keeps-if true km kn = km refl
  Keeps-if false km kn = kn refl

module _ {A B : Type 0} {P : World → Type 0} where
  pub Keeps-bind :
      {m : M A} {f : A → M B} → Keeps P m → ((a : A) → Keeps P (f a)) → Keeps P (m >>= f)
  unfolding ◌>>=◌
  Keeps-bind {m} km kf = record { at = λ e w h. (kf (m e w).0).at e (m e w).1 (km.at e w h) }

  pub Keeps->> : {m : M A} {n : M B} → Keeps P m → Keeps P n → Keeps P (m >> n)
  unfolding ◌>>◌
  Keeps->> {m} km kn = record { at = λ e w h. kn.at e (m e w).1 (km.at e w h) }

  pub Keeps-on_answer :
      (o : Option A) {m : M B} {f : A → M B}
      → Keeps P m
      → ((a : A) → Keeps P (f a))
      → Keeps P (on_answer o m f)
  unfolding on_answer
  Keeps-on_answer none km kf = km
  Keeps-on_answer (some a) km kf = kf a

-- What holds of the result and the world behind an action, wherever it starts.
pub record Gives {A : Type 0} (Q : A → World → Type 0) (m : M A) : Type 0 where
  pub at : (e : Env) (w : World) → Q (m e w).0 (m e w).1

module _ {A : Type 0} {Q : A → World → Type 0} where
  pub Gives-pure : (a : A) → ((w : World) → Q a w) → Gives Q (pure a)
  unfolding pure
  Gives-pure a h = record { at = λ e w. h w }

  pub Gives-if : (b : Bool) {m n : M A} → Gives Q m → Gives Q n → Gives Q (if b then m else n)
  Gives-if true gm gn = gm
  Gives-if false gm gn = gn

module _ {A B : Type 0} {Q : B → World → Type 0} where
  pub Gives-bind : (m : M A) {f : A → M B} → ((a : A) → Gives Q (f a)) → Gives Q (m >>= f)
  unfolding ◌>>=◌
  Gives-bind m gf = record { at = λ e w. (gf (m e w).0).at e (m e w).1 }

  pub Gives->> : (m : M A) {n : M B} → Gives Q n → Gives Q (m >> n)
  unfolding ◌>>◌
  Gives->> m gn = record { at = λ e w. gn.at e (m e w).1 }

  pub Gives-on_answer :
      (o : Option A) {m : M B} {f : A → M B}
      → Gives Q m
      → ((a : A) → Gives Q (f a))
      → Gives Q (on_answer o m f)
  unfolding on_answer
  Gives-on_answer none gm gf = gm
  Gives-on_answer (some a) gm gf = gf a

-- Behind a reading of the state.
pub Gives-get_state :
    {B : Type 0} {Q : B → World → Type 0} (f : State → M B)
    → ((s : State) (e : Env) (w : World) → w.worker.state ≡ s → Q (f s e w).0 (f s e w).1)
    → Gives Q (get_state >>= f)
unfolding get_state gets ◌>>=◌
Gives-get_state f h = record { at = λ e w. h w.worker.state e w refl }

pub ruleset gives_rules = (Gives-pure, Gives-if, Gives-bind, Gives->>, Gives-on_answer)

-- The data of the worker is as given.
pub record HasData (v : Worker) (w : World) : Type 0 where
  pub data_eq : data_of w.worker ≡ v

module _ {v : Worker} where
  advance-HasData : (e : Env) (w : World) → HasData v w → HasData v (advance e w)
  advance-HasData e w h = record { data_eq = advance-data_of e w ∙ h.data_eq }

  pub ask-HasData : {A : Type 0} (q : Env → ℕ → A) → Keeps (HasData v) (ask q)
  unfolding ask
  ask-HasData q = record { at = advance-HasData }

  pub emit-HasData : (x : Effect) → Keeps (HasData v) (emit x)
  unfolding emit
  emit-HasData x = record { at = λ e w h. record { data_eq = h.data_eq } }

  pub gets-HasData : {A : Type 0} (f : Worker → A) → Keeps (HasData v) (gets f)
  unfolding gets
  gets-HasData f = record { at = λ e w h. h }

  pub set_state-HasData : (s : State) → Keeps (HasData v) (set_state s)
  unfolding set_state modify
  set_state-HasData s = record { at = λ e w h. record { data_eq = h.data_eq } }

  pub is_shutdown_requested-HasData : Keeps (HasData v) is_shutdown_requested
  unfolding is_shutdown_requested
  is_shutdown_requested-HasData = record { at = advance-HasData }

  pub ctx_err-HasData : Keeps (HasData v) ctx_err
  unfolding ctx_err
  ctx_err-HasData = record { at = advance-HasData }

  pub select_shutdown-HasData : Keeps (HasData v) select_shutdown
  unfolding select_shutdown
  select_shutdown-HasData = record { at = advance-HasData }

pub ruleset keeps_rules = (Keeps-pure, Keeps-bind, Keeps->>, Keeps-if, Keeps-on_answer)

ruleset data_rules = (
  keeps_rules, ask-HasData, emit-HasData, gets-HasData, set_state-HasData,
  is_shutdown_requested-HasData, ctx_err-HasData, select_shutdown-HasData,
)

pub send_webhook-HasData :
    {v : Worker} (t : EventType) (d : EventData) → Keeps (HasData v) (send_webhook t d)
unfolding send_webhook now deliver
send_webhook-HasData t d = search data_rules depth 12
