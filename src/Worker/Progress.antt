-- ===== src/Worker/Progress.antt =====
-- internal/worker/worker.go: no method takes a requested shutdown back, and none misses a signal that
-- comes while it runs.
pub mod Methods
pub mod Loops
pub mod Ending
pub mod Rounds
pub mod Termination
use youtube_stream_tracker.Worker.Frame.{advance-shutdown, advance-tick}
use youtube_stream_tracker.Model.{MonitorStatus}
use youtube_stream_tracker.Worker.Actions.{
  set_state, ctx_err, deliver, send_webhook, select_shutdown, now, is_shutdown_requested,
  report_status,
}
use youtube_stream_tracker.Prelude.{
  subst, ltb, Bool-cases, inr, inl, false, none, true, some, Option, ℕ, Bool, ◌≡◌, refl, ◌⊎◌,
  if◌then◌else◌, ◌≤◌, arith,
}
use youtube_stream_tracker.Worker.World.{
  StatusUpdate, EventData, World, Worker, Env, EventType, Effect, M, State, on_answer, emit,
  advance, modify, gets, pure, ask, request_shutdown, ◌>>◌, ◌>>=◌, update,
}

-- A signal at tick `t` has asked for the shutdown, or is still to come.
abbrev pub Due : ℕ → World → Type 0
Due t w = (w.worker.shutdown_requested ≡ true) ⊎ (w.tick ≤ t)

-- A world that comes after another.
pub record Follows (t : ℕ) (w w' : World) : Type 0 where
  pub later : w.tick ≤ w'.tick
  pub due : Due t w → Due t w'

pub Follows-refl : (t : ℕ) (w : World) → Follows t w w
Follows-refl t w = record { later = omega arith; due = λ h. h }

pub Follows-trans : {t : ℕ} {w w' w'' : World} → Follows t w w' → Follows t w' w'' → Follows t w w''
Follows-trans p q = record { later = omega (arith, p.later, q.later); due = λ h. q.due (p.due h) }

advance-signalled :
    (e : Env) (w : World)
    → e.shutdown_signalled w.tick ≡ true
    → (advance e w).worker.shutdown_requested ≡ true
unfolding advance request_shutdown
advance-signalled e w h = ground arith

-- With a signal at tick `t`.
pub Follows-advance :
    (t : ℕ) (e : Env) (w : World) → e.shutdown_signalled t ≡ true → Follows t w (advance e w)
Follows-advance t e w s = record {
  later = omega (arith, advance-tick e w);
  due = λ h. elim h [
    | inl a ↦ inl (advance-shutdown e w a)
    | inr b ↦ elim (Bool-cases (ltb w.tick t)) [
      | inl c ↦ inr (ground (arith, advance-tick e w))
      | inr c ↦
          let q : t ≡ w.tick = ground arith in
          inl (advance-signalled e w (subst (λ k. e.shutdown_signalled k ≡ true) q s))
    ]
  ];
}

pub record Lively {A : Type 0} (m : M A) : Type 0 where
  pub at : (t : ℕ) (e : Env) (w : World) → e.shutdown_signalled t ≡ true → Follows t w (m e w).1

module _ {A : Type 0} where
  pub Lively-pure : (a : A) → Lively (pure a)
  unfolding pure
  Lively-pure a = record { at = λ t e w s. Follows-refl t w }

  pub Lively-if : (b : Bool) {m n : M A} → Lively m → Lively n → Lively (if b then m else n)
  Lively-if true lm ln = lm
  Lively-if false lm ln = ln

  pub Lively-ask : (q : Env → ℕ → A) → Lively (ask q)
  unfolding ask
  Lively-ask q = record { at = λ t e w s. Follows-advance t e w s }

  pub Lively-gets : (f : Worker → A) → Lively (gets f)
  unfolding gets
  Lively-gets f = record { at = λ t e w s. Follows-refl t w }

  pub Lively-update :
      (f : Worker → Worker × A)
      → ((w : Worker) → ((f w).0).shutdown_requested ≡ w.shutdown_requested)
      → Lively (update f)
  unfolding update
  Lively-update f k = record {
    at = λ t e w s. record { later = omega arith; due = ground (arith, k w.worker) };
  }

module _ {A B : Type 0} where
  pub Lively-bind : {m : M A} {f : A → M B} → Lively m → ((a : A) → Lively (f a)) → Lively (m >>= f)
  unfolding ◌>>=◌
  Lively-bind {m} lm lf = record {
    at = λ t e w s. Follows-trans (lm.at t e w s) ((lf (m e w).0).at t e (m e w).1 s);
  }

  pub Lively->> : {m : M A} {n : M B} → Lively m → Lively n → Lively (m >> n)
  unfolding ◌>>◌
  Lively->> {m} lm ln = record {
    at = λ t e w s. Follows-trans (lm.at t e w s) (ln.at t e (m e w).1 s);
  }

  pub Lively-on_answer :
      (o : Option A) {m : M B} {f : A → M B}
      → Lively m
      → ((a : A) → Lively (f a))
      → Lively (on_answer o m f)
  unfolding on_answer
  Lively-on_answer none lm lf = lm
  Lively-on_answer (some a) lm lf = lf a

pub Lively-emit : (x : Effect) → Lively (emit x)
unfolding emit
Lively-emit x = record { at = λ t e w s. record { later = omega arith; due = λ h. h } }

pub Lively-modify :
    (f : Worker → Worker)
    → ((w : Worker) → (f w).shutdown_requested ≡ w.shutdown_requested)
    → Lively (modify f)
unfolding modify
Lively-modify f k = record {
  at = λ t e w s. record { later = omega arith; due = ground (arith, k w.worker) };
}

pub Lively-is_shutdown_requested : Lively is_shutdown_requested
unfolding is_shutdown_requested
Lively-is_shutdown_requested = record { at = λ t e w s. Follows-advance t e w s }

pub Lively-ctx_err : Lively ctx_err
unfolding ctx_err
Lively-ctx_err = record { at = λ t e w s. Follows-advance t e w s }

pub Lively-select_shutdown : Lively select_shutdown
unfolding select_shutdown
Lively-select_shutdown = record { at = λ t e w s. Follows-advance t e w s }

pub Lively-set_state : (s : State) → Lively (set_state s)
unfolding set_state
Lively-set_state s = Lively-modify _ (λ w. refl)

pub ruleset lively_rules = (
  Lively-pure, Lively-if, Lively-ask, Lively-gets, Lively-bind, Lively->>, Lively-on_answer,
  Lively-emit, Lively-is_shutdown_requested, Lively-ctx_err, Lively-select_shutdown,
  Lively-set_state,
)

pub Lively-send_webhook : (t : EventType) (d : EventData) → Lively (send_webhook t d)
unfolding send_webhook now deliver
Lively-send_webhook t d = search lively_rules depth 14

pub Lively-report_status :
    (s : MonitorStatus) (u : Option StatusUpdate) → Lively (report_status s u)
unfolding report_status
Lively-report_status s u = Lively-emit _
