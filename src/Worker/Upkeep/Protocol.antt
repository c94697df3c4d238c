-- ===== src/Worker/Upkeep/Protocol.antt =====
-- A protocol that a trace follows: an automaton that reads the effects from the oldest on.
use youtube_stream_tracker.Worker.Upkeep.{Upkeep, IsStill, IsPlain}
use youtube_stream_tracker.Worker.World.{World, Env, Worker, Effect, advance}
use youtube_stream_tracker.Prelude.{sym, ap, List, Option, refl, ◌∙◌, ◌≡◌, ◌∷◌, []}
use youtube_stream_tracker.Prelude.{none, some}

module _ {S : Type 0} (δ : S → Effect → Option S) where
  -- The state after a trace, newest first; `none` where it breaks the protocol.
  abbrev pub replay : S → List Effect → Option S
  replay s [] = some s
  replay s (x ∷ xs) = elim (replay s xs) [ none ↦ none | some t ↦ δ t x ]

  pub replay-∷ :
      (s t : S) (x : Effect) (xs : List Effect) → replay s xs ≡ some t → replay s (x ∷ xs) ≡ δ t x
  replay-∷ s t x xs h = rw h refl

  -- A protocol that the plain effects leave where it is, in a state read off the worker.
  pub upkeep :
      (s : S) (f : Worker → S)
      → ((t : S) (x : Effect) → IsPlain x → δ t x ≡ some t)
      → ((e : Env) (w : World) → f (advance e w).worker ≡ f w.worker)
      → ((g : Worker → Worker) → IsStill g → (v : Worker) → f (g v) ≡ f v)
      → Upkeep (λ e w. replay s w.trace ≡ some (f w.worker))
  unfolding advance
  upkeep s f plain ahead still = record {
    on_advance = λ e w h. h ∙ ap some (sym (ahead e w));
    on_worker = λ g d e w h. h ∙ ap some (sym (still g d w.worker));
    on_effect = λ x p e w h. replay-∷ s _ x w.trace h ∙ plain _ x p;
  }
