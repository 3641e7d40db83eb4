-- ===== src/Engine/Safety/Steady.antt =====
-- What the events between two exchanges with the worker or the disk leave alone, rust/src/engine.rs.
use dssp_bot.Prelude.{ℕ, zero, suc, String, Bool, false, not, ◌∷◌}
use dssp_bot.Engine.Effects.{
  Trace, Env, read_clock, drew_id, read_stop, read_pause, woke, backed_off, closed, now_ms, new_id,
  stop_requested, pause_requested, wait_changed,
}
use dssp_bot.Engine.Logic.{
  Ensures-pure, Ensures-blocked, Ensures-if, Ensures-exchange, Ensures-bind, Keeps, On,
}
use dssp_bot.Engine.Control.{wait_resumed}

-- What the events between two exchanges with the worker or the disk leave alone.
pub record IsSteady (J : Trace → Type 0) : Type 0 where
  pub at_clock : (t : Trace) (s : String) → J t → J (read_clock s ∷ t)
  pub at_id : (t : Trace) (s : String) → J t → J (drew_id s ∷ t)
  pub at_stop : (t : Trace) (b : Bool) → J t → J (read_stop b ∷ t)
  pub at_pause : (t : Trace) (b : Bool) → J t → J (read_pause b ∷ t)
  pub at_wake : (t : Trace) (b : Bool) → J t → J (woke b ∷ t)
  pub at_back_off : (t : Trace) (n : ℕ) → J t → J (backed_off n ∷ t)
  pub at_close : (t : Trace) → J t → J (closed ∷ t)

module _ {J : Trace → Type 0} (steady : IsSteady J) (env : Env) where
  pub now_ms-Keeps : Keeps (On J) (now_ms env)
  unfolding now_ms
  now_ms-Keeps = Ensures-exchange _ _ (λ w s h. steady.at_clock w.trace s h)

  pub new_id-Keeps : Keeps (On J) (new_id env)
  unfolding new_id
  new_id-Keeps = Ensures-exchange _ _ (λ w s h. steady.at_id w.trace s h)

  pub stop_requested_Keeps : Keeps (On J) (stop_requested env)
  unfolding stop_requested
  stop_requested_Keeps =
      Ensures-if env.controlled _ _
        (λ _. Ensures-exchange _ _ (λ w b h. steady.at_stop w.trace b h))
        (λ _. Ensures-pure false (λ w h. h))

  pub pause_requested_Keeps : Keeps (On J) (pause_requested env)
  unfolding pause_requested
  pause_requested_Keeps = Ensures-exchange _ _ (λ w b h. steady.at_pause w.trace b h)

  pub wait_changed-Keeps : Keeps (On J) (wait_changed env)
  unfolding wait_changed
  wait_changed-Keeps = Ensures-exchange _ _ (λ w b h. steady.at_wake w.trace b h)

  pub wait_resumed-Keeps : (n : ℕ) (requested : Bool) → Keeps (On J) (wait_resumed env n requested)
  unfolding wait_resumed
  wait_resumed-Keeps zero requested =
      Ensures-if requested _ _ (λ _. Ensures-blocked (λ w h. h)) (λ _. Ensures-pure tt (λ w h. h))
  wait_resumed-Keeps (suc n) requested =
      Ensures-if (not requested) _ _ (λ _. Ensures-pure tt (λ w h. h))
        (λ _. Ensures-bind _ _ stop_requested_Keeps (λ stop.
          Ensures-if stop _ _ (λ _. Ensures-pure tt (λ w h. h))
            (λ _. Ensures-bind _ _ wait_changed-Keeps (λ r. wait_resumed-Keeps n r))))
