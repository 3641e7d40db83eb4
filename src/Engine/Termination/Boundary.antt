-- ===== src/Engine/Termination/Boundary.antt =====
-- The boundary of rust/src/engine.rs: it returns, unless a pause is never lifted; behind a stop that
-- stays asked for, it stops the batch.
use dssp_bot.Prelude.{
  ℕ, zero, suc, Bool, true, false, not, ◌≡◌, refl, Option, none, ◌∷◌, arith, String,
}
use dssp_bot.Checkpoint.{CheckpointStatus, running, paused}
use dssp_bot.State.{stopped, loading_trainee}
use dssp_bot.State
use dssp_bot.Engine.Effects.{
  Env, Event, Trace, World, stop_requested, pause_requested, wait_changed, write, now_ms,
}
use dssp_bot.Engine.Control.{
  Position, save_checkpoint, stop_checkpoint, stop_here, resume_here, pause_here, wait_resumed,
  control_boundary,
}
use dssp_bot.Engine.Termination.{
  Within, Within-stop, Ends-pure, Ends-blocked, Ends-if, Ends-exchange, Ends-bind, Ends-weaken,
  Ends-absurd, Finishes, require-Finishes, transition-Finishes,
}

-- A stop that was asked for stays asked for, whatever happens next.
abbrev pub Latches : Env → Type 0
Latches env =
    (e : Event) (t : Trace) → env.stop_requested t ≡ true → env.stop_requested (e ∷ t) ≡ true

module _ (env : Env) where
  pub now_ms-Finishes : Finishes env (now_ms env)
  unfolding now_ms
  now_ms-Finishes = Ends-exchange _ _ (λ w h. tt)

  pub save_checkpoint-Finishes :
      (status : CheckpointStatus) (p : Position) (in_flight : Option String)
      → Finishes env (save_checkpoint env status p in_flight)
  unfolding save_checkpoint write
  save_checkpoint-Finishes status p in_flight =
      Ends-bind _ _ now_ms-Finishes (λ at. Ends-exchange _ _ (λ w h. tt))

  pub stop_checkpoint-Finishes :
      (p : Position) → env.controlled ≡ true → Finishes env (stop_checkpoint env p)
  unfolding stop_checkpoint
  stop_checkpoint-Finishes p c =
      Ends-bind _ _ (save_checkpoint-Finishes _ p none) (λ r. require-Finishes env _ r c)

  stop_here-true :
      (p : Position)
      → env.controlled ≡ true
      → Within env (λ w. Unit) (stop_here env p) (λ b w. b ≡ true)
  unfolding stop_here
  stop_here-true p c =
      Ends-bind _ _ (stop_checkpoint-Finishes p c) (λ _. Ends-pure true (λ w h. refl))

  resume_here-Finishes : (p : Position) → env.controlled ≡ true → Finishes env (resume_here env p)
  unfolding resume_here
  resume_here-Finishes p c = Ends-bind _ _ (save_checkpoint-Finishes running p none) (λ r.
      Ends-bind _ _ (require-Finishes env _ r c) (λ _.
        Ends-bind _ _ (transition-Finishes env loading_trainee c)
          (λ _. Ends-pure false (λ w h. tt))))

  wait_changed-Finishes : Finishes env (wait_changed env)
  unfolding wait_changed
  wait_changed-Finishes = Ends-exchange _ _ (λ w h. tt)

  wait_resumed-Finishes :
      (wakeups : ℕ) (requested : Bool)
      → env.controlled ≡ true
      → Finishes env (wait_resumed env wakeups requested)
  unfolding wait_resumed
  wait_resumed-Finishes zero requested c =
      Ends-if requested _ _ (λ _. Ends-blocked c) (λ _. Ends-pure tt (λ w h. tt))
  wait_resumed-Finishes (suc wakeups) requested c =
      Ends-if (not requested) _ _ (λ _. Ends-pure tt (λ w h. tt))
        (λ _.
          Within-stop env _ _ (λ _. Ends-pure tt (λ w h. tt))
            (Ends-bind _ _ wait_changed-Finishes (λ again. wait_resumed-Finishes wakeups again c)))

  stopped_here-Finishes : (p : Position) → env.controlled ≡ true → Finishes env (stop_here env p)
  unfolding stop_here
  stopped_here-Finishes p c =
      Ends-bind _ _ (stop_checkpoint-Finishes p c) (λ _. Ends-pure true (λ w h. tt))

  pause_here-Finishes :
      (wakeups : ℕ) (p : Position) → env.controlled ≡ true → Finishes env (pause_here env wakeups p)
  unfolding pause_here
  pause_here-Finishes wakeups p c = Ends-bind _ _ (save_checkpoint-Finishes paused p none) (λ r.
      Ends-bind _ _ (require-Finishes env _ r c) (λ _.
        Ends-bind _ _ (transition-Finishes env State.paused c) (λ _.
          Ends-bind _ _ (wait_resumed-Finishes wakeups true c)
            (λ _. Within-stop env _ _ (stopped_here-Finishes p) (resume_here-Finishes p c)))))

  pause_requested-Finishes : Finishes env (pause_requested env)
  unfolding pause_requested
  pause_requested-Finishes = Ends-exchange _ _ (λ w h. tt)

  pub control_boundary-Finishes :
      (wakeups : ℕ) (p : Position) → Finishes env (control_boundary env wakeups p)
  unfolding control_boundary
  control_boundary-Finishes wakeups p =
      Ends-if (not env.controlled) _ _ (λ _. Ends-pure false (λ w h. tt))
        (λ c. Within-stop env _ _ (stopped_here-Finishes p) (
          Ends-bind _ _ pause_requested-Finishes (λ requested.
            Ends-if (not requested) _ _ (λ _. Ends-pure false (λ w h. tt))
              (λ _. pause_here-Finishes wakeups p (ground arith)))))

  -- An operator's stop as the last read found it.
  abbrev pub Stopped : World → Type 0
  Stopped w = (env.controlled ≡ true) × (env.stop_requested w.trace ≡ true)

  -- A stop that is read is in force.
  pub stop_requested_latched :
      (env.controlled ≡ true → Latches env)
      → Within env (λ _. Unit) (stop_requested env) (λ stop w. stop ≡ true → Stopped w)
  unfolding stop_requested
  stop_requested_latched latches =
      Ends-if env.controlled _ _ (λ c. Ends-exchange _ _ (λ w h e. (c, latches c _ w.trace e)))
        (λ _. Ends-pure false (λ w h e. cc))

  stop_requested-Stopped : Within env Stopped (stop_requested env) (λ stop w. stop ≡ true)
  unfolding stop_requested
  stop_requested-Stopped =
      Ends-if env.controlled _ _ (λ _. Ends-exchange _ _ (λ w h. h.1))
        (λ c. Ends-pure false (λ w h. cc))

  pub control_boundary_stops :
      (wakeups : ℕ) (p : Position)
      → Within env Stopped (control_boundary env wakeups p) (λ b w. b ≡ true)
  unfolding control_boundary
  control_boundary_stops wakeups p =
      Ends-if (not env.controlled) _ _ (λ c. Ends-absurd _ (λ w h. ground (arith, h.0)))
        (λ c. Ends-bind _ _ stop_requested-Stopped (λ stop.
          Ends-if stop _ _ (λ _. Ends-weaken (stop_here-true p (ground arith)) (λ w h. tt))
            (λ e. Ends-absurd _ (λ w h. cc))))
