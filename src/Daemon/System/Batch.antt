-- ===== src/Daemon/System/Batch.antt =====
-- rust/src/daemon.rs and rust/src/engine.rs: a batch whose flags the bridge's threads set.
use dssp_bot.Prelude.{
  ℕ, ◌<◌, Bool, true, false, Option, none, some, List, ◌∷◌, ◌≡◌, refl, sym, ◌∙◌, ◌&&◌,
}
use dssp_bot.Protocol.{TraineeRef, SessionInput}
use dssp_bot.Report.{TrainingResult}
use dssp_bot.Decision.{RetryPolicy}
use dssp_bot.Engine.Effects.{Env, Event, Trace}
use dssp_bot.Engine.Safety.Runs.{outcome}
use dssp_bot.Engine.Termination.Boundary.{Latches}
use dssp_bot.Engine.Termination.Runs.{EndsAs, run-EndsAs}
use dssp_bot.Daemon.{BatchControl}
use dssp_bot.Daemon.Control.{is_pause, requested}
use dssp_bot.Daemon.System.{System, Reach}
use dssp_bot.Daemon.System.Kept.{Reach-Kept}

-- The engine's batch holds the controller `id`, and its reads of the stop flag see the bridge as it
-- stands at that moment: `during t` behind the events `t`. Between two events the other threads may
-- make any steps.
pub record Serves (env : Env) (id : ℕ) (during : Trace → System) : Type 0 where
  pub held : (t : Trace) → id < (during t).shared.allocated
  pub steps : (e : Event) (t : Trace) → Reach (during t) (during (e ∷ t))
  pub sees : (t : Trace) → env.stop_requested t ≡ ((during t).shared.controls id).stop_requested

abbrev IsAsked : BatchControl → Type 0
IsAsked c = c.stop_requested ≡ true

requested-IsAsked :
    (pause : Option Bool) (c : BatchControl)
    → (is_pause pause && c.stop_requested) ≡ false
    → IsAsked c
    → IsAsked (requested pause c)
unfolding requested
requested-IsAsked (some pause) c unstopped h = h
requested-IsAsked none c unstopped h = refl

Serves-Latches : (env : Env) (id : ℕ) (during : Trace → System) → Serves env id during → Latches env
Serves-Latches env id during s e t asked =
    let (below, kept) =
      Reach-Kept IsAsked (λ c h. h) requested-IsAsked id (during t) (during (e ∷ t)) (s.steps e t)
        (s.held t, sym (s.sees t) ∙ asked) in
    s.sees (e ∷ t) ∙ kept

-- A batch that the bridge runs, while its other threads make any steps in any order, never panics and
-- never runs out of the rounds that its loops are given: it returns a report or an error, or is still
-- paused by an operator.
pub bridge_run-EndsAs :
    (env : Env) (policy : RetryPolicy) (session : SessionInput) (wakeups : ℕ)
    → (trainees : List TraineeRef) (carried : List TrainingResult)
    → (id : ℕ) (during : Trace → System) → Serves env id during
    → EndsAs env (outcome env policy session wakeups trainees carried).0
bridge_run-EndsAs env policy session wakeups trainees carried id during s =
    run-EndsAs env policy session wakeups trainees carried (Serves-Latches env id during s)
