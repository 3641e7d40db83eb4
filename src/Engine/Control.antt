-- ===== src/Engine/Control.antt =====
-- rust/src/engine.rs: checkpoint writes, and the boundary between two trainees at which an operator's
-- pause and stop take effect.
use dssp_bot.Prelude.{
  ℕ, zero, suc, String, Bool, true, false, not, Option, none, List, Result, if◌then◌else◌,
}
use dssp_bot.Protocol.{TraineeRef}
use dssp_bot.Report.{TrainingResult}
use dssp_bot.Queue
use dssp_bot.Queue.{TaskQueue}
use dssp_bot.Checkpoint.{CheckpointStatus, running, paused, aborted, BatchCheckpoint}
use dssp_bot.State.{loading_trainee}
use dssp_bot.State
use dssp_bot.Engine.Effects.{
  Env, Action, pure, end, blocked, ◌>>=◌, ◌>>◌, require, transition, write, now_ms, stop_requested,
  pause_requested, wait_changed,
}

-- What a checkpoint write takes from the batch, but for its status and the trainee in flight.
pub record Position : Type 0 where
  pub started_at : String
  pub total : ℕ
  pub results : List TrainingResult
  pub queue : TaskQueue TraineeRef

abbrev pub snapshot : CheckpointStatus → Position → Option String → String → BatchCheckpoint
snapshot status p in_flight updated_at = record {
  status = status;
  started_at = p.started_at;
  updated_at = updated_at;
  total = p.total;
  results = p.results;
  pending = Queue.ids p.queue;
  in_flight = in_flight;
}

module _ (env : Env) where
  unfoldable pub save_checkpoint :
      CheckpointStatus → Position → Option String → Action (Result (Unit {0}))
  save_checkpoint status p in_flight = do
    updated_at ← now_ms env
    write env (snapshot status p in_flight updated_at)

  unfoldable pub stop_checkpoint : Position → Action (Unit {0})
  stop_checkpoint p = do saved ← save_checkpoint aborted p none; require "stop checkpoint" saved

  -- The `while` around the condition variable, `requested` being the flag as last read. After as
  -- many wakeups as the fuel the engine is still blocked.
  unfoldable pub wait_resumed : ℕ → Bool → Action (Unit {0})
  wait_resumed zero requested = if requested then end blocked else pure tt
  wait_resumed (suc wakeups) requested = if not requested then pure tt else do
    stopped ← stop_requested env
    if stopped then pure tt else do requested' ← wait_changed env; wait_resumed wakeups requested'

  unfoldable pub stop_here : Position → Action Bool
  stop_here p = do stop_checkpoint p; pure true

  unfoldable pub resume_here : Position → Action Bool
  resume_here p = do
    saved ← save_checkpoint running p none
    require "resume checkpoint" saved
    transition loading_trainee
    pure false

  unfoldable pub pause_here : ℕ → Position → Action Bool
  pause_here wakeups p = do
    saved ← save_checkpoint paused p none
    require "pause checkpoint" saved
    transition State.paused
    wait_resumed wakeups true
    stopped ← stop_requested env
    if stopped then stop_here p else resume_here p

  -- Whether the batch stops here.
  unfoldable pub control_boundary : ℕ → Position → Action Bool
  control_boundary wakeups p = if not env.controlled then pure false else do
    stopped ← stop_requested env
    if stopped then stop_here p else do
      requested ← pause_requested env
      if not requested then pure false else pause_here wakeups p
