-- ===== src/Engine/Run.antt =====
-- rust/src/engine.rs, `run`: one session, one training template, many trainees.
use dssp_bot.Prelude.{
  String, ℕ, suc, ◌+◌, Bool, true, false, not, ◌&&◌, none, List, Result, ok, err, length, format,
  [], ◌∷◌, if◌then◌else◌,
}
use dssp_bot.Protocol.{TraineeRef, SessionInput, Response, Status, summary}
use dssp_bot.Protocol.Request
use dssp_bot.Report.{TrainingResult, BatchReport, build}
use dssp_bot.Queue
use dssp_bot.Checkpoint.{CheckpointStatus, finished, aborted}
use dssp_bot.Decision.{RetryPolicy}
use dssp_bot.State.{initializing, stopped, complete, state_eq}
use dssp_bot.Engine.Effects.{
  Env, Action, pure, end, failed, closed, ◌>>=◌, ◌>>◌, require, emit, try_transition, reset_machine,
  machine_state, take_carried, send, new_id, now_ms, stop_requested,
}
use dssp_bot.Engine.Roster.{dedupe}
use dssp_bot.Engine.Control.{Position, save_checkpoint, stop_checkpoint}
use dssp_bot.Engine.Attempt.{operator_stop}
use dssp_bot.Engine.Loop.{enqueue_all, leave, batch_loop}

unfoldable pub session_result : Status → Response → Action (Unit {0})
session_result Status.ok resp = pure tt
session_result _ resp = end (failed (format ("session not established: " ∷ summary resp ∷ [])))

-- The `?` on the exchange, and the test on its status.
unfoldable pub check_session : Result Response → Action (Unit {0})
check_session (err e) = end (failed e)
check_session (ok resp) = session_result resp.status resp

abbrev pub terminal_status : Bool → CheckpointStatus
terminal_status true = aborted
terminal_status false = finished

module _ (env : Env) (policy : RetryPolicy) (session : SessionInput) (wakeups : ℕ) where
  -- A stop that no earlier exit saw takes effect here, also behind the last trainee.
  unfoldable pub late_stop : Bool → Position × Bool → Action (Position × Bool)
  late_stop stop (p, was_aborted) =
      if stop && not was_aborted
      then (do stop_checkpoint env p; leave env policy session wakeups p operator_stop)
      else pure (p, was_aborted)

  unfoldable pub complete_unless_stopped : Action (Unit {0})
  complete_unless_stopped = do
    state ← machine_state
    if state_eq state stopped then pure tt else try_transition complete

  -- The terminal write, whose failure is fatal only to a stop, and the report.
  unfoldable pub terminal : Bool → Position → Bool → Action BatchReport
  terminal stop p was_aborted = do
    saved ← save_checkpoint env (terminal_status was_aborted) p none
    if stop then require "stop terminal checkpoint" saved else pure tt
    finished_at ← now_ms env
    pure (build p.results p.started_at finished_at was_aborted)

  unfoldable pub finish : Position × Bool → Action BatchReport
  finish loop_end = do
    stop ← stop_requested env
    closing ← late_stop stop loop_end
    if env.controlled then emit closed else pure tt
    complete_unless_stopped
    terminal stop closing.0 closing.1

  -- The run behind its deduplicated roster: the handshake, the loop, the report. The loop is given
  -- two rounds more than there are trainees: one for each, one for a stop that is seen between the
  -- boundary and the dequeue, and one for the boundary that then takes that stop.
  unfoldable pub work :
      List (String × TraineeRef) → String → List TrainingResult → Action BatchReport
  work queued started_at results = do
    let total = length queued + length results
    reset_machine
    try_transition initializing
    job_id ← new_id env
    ensured ← send env (Request.ensure_session job_id)
    check_session ensured
    let queue = enqueue_all queued Queue.new
    loop_end ←
        batch_loop env policy session wakeups (suc (suc (length queued)))
          (record { started_at = started_at; total = total; results = results; queue = queue })
    finish loop_end

  unfoldable pub run : List TraineeRef → Action BatchReport
  run trainees = do
    started_at ← now_ms env
    results ← take_carried
    work (dedupe trainees) started_at results
