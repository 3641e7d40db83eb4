-- ===== src/Engine/Loop.antt =====
-- rust/src/engine.rs, the loop of `run`: the queue is worked through, or drained on an early exit.
use dssp_bot.Prelude.{
  ℕ, zero, suc, String, Bool, true, false, ◌||◌, Option, none, some, List, [], ◌∷◌, ◌++◌, Result,
  ok, err, unwrap_or, str_eq, format, if◌then◌else◌,
}
use dssp_bot.Protocol.{TraineeRef, SessionInput}
use dssp_bot.Report.{Outcome, TrainingResult, outcome_eq}
use dssp_bot.Queue
use dssp_bot.Queue.{QueueTask, TaskQueue}
use dssp_bot.Checkpoint.{running}
use dssp_bot.Decision.{RetryPolicy}
use dssp_bot.State.{stopped}
use dssp_bot.Engine.Effects.{
  Env, Action, pure, end, panicked, out_of_fuel, ◌>>=◌, ◌>>◌, try_transition, stop_requested,
}
use dssp_bot.Engine.Control.{Position, save_checkpoint, stop_checkpoint, control_boundary}
use dssp_bot.Engine.Attempt.{operator_stop, skipped_result, process_trainee}

abbrev code_in_abort : Option String → Bool
code_in_abort (some code) = str_eq code "SESSION_EXPIRED" || str_eq code "PORTAL_STRUCTURE_CHANGED"
code_in_abort none = false

unfoldable pub should_abort : TrainingResult → Bool
should_abort r = outcome_eq r.outcome Outcome.indeterminate || code_in_abort r.error_code

unfoldable pub abort_reason : TrainingResult → String
abort_reason r =
    if outcome_eq r.outcome Outcome.indeterminate
    then format (
        "batch aborted: "
        ∷ (if str_eq r.trainee_name "" then r.trainee_id else r.trainee_name)
        ∷ " was submitted but could not be confirmed — verify on the portal before re-running"
        ∷ [])
    else format ("batch aborted: " ∷ unwrap_or r.error_code "unrecoverable error" ∷ [])

abbrev pub not_submitted : String
not_submitted = "not submitted: the run stopped before reaching it"

-- Dequeues until the queue is empty, and appends a skipped row for each task.
unfoldable pub drain_tasks :
    List (QueueTask TraineeRef) → List TrainingResult → String → List TrainingResult
drain_tasks [] results reason = results
drain_tasks (task ∷ tasks) results reason =
    drain_tasks tasks (results ++ (skipped_result task.payload reason ∷ [])) reason

unfoldable pub drain_skipped : Position → String → Position
unfolding drain_tasks
drain_skipped p reason = record p {
  results = drain_tasks p.queue.tasks p.results reason;
  queue = Queue.clear p.queue;
}

-- Queues the roster, in order.
unfoldable pub enqueue_all :
    List (String × TraineeRef) → TaskQueue TraineeRef → TaskQueue TraineeRef
enqueue_all [] q = q
enqueue_all ((key, trainee) ∷ rest) q = enqueue_all rest (Queue.enqueue q key trainee)

module _ (env : Env) (policy : RetryPolicy) (session : SessionInput) (wakeups : ℕ) where
  -- Both early exits of the loop: drain, and stop the machine. The flag is `aborted`.
  unfoldable pub leave : Position → String → Action (Position × Bool)
  leave p reason = do try_transition stopped; pure (drain_skipped p reason, true)

  -- The reason of an abort; a stop asked for meanwhile is written first.
  unfoldable pub settle_abort : Position → TrainingResult → Action (Position × Bool)
  settle_abort p last = do
    stop ← stop_requested env
    if stop then (do stop_checkpoint env p; leave p operator_stop) else leave p (abort_reason last)

  -- A dequeued task, from the write that names it to the write that records its result; `next` is
  -- the next round of the loop. `p` is the position behind the dequeue.
  unfoldable pub submit_task :
      (Position → Action (Position × Bool))
      → QueueTask TraineeRef
      → Position
      → Result (Unit {0})
      → Action (Position × Bool)
  submit_task next task p (err e) =
      leave (record p { queue = Queue.put_back p.queue task }) not_submitted
  submit_task next task p (ok _) = do
    result ← process_trainee env policy session task.payload
    let p' = record p { results = p.results ++ (result ∷ []) }
    save_checkpoint env running p' none
    if should_abort result then settle_abort p' result else next p'

  unfoldable pub take_task :
      (Position → Action (Position × Bool))
      → Position
      → Option (QueueTask TraineeRef) × TaskQueue TraineeRef
      → Action (Position × Bool)
  take_task next p (none, q) = end panicked
  take_task next p (some task, q) = do
    let p' = record p { queue = q }
    saved ← save_checkpoint env running p' (some task.id)
    submit_task next task p' saved

  -- The loop. The fuel is the number of rounds.
  unfoldable pub batch_loop : ℕ → Position → Action (Position × Bool)
  batch_loop zero p = if Queue.is_empty p.queue then pure (p, false) else end out_of_fuel
  batch_loop (suc rounds) p = if Queue.is_empty p.queue then pure (p, false) else do
    boundary ← control_boundary env wakeups p
    if boundary then leave p operator_stop else do
      stop ← stop_requested env
      if stop then batch_loop rounds p else take_task (batch_loop rounds) p (Queue.dequeue p.queue)
