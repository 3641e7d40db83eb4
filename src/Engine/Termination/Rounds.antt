-- ===== src/Engine/Termination/Rounds.antt =====
-- The loop of rust/src/engine.rs `run` ends: each round takes a trainee off the queue, or sees a stop
-- that the next boundary takes.
use dssp_bot.Prelude.{
  ℕ, zero, suc, ◌+◌, ◌≤◌, Bool, true, false, ◌≡◌, refl, none, some, List, [], ◌∷◌, arith, Result,
  ok, err, length, String,
}
use dssp_bot.Protocol.{TraineeRef, SessionInput}
use dssp_bot.Report.{TrainingResult}
use dssp_bot.Queue
use dssp_bot.Queue.{QueueTask, TaskQueue}
use dssp_bot.Checkpoint.{running}
use dssp_bot.Decision.{RetryPolicy}
use dssp_bot.State.{stopped}
use dssp_bot.Engine.Effects.{Env, Action}
use dssp_bot.Engine.Control.{Position}
use dssp_bot.Engine.Attempt.{operator_stop}
use dssp_bot.Engine.Loop.{
  should_abort, abort_reason, not_submitted, leave, settle_abort, submit_task, take_task,
  batch_loop,
}
use dssp_bot.Engine.Termination.{
  Within, Within-stop, Ends-pure, Ends-if, Ends-bind, Ends-weaken, Ends-absurd, Finishes,
  try_transition-Finishes,
}
use dssp_bot.Engine.Termination.Attempts.{process_trainee-Finishes}
use dssp_bot.Engine.Termination.Boundary.{
  Latches, Stopped, save_checkpoint-Finishes, stop_checkpoint-Finishes, control_boundary-Finishes,
  control_boundary_stops, stop_requested_latched,
}

module _ (env : Env) (latches : env.controlled ≡ true → Latches env) (policy : RetryPolicy)
    (session : SessionInput) (wakeups : ℕ) where
  pub leave-Finishes :
      (p : Position) (reason : String) → Finishes env (leave env policy session wakeups p reason)
  unfolding leave
  leave-Finishes p reason =
      Ends-bind _ _ (try_transition-Finishes env stopped) (λ _. Ends-pure _ (λ w h. tt))

  settle_abort-Finishes :
      (p : Position) (last : TrainingResult)
      → Finishes env (settle_abort env policy session wakeups p last)
  unfolding settle_abort
  settle_abort-Finishes p last =
      Within-stop env _ _
        (λ c.
          Ends-bind _ _ (stop_checkpoint-Finishes env p c) (λ _. leave-Finishes p operator_stop))
        (leave-Finishes p (abort_reason last))

  -- The rounds that are left behind a dequeue are enough for what is left in the queue.
  abbrev NextFinishes : ℕ → (Position → Action (Position × Bool)) → Type 0
  NextFinishes n next = (p : Position) → length p.queue.tasks ≡ n → Finishes env (next p)

  submit_task-Finishes :
      (next : Position → Action (Position × Bool)) (task : QueueTask TraineeRef) (p : Position)
      (r : Result (Unit {0}))
      → NextFinishes (length p.queue.tasks) next
      → Finishes env (submit_task env policy session wakeups next task p r)
  unfolding submit_task
  submit_task-Finishes next task p (err e) go = leave-Finishes _ not_submitted
  submit_task-Finishes next task p (ok u) go =
      Ends-bind _ _ (process_trainee-Finishes env policy session task.payload) (λ result.
        Ends-bind _ _ (save_checkpoint-Finishes env running _ none) (λ _.
          Ends-if (should_abort result) _ _ (λ _. settle_abort-Finishes _ result) (λ _. go _ refl)))

  take_task-Finishes :
      (next : Position → Action (Position × Bool)) (p : Position)
      (tasks : List (QueueTask TraineeRef))
      → Queue.is_empty (record { tasks = tasks }) ≡ false
      → ((n : ℕ) → length tasks ≡ n + 1 → NextFinishes n next)
      → Finishes env
          (take_task env policy session wakeups next p (Queue.dequeue (record { tasks = tasks })))
  unfolding take_task Queue.dequeue Queue.is_empty
  take_task-Finishes next p [] e go = ground arith
  take_task-Finishes next p (task ∷ tasks) e go =
      Ends-bind _ _ (save_checkpoint-Finishes env running _ (some task.id))
        (λ r. submit_task-Finishes next task _ r (go (length tasks) (omega arith)))

  -- Behind a stop, one round is enough.
  batch_loop_stops :
      (rounds : ℕ) (p : Position)
      → 1 ≤ rounds
      → Within env (Stopped env) (batch_loop env policy session wakeups rounds p) (λ _ w. Unit)
  unfolding batch_loop
  batch_loop_stops zero p h = Ends-absurd _ (λ w _. omega arith)
  batch_loop_stops (suc rounds) p h =
      Ends-if (Queue.is_empty p.queue) _ _ (λ _. Ends-pure _ (λ w h. tt))
        (λ _. Ends-bind _ _ (control_boundary_stops env wakeups p) (λ boundary.
          Ends-if boundary _ _ (λ _. Ends-weaken (leave-Finishes p operator_stop) (λ w h. tt))
            (λ e. Ends-absurd _ (λ w h. cc))))

  -- One round for each trainee, one for a stop that is read behind a boundary, and one for the boundary
  -- that takes it.
  pub batch_loop-Finishes :
      (rounds : ℕ) (p : Position)
      → length p.queue.tasks + 2 ≤ rounds
      → Finishes env (batch_loop env policy session wakeups rounds p)
  unfolding batch_loop
  batch_loop-Finishes zero p h = Ends-absurd _ (λ w _. omega arith)
  batch_loop-Finishes (suc rounds) p h =
      Ends-if (Queue.is_empty p.queue) _ _ (λ _. Ends-pure _ (λ w h. tt))
        (λ nonempty. Ends-bind _ _ (control_boundary-Finishes env wakeups p) (λ boundary.
          Ends-if boundary _ _ (λ _. leave-Finishes p operator_stop)
            (λ _. Ends-bind _ _ (stop_requested_latched env latches) (λ stop.
              Ends-if stop _ _
                (λ e. Ends-weaken (batch_loop_stops rounds p (omega arith)) (λ w read. read e))
                (λ _.
                  Ends-weaken
                    (take_task-Finishes _ p p.queue.tasks nonempty
                      (λ n left p' same. batch_loop-Finishes rounds p' (omega arith)))
                    (λ w _. tt))))))
