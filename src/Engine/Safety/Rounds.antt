-- ===== src/Engine/Safety/Rounds.antt =====
-- The loop over the queue, rust/src/engine.rs `run`: each round takes a trainee from the queue, opens its
-- window by a checkpoint that is on disk, and closes it by the next one.
use dssp_bot.Prelude.{
  ℕ, zero, suc, ◌+◌, String, Bool, true, ◌≡◌, refl, none, some, List, [], ◌∷◌, ◌++◌, arith, ap, ◌∙◌,
  Result, ok, err, length, length-append, All,
}
use dssp_bot.Protocol.{TraineeRef, SessionInput}
use dssp_bot.Report.{TrainingResult}
use dssp_bot.Queue
use dssp_bot.Queue.{QueueTask, TaskQueue}
use dssp_bot.Checkpoint.{running}
use dssp_bot.Decision.{RetryPolicy}
use dssp_bot.State.{stopped}
use dssp_bot.Engine.Effects.{Env, Action, Trace}
use dssp_bot.Engine.Logic.{
  Ensures, Ensures-pure, Ensures-out_of_fuel, Ensures-panicked, Ensures-if, Ensures-bind,
  Ensures-weaken, On, try_transition-Keeps,
}
use dssp_bot.Engine.Roster.{queue_key}
use dssp_bot.Engine.Control.{Position}
use dssp_bot.Engine.Attempt.{skipped_result, operator_stop}
use dssp_bot.Engine.Loop.{
  drain_tasks, drain_skipped, should_abort, abort_reason, not_submitted, leave, settle_abort,
  submit_task, take_task, batch_loop,
}
use dssp_bot.Engine.Safety.{Size, Sound}
use dssp_bot.Engine.Safety.Boundary.{
  Sound-steady, MaySend, Fits, Saved, save_checkpoint_Ensures, save_checkpoint-Keeps,
  stop_checkpoint-Keeps, control_boundary-Keeps,
}
use dssp_bot.Engine.Safety.Steady.{stop_requested_Keeps}
use dssp_bot.Engine.Safety.Attempts.{process_trainee_Ensures}

-- A task is queued under its trainee's key.
abbrev pub IsKeyed : QueueTask TraineeRef → Type 0
IsKeyed task = (i : ℕ) × (task.id ≡ queue_key task.payload i)

abbrev pub AllKeyed : Position → Type 0
AllKeyed p = All IsKeyed p.queue.tasks

-- A drain turns each queued task into one row.
pub length-drain_tasks :
    (tasks : List (QueueTask TraineeRef)) (rs : List TrainingResult) (reason : String)
    → length (drain_tasks tasks rs reason) ≡ length rs + length tasks
unfolding drain_tasks
length-drain_tasks [] rs reason = omega arith
length-drain_tasks (task ∷ tasks) rs reason = omega (
  arith,
  length-append rs (skipped_result task.payload reason ∷ []),
  length-drain_tasks tasks (rs ++ (skipped_result task.payload reason ∷ [])) reason,
)

-- How the loop ends: every trainee has its row, and the queue is empty.
pub record Ended (total : Size) (p : Position) : Type 0 where
  pub fits : Fits total p none
  pub drained : p.queue.tasks ≡ []

drain_skipped-Ended :
    (total : Size) (p : Position) (reason : String)
    → Fits total p none
    → Ended total (drain_skipped p reason)
unfolding drain_skipped
drain_skipped-Ended total p reason fits = record {
  fits = record {
    same_total = fits.same_total;
    all_placed = omega (arith, fits, length-drain_tasks p.queue.tasks p.results reason);
  };
  drained = refl;
}

put_back-Fits :
    (total : Size) (p : Position) (task : QueueTask TraineeRef)
    → Fits total p (some task.id)
    → Fits total (record p { queue = Queue.put_back p.queue task }) none
unfolding Queue.put_back
put_back-Fits total p task fits = record {
  same_total = fits.same_total;
  all_placed = omega (arith, fits);
}

settled-Fits :
    (total : Size) (p : Position) (key : String) (result : TrainingResult)
    → Fits total p (some key)
    → Fits total (record p { results = p.results ++ (result ∷ []) }) none
settled-Fits total p key result fits = record {
  same_total = fits.same_total;
  all_placed = omega (arith, fits, length-append p.results (result ∷ []));
}

dequeued-Fits :
    (total : Size) (p : Position) (task : QueueTask TraineeRef)
    (tasks : List (QueueTask TraineeRef))
    → p.queue.tasks ≡ task ∷ tasks
    → Fits total p none
    → Fits total (record p { queue = record { tasks = tasks } }) (some task.id)
dequeued-Fits total p task tasks e fits = record {
  same_total = fits.same_total;
  all_placed = omega (arith, fits, ap length e);
}

window_opens :
    (total : Size) (p : Position) (key : String) (trainee : TraineeRef) (i : ℕ) (t : Trace)
    → key ≡ queue_key trainee i
    → Saved total running p (some key) (ok tt) t
    → MaySend total (queue_key trainee i) t
window_opens total p key trainee i t e h = record {
  sound = h.sound;
  in_window = h.on_disk refl ∙ ap some e;
  not_open = rw h.no_reply tt;
}

module _ (total : Size) (env : Env) (policy : RetryPolicy) (session : SessionInput)
    (wakeups : ℕ) where
  abbrev pub Leaves : Action (Position × Bool) → Type 0
  Leaves m =
      Ensures (On (Sound total)) m (λ r w. Ended total r.0 × Sound total w.trace) (On (Sound total))

  pub leave_Ensures :
      (p : Position) (reason : String)
      → Fits total p none
      → Leaves (leave env policy session wakeups p reason)
  unfolding leave
  leave_Ensures p reason fits =
      Ensures-bind _ _ (try_transition-Keeps (Sound total) stopped)
        (λ _. Ensures-pure _ (λ w h. (drain_skipped-Ended total p reason fits, h)))

  settle_abort_Ensures :
      (p : Position) (last : TrainingResult)
      → Fits total p none
      → Leaves (settle_abort env policy session wakeups p last)
  unfolding settle_abort
  settle_abort_Ensures p last fits =
      Ensures-bind _ _ (stop_requested_Keeps (Sound-steady total) env) (λ stop.
        Ensures-if stop _ _
          (λ _.
            Ensures-bind _ _ (stop_checkpoint-Keeps total env p fits)
              (λ _. leave_Ensures p operator_stop fits))
          (λ _. leave_Ensures p (abort_reason last) fits))

  abbrev Next : (Position → Action (Position × Bool)) → Type 0
  Next next = (p : Position) → Fits total p none → AllKeyed p → Leaves (next p)

  -- `p` is the position behind the dequeue, whose checkpoint names the task as in flight.
  submit_task_Ensures :
      (next : Position → Action (Position × Bool)) (task : QueueTask TraineeRef) (p : Position)
      (r : Result (Unit {0}))
      → Next next
      → IsKeyed task
      → AllKeyed p
      → Fits total p (some task.id)
      → Ensures
          (λ w. Saved total running p (some task.id) r w.trace)
          (submit_task env policy session wakeups next task p r)
          (λ r w. Ended total r.0 × Sound total w.trace)
          (On (Sound total))
  unfolding submit_task
  submit_task_Ensures next task p (err e) go key keys fits =
      Ensures-weaken (leave_Ensures _ not_submitted (put_back-Fits total p task fits))
        (λ w h. h.sound) (λ _ w h. h)
  submit_task_Ensures next task p (ok u) go key keys fits =
      Ensures-bind _ _
        (Ensures-weaken (process_trainee_Ensures total env policy session task.payload key.0)
          (λ w h. window_opens total p task.id task.payload key.0 w.trace key.1 h) (λ _ w h. h))
        (λ result.
          Ensures-bind _ _
            (save_checkpoint-Keeps total env running _ none
              (settled-Fits total p task.id result fits))
            (λ _.
              Ensures-if (should_abort result) _ _
                (λ _. settle_abort_Ensures _ result (settled-Fits total p task.id result fits))
                (λ _. go _ (settled-Fits total p task.id result fits) keys)))

  take_task_Ensures :
      (next : Position → Action (Position × Bool)) (p : Position)
      (tasks : List (QueueTask TraineeRef))
      → Next next
      → p.queue.tasks ≡ tasks
      → All IsKeyed tasks
      → Fits total p none
      → Leaves
          (take_task env policy session wakeups next p (Queue.dequeue (record { tasks = tasks })))
  unfolding take_task Queue.dequeue
  take_task_Ensures next p [] go e keys fits = Ensures-panicked (λ w h. h)
  take_task_Ensures next p (task ∷ tasks) go e keys fits =
      let fits' = dequeued-Fits total p task tasks e fits in
      Ensures-bind _ _ (save_checkpoint_Ensures total env running _ (some task.id) fits')
        (λ r. submit_task_Ensures next task _ r go keys.0 keys.1 fits')

  -- The queue is empty only where its list of tasks is.
  is_empty-Ended :
      (p : Position) → Queue.is_empty p.queue ≡ true → Fits total p none → Ended total p
  unfolding Queue.is_empty
  is_empty-Ended p e fits = record { fits = fits; drained = ground arith }

  -- Whatever the outside does, the loop keeps the trace sound, and ends with one row a trainee.
  pub batch_loop_Ensures :
      (rounds : ℕ) (p : Position)
      → Fits total p none
      → AllKeyed p
      → Leaves (batch_loop env policy session wakeups rounds p)
  unfolding batch_loop
  batch_loop_Ensures zero p fits keys =
      Ensures-if (Queue.is_empty p.queue) _ _
        (λ e. Ensures-pure _ (λ w h. (is_empty-Ended p e fits, h)))
        (λ _. Ensures-out_of_fuel (λ w h. h))
  batch_loop_Ensures (suc rounds) p fits keys =
      Ensures-if (Queue.is_empty p.queue) _ _
        (λ e. Ensures-pure _ (λ w h. (is_empty-Ended p e fits, h)))
        (λ _. Ensures-bind _ _ (control_boundary-Keeps total env wakeups p fits) (λ boundary.
          Ensures-if boundary _ _ (λ _. leave_Ensures p operator_stop fits)
            (λ _. Ensures-bind _ _ (stop_requested_Keeps (Sound-steady total) env) (λ stop.
              Ensures-if stop _ _ (λ _. batch_loop_Ensures rounds p fits keys)
                (λ _.
                  take_task_Ensures _ p p.queue.tasks (batch_loop_Ensures rounds) refl keys
                    fits)))))
