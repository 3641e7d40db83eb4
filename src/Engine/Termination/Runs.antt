-- ===== src/Engine/Termination/Runs.antt =====
-- rust/src/engine.rs `run` ends.
use dssp_bot.Prelude.{
  ℕ, suc, ◌+◌, ◌≤◌, String, Bool, true, false, not, ◌&&◌, ◌≡◌, refl, ap, ◌⊎◌, inl, inr, none, List,
  arith, Result, ok, err, length, length-map,
}
use dssp_bot.Protocol.{TraineeRef, SessionInput, Response, Status}
use dssp_bot.Protocol.Request
use dssp_bot.Report.{TrainingResult, BatchReport}
use dssp_bot.Queue
use dssp_bot.Decision.{RetryPolicy}
use dssp_bot.State.{initializing, stopped, complete, state_eq}
use dssp_bot.Engine.Effects.{
  Env, Trace, World, Ending, done, failed, blocked, panicked, out_of_fuel, Action, stop_requested,
  closed, send, take_carried, reset_machine, machine_state,
}
use dssp_bot.Engine.Control.{Position}
use dssp_bot.Engine.Attempt.{operator_stop}
use dssp_bot.Engine.Roster.{dedupe}
use dssp_bot.Engine.Loop.{enqueue_all}
use dssp_bot.Engine.Run.{
  session_result, check_session, late_stop, complete_unless_stopped, terminal, finish, work, run,
}
use dssp_bot.Engine.Safety.Runs.{outcome, start}
use dssp_bot.Engine.Safety.Queued.{task_of, tasks-enqueue_all}
use dssp_bot.Engine.Termination.{
  EndsWell, Ends, Ends-allow, Within, Ends-pure, Ends-failed, Ends-if, Ends-exchange, Ends-bind,
  Ends-given, Anywhere, Finishes, require-Finishes, try_transition-Finishes, emit-Finishes,
}
use dssp_bot.Engine.Termination.Attempts.{new_id-Finishes}
use dssp_bot.Engine.Termination.Boundary.{
  Latches, now_ms-Finishes, save_checkpoint-Finishes, stop_checkpoint-Finishes,
}
use dssp_bot.Engine.Termination.Rounds.{leave-Finishes, batch_loop-Finishes}

module _ (env : Env) (latches : env.controlled ≡ true → Latches env) (policy : RetryPolicy)
    (session : SessionInput) (wakeups : ℕ) where
  stop_requested-controlled :
      Within env Anywhere (stop_requested env) (λ stop w. stop ≡ true → env.controlled ≡ true)
  unfolding stop_requested
  stop_requested-controlled =
      Ends-if env.controlled _ _ (λ c. Ends-exchange _ _ (λ w h e. c))
        (λ c. Ends-pure false (λ w h e. cc))

  late_stop-Finishes :
      (stop : Bool) (r : Position × Bool)
      → (stop ≡ true → env.controlled ≡ true)
      → Finishes env (late_stop env policy session wakeups stop r)
  unfolding late_stop
  late_stop-Finishes stop (p, was_aborted) under =
      Ends-if (stop && not was_aborted) _ _
        (λ e.
          Ends-bind _ _ (stop_checkpoint-Finishes env p (under (ground arith)))
            (λ _. leave-Finishes env latches policy session wakeups p operator_stop))
        (λ _. Ends-pure _ (λ w h. tt))

  complete-Finishes : Finishes env (complete_unless_stopped env policy session wakeups)
  unfolding complete_unless_stopped machine_state
  complete-Finishes =
      Ends-bind {R = λ _ _. Unit} _ _ (record { at = λ w h. tt })
        (λ state.
          Ends-if (state_eq state stopped) _ _ (λ _. Ends-pure tt (λ w h. tt))
            (λ _. try_transition-Finishes env complete))

  terminal-Finishes :
      (stop : Bool) (p : Position) (was_aborted : Bool)
      → (stop ≡ true → env.controlled ≡ true)
      → Finishes env (terminal env policy session wakeups stop p was_aborted)
  unfolding terminal
  terminal-Finishes stop p was_aborted under =
      Ends-bind _ _ (save_checkpoint-Finishes env _ p none) (λ r.
        Ends-bind _ _
          (Ends-if stop _ _ (λ e. require-Finishes env _ r (under e))
            (λ _. Ends-pure tt (λ w h. tt)))
          (λ _. Ends-bind _ _ (now_ms-Finishes env) (λ at. Ends-pure _ (λ w h. tt))))

  finish-Finishes :
      (loop_end : Position × Bool) → Finishes env (finish env policy session wakeups loop_end)
  unfolding finish
  finish-Finishes loop_end = Ends-bind _ _ stop_requested-controlled (λ stop.
      Ends-given (λ w under. under)
        (λ under. Ends-bind _ _ (late_stop-Finishes stop loop_end under) (λ closing.
          Ends-bind _ _
            (Ends-if env.controlled _ _ (λ _. emit-Finishes env closed)
              (λ _. Ends-pure tt (λ w h. tt)))
            (λ _.
              Ends-bind _ _ complete-Finishes
                (λ _. terminal-Finishes stop closing.0 closing.1 under)))))

-- A run, where a failure needs `F`: without control only its handshake can fail.
module _ (env : Env) (latches : env.controlled ≡ true → Latches env) (policy : RetryPolicy)
    (session : SessionInput) (wakeups : ℕ) (F : Type 0) (allowed : env.controlled ≡ true → F)
    (Passes : Result Response → Type 0)
    (answers : (t : Trace) (job_id : String) → Passes (env.send t (Request.ensure_session job_id)))
    (checks : (r : Result Response)
      → Passes r
      → Ends F (env.controlled ≡ true) Anywhere (check_session r) (λ _ w. Unit)) where
  allow :
      {A : Type 0} {m : Action A}
      → Finishes env m
      → Ends F (env.controlled ≡ true) Anywhere m (λ _ w. Unit)
  allow h = Ends-allow allowed h

  ensure_Ends :
      (job_id : String)
      → Ends F
          (env.controlled ≡ true)
          Anywhere
          (send env (Request.ensure_session job_id))
          (λ r w. Passes r)
  unfolding send
  ensure_Ends job_id = Ends-exchange _ _ (λ w h. answers w.trace job_id)

  rounds_enough :
      (queued : List (String × TraineeRef))
      → length (enqueue_all queued Queue.new).tasks + 2 ≤ suc (suc (length queued))
  rounds_enough queued =
      omega (arith, ap length (tasks-enqueue_all queued Queue.new), length-map task_of queued)

  work_Ends :
      (queued : List (String × TraineeRef)) (started_at : String) (results : List TrainingResult)
      → Ends F
          (env.controlled ≡ true)
          Anywhere
          (work env policy session wakeups queued started_at results)
          (λ _ w. Unit)
  unfolding work reset_machine
  work_Ends queued started_at results =
      Ends-bind {R = λ _ _. Unit} _ _ (record { at = λ w h. tt })
        (λ _. Ends-bind _ _ (allow (try_transition-Finishes env initializing)) (λ _.
          Ends-bind _ _ (allow (new_id-Finishes env)) (λ job_id.
            Ends-bind _ _ (ensure_Ends job_id) (λ ensured.
              Ends-given (λ w p. p)
                (λ passes. Ends-bind _ _ (checks ensured passes) (λ _.
                  Ends-bind _ _
                    (allow (
                      batch_loop-Finishes env latches policy session wakeups _ _
                        (rounds_enough queued)))
                    (λ loop_end.
                      allow (finish-Finishes env latches policy session wakeups loop_end))))))))

  run_Ends :
      (trainees : List TraineeRef)
      → Ends F
          (env.controlled ≡ true)
          Anywhere
          (run env policy session wakeups trainees)
          (λ _ w. Unit)
  unfolding run take_carried
  run_Ends trainees = Ends-bind _ _ (allow (now_ms-Finishes env)) (λ started_at.
      Ends-bind {R = λ _ _. Unit} _ _ (record { at = λ w h. tt })
        (λ results. work_Ends (dedupe trainees) started_at results))

session_result_Ends :
    (B : Type 0) (status : Status) (resp : Response)
    → Ends Unit B Anywhere (session_result status resp) (λ _ w. Unit)
unfolding session_result
session_result_Ends B Status.ok resp = Ends-pure tt (λ w h. tt)
session_result_Ends B Status.error resp = Ends-failed _ tt
session_result_Ends B Status.ready resp = Ends-failed _ tt

check_session_Ends :
    (B : Type 0) (r : Result Response) → Ends Unit B Anywhere (check_session r) (λ _ w. Unit)
unfolding check_session
check_session_Ends B (err e) = Ends-failed e tt
check_session_Ends B (ok resp) = session_result_Ends B resp.status resp

-- A reply that establishes the session.
abbrev pub IsEstablished : Result Response → Type 0
IsEstablished (err e) = ⊥
IsEstablished (ok resp) = resp.status ≡ Status.ok

established_Ends :
    (B : Type 0) (r : Result Response)
    → IsEstablished r
    → Ends B B Anywhere (check_session r) (λ _ w. Unit)
unfolding check_session session_result
established_Ends B (err e) h = elim h [ ]
established_Ends B (ok resp) h = rw h (Ends-pure tt (λ w h. tt))

-- How a run may end.
abbrev pub EndsAs : Env → Ending BatchReport → Type 0
EndsAs env r =
    ((report : BatchReport) × (r ≡ done report))
    ⊎ ((e : String) × (r ≡ failed e))
    ⊎ ((env.controlled ≡ true) × (r ≡ blocked))

EndsAs-EndsWell :
    (env : Env) (r : Ending BatchReport) (w : World)
    → EndsWell Unit (env.controlled ≡ true) (λ _ w. Unit) r w
    → EndsAs env r
EndsAs-EndsWell env (done report) w h = inl (report, refl)
EndsAs-EndsWell env (failed e) w h = inr (inl (e, refl))
EndsAs-EndsWell env blocked w h = inr (inr (h, refl))
EndsAs-EndsWell env panicked w h = elim h [ ]
EndsAs-EndsWell env out_of_fuel w h = elim h [ ]

done-EndsWell :
    (B : Type 0) (r : Ending BatchReport) (w : World)
    → ¬ B
    → EndsWell B B (λ _ w. Unit) r w
    → (report : BatchReport) × (r ≡ done report)
done-EndsWell B (done report) w n h = (report, refl)
done-EndsWell B (failed e) w n h = elim (n h) [ ]
done-EndsWell B blocked w n h = elim (n h) [ ]
done-EndsWell B panicked w n h = elim h [ ]
done-EndsWell B out_of_fuel w n h = elim h [ ]

module _ (env : Env) (policy : RetryPolicy) (session : SessionInput) (wakeups : ℕ)
    (trainees : List TraineeRef) (carried : List TrainingResult) where
  -- Where a stop that was asked for stays asked for, a run never panics and never runs out of the
  -- rounds that its loops are given: it returns a report or an error, or is still paused by an
  -- operator.
  pub run-EndsAs : Latches env → EndsAs env (outcome env policy session wakeups trainees carried).0
  run-EndsAs latches = EndsAs-EndsWell env _ _ (
      (run_Ends env (λ _. latches) policy session wakeups Unit (λ _. tt) (λ _. Unit)
          (λ t job_id. tt) (λ r _. check_session_Ends _ r) trainees).at
        (start carried) tt)

  -- Without an operator's control, a run whose session the worker establishes returns a report,
  -- whatever the worker replies to the submissions and whichever writes fail.
  pub run-returns :
      env.controlled ≡ false
      → ((t : Trace) (job_id : String) → IsEstablished (env.send t (Request.ensure_session job_id)))
      → (report : BatchReport) × ((outcome env policy session wakeups trainees carried).0
          ≡ done report)
  run-returns alone establishes =
      done-EndsWell (env.controlled ≡ true) _ _ (λ c. cc)
        ((run_Ends env (λ c. cc) policy session wakeups (env.controlled ≡ true) (λ c. c)
            IsEstablished establishes (λ r h. established_Ends _ r h) trainees).at
          (start carried) tt)
