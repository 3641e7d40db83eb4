-- ===== src/Engine/Safety/Runs.antt =====
-- The whole run, rust/src/engine.rs `run`, from an empty trace and with any outside.
use mathlib.Core.Path.{subst}
use dssp_bot.Prelude.{ℕ, Bool, true, String, ◌≡◌, refl, List, [], Result, ok, err}
use dssp_bot.Protocol.{TraineeRef, SessionInput, Response, Status}
use dssp_bot.Protocol.Request
use dssp_bot.Report.{TrainingResult, BatchReport}
use dssp_bot.Decision.{RetryPolicy}
use dssp_bot.State
use dssp_bot.State.{initializing, stopped, complete, state_eq, StateMachine}
use dssp_bot.Engine.Effects.{
  Ending, done, blocked, panicked, out_of_fuel, Env, World, now_ms, send, take_carried,
  reset_machine,
}
use dssp_bot.Engine.Logic.{
  Ensures, Ensures-pure, Ensures-failed, Ensures-bind, Ensures-exchange, Ensures-given, Keeps, On,
  Post, try_transition-Keeps,
}
use dssp_bot.Engine.Roster.{dedupe}
use dssp_bot.Engine.Run.{check_session, session_result, work, run}
use dssp_bot.Engine.Safety.{
  Size, count_if, Sound, AllEvents, AllEvents-map, WriteAhead, SafeRepeat, Balanced,
}
use dssp_bot.Engine.Safety.Boundary.{Sound-steady}
use dssp_bot.Engine.Safety.Steady.{new_id-Keeps}
use dssp_bot.Engine.Safety.Closing.{IsClosed, Reported, finish_Ensures}
use dssp_bot.Engine.Safety.Rounds.{batch_loop_Ensures}
use dssp_bot.Engine.Safety.Queued.{
  batch_size, size_of, first_position-Fits, first_position-AllKeyed,
}

module _ (total : Size) (env : Env) (policy : RetryPolicy) (session : SessionInput)
    (wakeups : ℕ) where
  ensure_Ensures :
      (job_id : String) → Keeps (On (Sound total)) (send env (Request.ensure_session job_id))
  unfolding send
  ensure_Ensures job_id =
      Ensures-exchange _ _
        (λ w r h. (record { ahead = tt; repeat = tt; balanced = count_if total.judged tt }, h))

  session_result-Keeps :
      (status : Status) (resp : Response) → Keeps (On (Sound total)) (session_result status resp)
  unfolding session_result
  session_result-Keeps Status.ok resp = Ensures-pure tt (λ w h. h)
  session_result-Keeps Status.error resp = Ensures-failed _ (λ w h. h)
  session_result-Keeps Status.ready resp = Ensures-failed _ (λ w h. h)

  check_session-Keeps : (r : Result Response) → Keeps (On (Sound total)) (check_session r)
  unfolding check_session
  check_session-Keeps (err e) = Ensures-failed e (λ w h. h)
  check_session-Keeps (ok resp) = session_result-Keeps resp.status resp

reset_machine-Keeps : (total : Size) → Keeps (On (Sound total)) reset_machine
unfolding reset_machine
reset_machine-Keeps total = record { at = λ w h. h }

module _ (env : Env) (policy : RetryPolicy) (session : SessionInput) (wakeups : ℕ)
    (judged : Bool) where
  -- Behind the handshake.
  queued_Ensures :
      (trainees : List TraineeRef) (carried results : List TrainingResult) (started_at : String)
      → results ≡ carried
      → Ensures
          (On (Sound (size_of judged trainees carried)))
          (work env policy session wakeups (dedupe trainees) started_at results)
          (λ report w. Reported (size_of judged trainees carried) report w.trace)
          (On (Sound (size_of judged trainees carried)))
  unfolding work
  queued_Ensures trainees carried results started_at e =
      let total = size_of judged trainees carried in
      let sound = Sound total in
      Ensures-bind _ _ (reset_machine-Keeps total) (λ _.
        Ensures-bind _ _ (try_transition-Keeps sound initializing) (λ _.
          Ensures-bind _ _ (new_id-Keeps (Sound-steady total) env) (λ job_id.
            Ensures-bind _ _ (ensure_Ensures total env policy session wakeups job_id) (λ ensured.
              Ensures-bind _ _ (check_session-Keeps total env policy session wakeups ensured) (λ _.
                Ensures-bind _ _
                  (batch_loop_Ensures total env policy session wakeups _ _
                    (first_position-Fits judged trainees carried results started_at e)
                    (first_position-AllKeyed trainees))
                  (λ loop_end.
                    Ensures-given _ (λ ended.
                      finish_Ensures total env policy session wakeups loop_end ended)))))))

  pub run_Ensures :
      (trainees : List TraineeRef) (carried : List TrainingResult)
      → Ensures
          (λ w. (w.carried ≡ carried) × Sound (size_of judged trainees carried) w.trace)
          (run env policy session wakeups trainees)
          (λ report w. Reported (size_of judged trainees carried) report w.trace)
          (On (Sound (size_of judged trainees carried)))
  unfolding run now_ms take_carried
  run_Ensures trainees carried =
      Ensures-bind
        {R = λ _ w. (w.carried ≡ carried) × Sound (size_of judged trainees carried) w.trace} _ _
        (Ensures-exchange _ _ (λ w a h. (h.0, (Sound-steady _).at_clock w.trace a h.1)))
        (λ started_at.
          Ensures-bind
            {R = λ results w. (results ≡ carried) × Sound (size_of judged trainees carried) w.trace}
            _ _ (record { at = λ w h. h })
            (λ results.
              Ensures-given _ (λ e. queued_Ensures trainees carried results started_at e)))

-- A new engine with the rows that its predecessor left.
abbrev pub start : List TrainingResult → World
start carried = record { trace = []; machine = State.new; carried = carried }

pub Sound-Post :
    (total : Size) (r : Ending BatchReport) (w : World)
    → Post (λ report w. Reported total report w.trace) (On (Sound total)) r w
    → Sound total w.trace
Sound-Post total (done report) w h = h.sound
Sound-Post total (Ending.failed e) w h = h
Sound-Post total blocked w h = h
Sound-Post total panicked w h = h
Sound-Post total out_of_fuel w h = h

Reported-Post :
    (total : Size) (r : Ending BatchReport) (w : World) {report : BatchReport}
    → r ≡ done report
    → Post (λ report w. Reported total report w.trace) (On (Sound total)) r w
    → Reported total report w.trace
Reported-Post total r w e h =
    subst (λ x. Post (λ report w. Reported total report w.trace) (On (Sound total)) x w) e h

module _ (env : Env) (policy : RetryPolicy) (session : SessionInput) (wakeups : ℕ)
    (trainees : List TraineeRef) (carried : List TrainingResult) where
  -- What the run returns, and the world that it leaves.
  abbrev pub outcome : Ending BatchReport × World
  outcome = run env policy session wakeups trainees (start carried)

  outcome-Post :
      Post
        (λ report w. Reported (size_of true trainees carried) report w.trace)
        (On (Sound (size_of true trainees carried)))
        outcome.0
        outcome.1
  outcome-Post =
      (run_Ensures env policy session wakeups true trainees carried).at (start carried) (refl, tt)

  sound : Sound (size_of true trainees carried) outcome.1.trace
  sound = Sound-Post _ outcome.0 outcome.1 outcome-Post

  -- Whatever the worker, the disk, the operator and the policy do, and however the run ends, each
  -- submission is sent at a moment when the file on disk, the last checkpoint whose write succeeded,
  -- names that trainee, by a key it is queued under, as in flight.
  pub run-WriteAhead : AllEvents WriteAhead outcome.1.trace
  run-WriteAhead = AllEvents-map _ _ (λ e t h. h.ahead) _ sound

  -- Whatever the outside does and however the run ends, a submission follows another with no
  -- checkpoint write between them only if the reply to the earlier one is an error that proves that
  -- nothing was submitted, with a code that a retry can clear.
  pub run-SafeRepeat : AllEvents SafeRepeat outcome.1.trace
  run-SafeRepeat = AllEvents-map _ _ (λ e t h. h.repeat) _ sound

  -- Whatever the outside does and however the run ends, each checkpoint given to the sink has the
  -- size of the batch as its total, and its rows, its queue and its trainee in flight add up to
  -- that size.
  pub run-Balanced : AllEvents (Balanced (batch_size trainees carried)) outcome.1.trace
  run-Balanced = AllEvents-map _ _ (λ e t h. h.balanced) _ sound

  -- A run that returns a report has as many rows as its deduplicated roster and the rows it
  -- carried together, and the last checkpoint that it gave to the sink has the report's rows, an
  -- empty queue and nothing in flight, and is `Aborted` or `Finished` as the report says.
  pub run-IsClosed :
      {report : BatchReport}
      → outcome.0 ≡ done report
      → (report.total ≡ batch_size trainees carried) × IsClosed report outcome.1.trace
  run-IsClosed e =
      let r = Reported-Post (size_of true trainees carried) outcome.0 outcome.1 e outcome-Post in
      (r.whole, r.is_closed)
