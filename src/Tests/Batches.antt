-- ===== src/Tests/Batches.antt =====
-- Whole runs at concrete inputs.
use dssp_bot.Prelude.{String, ◌≡◌, refl, Option, none, some, false, List, [], ◌∷◌, ok, All}
use dssp_bot.Protocol.{TraineeRef, SessionInput, Status, Response, bare_response}
use dssp_bot.Report.{Outcome, TrainingResult, BatchReport, build}
use dssp_bot.Decision.{default_policy, settle_submit}
use dssp_bot.Queue
use dssp_bot.State
use dssp_bot.Engine.Effects
use dssp_bot.Engine.Effects.{Trace, Env, World, done}
use dssp_bot.Engine.Roster
use dssp_bot.Engine.Control
use dssp_bot.Engine.Attempt
use dssp_bot.Engine.Loop
use dssp_bot.Engine.Run
use dssp_bot.Engine.Safety.{AllEvents, WriteAhead, SafeRepeat, Balanced}
use dssp_bot.Engine.Safety.Closing.{IsClosed}
use dssp_bot.Engine.Safety.Runs.{
  outcome, run-WriteAhead, run-SafeRepeat, run-Balanced, run-IsClosed,
}
use dssp_bot.Engine.Safety.Queued.{batch_size}
use dssp_bot.Engine.Roster.Unique.{AllDistinct, queued_ids, IsKept, dedupe-AllDistinct}
use dssp_bot.Engine.Termination.Runs.{EndsAs, run-EndsAs, run-returns}

-- A worker that confirms every submission.
abbrev pub reply : Option TraineeRef → Response
reply none = bare_response Status.ok
reply (some trainee) = record (bare_response Status.ok) {
  outcome = some "confirmed";
  reference = some "REF";
}

-- The daemon's environment without a control, as the CLI runs it.
abbrev pub calm : Env
calm = record {
  controlled = false;
  send = λ t req. ok (reply req.trainee);
  write = λ t c. ok tt;
  clock = λ t. "0";
  fresh_id = λ t. "id";
  stop_requested = λ t. false;
  pause_requested = λ t. false;
  debug = λ o. "";
}

abbrev pub session : SessionInput
session = record { training_date = "2026-01-01"; instructor = "I"; training_type = "T" }

abbrev pub by_id : String → TraineeRef
by_id s = record { id = some s; name = none }

-- The second entry repeats the first.
abbrev pub roster : List TraineeRef
roster = by_id "1" ∷ by_id "1" ∷ by_id "2" ∷ []

run-WriteAhead_example :
    AllEvents WriteAhead (outcome calm default_policy session 3 roster []).1.trace
run-WriteAhead_example = run-WriteAhead calm default_policy session 3 roster []

run-SafeRepeat_example :
    AllEvents SafeRepeat (outcome calm default_policy session 3 roster []).1.trace
run-SafeRepeat_example = run-SafeRepeat calm default_policy session 3 roster []

run-Balanced_example :
    AllEvents
      (Balanced (batch_size roster []))
      (outcome calm default_policy session 3 roster []).1.trace
run-Balanced_example = run-Balanced calm default_policy session 3 roster []

abbrev confirmed_row : String → TrainingResult
confirmed_row id = record {
  trainee_id = id;
  trainee_name = "";
  outcome = Outcome.success;
  attempts = 1;
  error_code = none;
  message = some "REF";
}

abbrev both : BatchReport
both = build (confirmed_row "1" ∷ confirmed_row "2" ∷ []) "0" "0" false

calm_run : (outcome calm default_policy session 3 roster []).0 ≡ done both
unfolding Run.run Run.work Run.check_session Run.session_result Run.finish Run.late_stop
    Run.terminal Run.complete_unless_stopped Loop.batch_loop Loop.enqueue_all Loop.take_task
    Loop.submit_task Loop.should_abort Control.control_boundary Control.save_checkpoint
    Attempt.process_trainee Attempt.attempt_loop Attempt.conclude Attempt.follow Attempt.judge
    Roster.dedupe Roster.key_eq Roster.key_namespace Roster.queue_key Effects.◌>>=◌ Effects.now_ms
    Effects.exchange Effects.take_carried Effects.reset_machine Effects.try_transition
    Effects.new_id Effects.send Effects.write Effects.pure Effects.machine_state
    Effects.stop_requested settle_submit Queue.is_empty Queue.enqueue Queue.dequeue Queue.ids
    State.can_transition State.transition_to State.reset
calm_run = refl

run-IsClosed_example :
    (both.total ≡ batch_size roster [])
    × IsClosed both (outcome calm default_policy session 3 roster []).1.trace
run-IsClosed_example = run-IsClosed calm default_policy session 3 roster [] calm_run

run-EndsAs_example : EndsAs calm (outcome calm default_policy session 3 roster []).0
run-EndsAs_example = run-EndsAs calm default_policy session 3 roster [] (λ e t h. h)

run-returns_example :
    (report : BatchReport) × ((outcome calm default_policy session 3 roster []).0 ≡ done report)
run-returns_example = run-returns calm default_policy session 3 roster [] refl (λ t job_id. refl)

dedupe-AllDistinct_example :
    AllDistinct (queued_ids (Roster.dedupe roster))
    × All (λ t. IsKept (queued_ids (Roster.dedupe roster)) t.id) roster
dedupe-AllDistinct_example = dedupe-AllDistinct roster
