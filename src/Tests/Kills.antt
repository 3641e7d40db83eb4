-- ===== src/Tests/Kills.antt =====
-- A batch that is killed behind its submission, at a concrete input.
use dssp_bot.Prelude.{false, ◌≡◌, refl, none, some, ok, Result, [], ◌∷◌, ◌++◌}
use dssp_bot.Checkpoint.{BatchCheckpoint, CheckpointStatus, running, finished}
use dssp_bot.Recovery
use dssp_bot.Recovery.{tracked}
use dssp_bot.Store
use dssp_bot.Store.{FilePath, show_path, Json, File, Disk, Calls, sync_target, save}
use dssp_bot.State
use dssp_bot.Queue
use dssp_bot.Command
use dssp_bot.Command.Batch
use dssp_bot.Command.Single
use dssp_bot.Decision.{settle_submit}
use dssp_bot.Engine.Roster
use dssp_bot.Engine.Control
use dssp_bot.Engine.Attempt
use dssp_bot.Engine.Loop
use dssp_bot.Engine.Run
use dssp_bot.Protocol.{Response}
use dssp_bot.Protocol.Request
use dssp_bot.Engine.Effects
use dssp_bot.Engine.Effects.{Event, sent, wrote, read_clock, drew_id, Trace}
use dssp_bot.Report.{Outcome}
use dssp_bot.Store.Killed.{Backs}
use dssp_bot.Command.Batch.{run_batch}
use dssp_bot.Command.Batch.Killed.{Process, Stops, started, batch_kill-Stops}
use dssp_bot.Tests.Batches.{calm, reply, by_id, session}
use dssp_bot.Tests.Codecs.{lone, codec, codec-IsFaithful, job_file, calm_calls, holding}

-- A worker whose portal lists one trainee, and that confirms every submission.
abbrev listing : Request.Request → Result Response
listing req = ok (record (reply req.trainee) {
  trainees =
      some (record { id = "7"; name = "A"; sn = ""; course = ""; training_sessions = "" } ∷ []);
})

-- One process of the command line, over the same store.
abbrev process : Process
process = record {
  env = record calm { send = λ t req. listing req };
  session = session;
  wakeups = 3;
  normalize = λ name. name;
  connected = ok tt;
  trainees = by_id "7" ∷ [];
  machine = State.new;
}

abbrev asked : Request.Request → Event
asked req = sent req (listing req)

abbrev submission : Request.Request
submission = Request.submit_training "id" (by_id "7") session

-- What happens before the submission of its only trainee: one write, that names it as in flight.
abbrev before : Trace
before =
    drew_id "id"
    ∷ wrote lone (ok tt)
    ∷ read_clock "0"
    ∷ asked (Request.ensure_session "id")
    ∷ drew_id "id"
    ∷ read_clock "0"
    ∷ asked (Request.list_trainees "id")
    ∷ drew_id "id"
    ∷ asked (Request.ensure_session "id")
    ∷ drew_id "id"
    ∷ []

abbrev closed_file : CheckpointStatus → BatchCheckpoint
closed_file status = record lone {
  status = status;
  results =
      record {
        trainee_id = "7";
        trainee_name = "";
        outcome = Outcome.success;
        attempts = 1;
        error_code = none;
        message = some "REF";
      }
      ∷ [];
  in_flight = none;
}

abbrev later : Trace
later =
    read_clock "0"
    ∷ wrote (closed_file finished) (ok tt)
    ∷ read_clock "0"
    ∷ wrote (closed_file running) (ok tt)
    ∷ read_clock "0"
    ∷ []

process_trace :
    (run_batch process.env session 3
      (λ name. name)
      (ok tt)
      (show_path job_file)
      false
      (ok none)
      process.trainees
      (started State.new)).1.trace
    ≡ later ++ (asked submission ∷ before)
unfolding run_batch Batch.run_engine Batch.build_engine Command.resolve_against Command.resolve_from
    Command.add Command.enlist Command.problem Command.roster_or Command.find Command.lookup_id
    Recovery.guard Store.show_path Run.run Run.work Run.check_session Run.session_result Run.finish
    Run.late_stop Run.terminal Run.complete_unless_stopped Loop.batch_loop Loop.enqueue_all
    Loop.take_task Loop.submit_task Loop.should_abort Control.control_boundary
    Control.save_checkpoint Attempt.process_trainee Attempt.attempt_loop Attempt.conclude
    Attempt.follow Attempt.judge Roster.dedupe Roster.key_eq Roster.key_namespace Roster.queue_key
    Effects.◌>>=◌ Effects.now_ms Effects.exchange Effects.take_carried Effects.reset_machine
    Effects.try_transition Effects.new_id Effects.send Effects.write Effects.pure
    Effects.machine_state Effects.stop_requested settle_submit Queue.is_empty Queue.enqueue
    Queue.dequeue Queue.ids State.can_transition State.transition_to State.reset State.new
    Single.ensured Batch.run_resolved Batch.resolved_by
process_trace = refl

-- The disk that its write left.
abbrev lone_disk : Disk
lone_disk = (save codec job_file 42 calm_calls lone (holding "older")).1.now

lone_disk_backed : Backs codec job_file 42 (asked submission ∷ before) lone_disk
unfolding save Store.save_encoded Store.save_text Store.write_and_sync Store.and_then Store.attempt
lone_disk_backed = (holding "older", calm_calls, refl, refl, tt)

batch_kill-Stops_example : Stops codec job_file 42 lone_disk
batch_kill-Stops_example =
    batch_kill-Stops codec job_file 42 codec-IsFaithful later before submission (listing submission)
      (by_id "7") refl lone_disk lone_disk_backed process false (ok none) process_trace
