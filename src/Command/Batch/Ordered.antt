-- ===== src/Command/Batch/Ordered.antt =====
-- rust/src/main.rs, `run_batch`: the order of what a whole batch does, from the gate's saves on.
use dssp_bot.Prelude.{
  ℕ, String, Bool, false, ◌≡◌, refl, ◌⊎◌, inl, inr, Option, none, some, List, [], ◌∷◌, Result, ok,
  err,
}
use dssp_bot.Protocol.{TraineeRef, SessionInput}
use dssp_bot.Report.{TrainingResult, BatchReport}
use dssp_bot.Checkpoint.{BatchCheckpoint}
use dssp_bot.Decision.{default_policy}
use dssp_bot.State.{StateMachine}
use dssp_bot.Engine.Effects.{
  Env, Trace, World, Ending, done, failed, blocked, panicked, out_of_fuel, send, write,
}
use dssp_bot.Engine.Logic.{
  Ensures, Ensures-pure, Ensures-bind, Ensures-exchange, Ensures-if, Keeps, On, Post,
}
use dssp_bot.Engine.Run.{run}
use dssp_bot.Engine.Safety.{Size, Sound, AllEvents, AllEvents-map, WriteAhead, SafeRepeat}
use dssp_bot.Engine.Safety.Boundary.{Sound-steady}
use dssp_bot.Engine.Safety.Steady.{new_id-Keeps}
use dssp_bot.Engine.Safety.Runs.{run_Ensures, Sound-Post}
use dssp_bot.Engine.Safety.Queued.{size_of}
use dssp_bot.Recovery.{StoredCheckpoint, Plan, Start, fresh, resume, guard}
use dssp_bot.Command.{resume_exit}
use dssp_bot.Command.Single.{ensured}
use dssp_bot.Command.Batch.{
  build_engine, settle_run, run_engine, run_resolved, engage, announced, follow_plan, follow_gate,
  save_all, run_batch,
}

-- The gate's checkpoints are not the engine's, so that sizes are not judged.
abbrev any_size : Size
any_size = record { count = 0; judged = false }

abbrev Ordered : World → Type 0
Ordered = On (Sound any_size)

resized :
    (m n : ℕ) (t : Trace)
    → Sound (record { count = m; judged = false }) t
    → Sound (record { count = n; judged = false }) t
resized m n t h =
    AllEvents-map _ _ (λ e t s. record { ahead = s.ahead; repeat = s.repeat; balanced = tt }) t h

settle_run-Post :
    (r : Ending BatchReport) (w : World)
    → Ordered w
    → Post (λ _ w. Ordered w) Ordered (settle_run r) w
unfolding settle_run
settle_run-Post (done report) w h = h
settle_run-Post (failed e) w h = h
settle_run-Post blocked w h = h
settle_run-Post panicked w h = h
settle_run-Post out_of_fuel w h = h

module _ (env : Env) (session : SessionInput) (wakeups : ℕ) (normalize : String → String)
    (connected : Result (Unit {0})) where
  save_all-Keeps : (saves : List BatchCheckpoint) → Keeps Ordered (save_all env saves)
  unfolding save_all write
  save_all-Keeps [] = Ensures-pure tt (λ w h. h)
  save_all-Keeps (c ∷ cs) =
      Ensures-bind {R = λ _ w. Ordered w} _ _
        (Ensures-exchange _ _ (λ w a h. (record { ahead = tt; repeat = tt; balanced = tt }, h)))
        (λ _. save_all-Keeps cs)

  run_engine-Keeps :
      (roster : List TraineeRef) (carried : List TrainingResult)
      → Ensures
          (λ w. (w.carried ≡ carried) × Ordered w)
          (run_engine env session wakeups normalize connected roster)
          (λ _ w. Ordered w)
          Ordered
  unfolding run_engine
  run_engine-Keeps roster carried = record {
    at = λ w (e, h).
        let (r, w') = run env default_policy session wakeups roster w in
        let size = size_of false roster carried in
        settle_run-Post r w' (
          resized size.count 0 w'.trace (
            Sound-Post size r w' (
              (run_Ensures env default_policy session wakeups false roster carried).at w
                (e, resized 0 size.count w.trace h))));
  }

  run_resolved-Keeps :
      (carried : List TrainingResult) (roster : (List TraineeRef) ⊎ ℕ)
      → Keeps Ordered (run_resolved env session wakeups normalize connected carried roster)
  unfolding run_resolved build_engine
  run_resolved-Keeps carried (inr code) = Ensures-pure code (λ w h. h)
  run_resolved-Keeps carried (inl roster) =
      Ensures-bind {R = λ _ w. (w.carried ≡ carried) × Ordered w} _ _
        (record { at = λ w h. (refl, h) }) (λ _. run_engine-Keeps roster carried)

  engage-Keeps :
      (wanted : List TraineeRef) (carried : List TrainingResult) (made : Result (Unit {0}))
      → Keeps Ordered (engage env session wakeups normalize connected wanted carried made)
  unfolding engage send
  engage-Keeps wanted carried (err e) = Ensures-pure 1 (λ w h. h)
  engage-Keeps wanted carried (ok worker) =
      Ensures-bind _ _ (new_id-Keeps (Sound-steady any_size) env) (λ session_id.
        Ensures-bind {R = λ _ w. Ordered w} _ _
          (Ensures-exchange _ _ (λ w a h. (record { ahead = tt; repeat = tt; balanced = tt }, h)))
          (λ reply.
            Ensures-if (ensured reply) _ _
              (λ _. Ensures-bind _ _ (new_id-Keeps (Sound-steady any_size) env) (λ list_id.
                Ensures-bind {R = λ _ w. Ordered w} _ _
                  (Ensures-exchange _ _
                    (λ w a h. (record { ahead = tt; repeat = tt; balanced = tt }, h)))
                  (λ listed. run_resolved-Keeps carried _)))
              (λ _. Ensures-pure 3 (λ w h. h))))

  follow_plan-Keeps :
      (trainees : List TraineeRef) (plan : Plan)
      → Keeps Ordered (follow_plan env session wakeups normalize connected trainees plan)
  unfolding follow_plan announced
  follow_plan-Keeps trainees fresh = engage-Keeps trainees [] connected
  follow_plan-Keeps trainees (resume roster carried owed) = by_code (resume_exit roster owed)
    where
      by_code :
          (code : Option ℕ)
          → Keeps Ordered (announced env session wakeups normalize connected roster carried code)
      by_code (some code) = Ensures-pure code (λ w h. h)
      by_code none = engage-Keeps roster carried connected

  follow_gate-Keeps :
      (trainees : List TraineeRef) (start : Result Start)
      → Keeps Ordered (follow_gate env session wakeups normalize connected trainees start)
  unfolding follow_gate
  follow_gate-Keeps trainees (err refusal) = Ensures-pure 3 (λ w h. h)
  follow_gate-Keeps trainees (ok start) = follow_plan-Keeps trainees start.plan

  batch_Ordered :
      (path : String) (resuming : Bool) (loaded : Result (Option StoredCheckpoint))
      → (trainees : List TraineeRef)
      → Keeps Ordered
          (run_batch env session wakeups normalize connected path resuming loaded trainees)
  unfolding run_batch
  batch_Ordered path resuming loaded trainees =
      let (start, saves) = guard path resuming loaded in
      Ensures-bind _ _ (save_all-Keeps saves) (λ _. follow_gate-Keeps trainees start)

  any_end : (r : Ending ℕ) (w : World) → Post (λ _ w. Ordered w) Ordered r w → Ordered w
  any_end (done code) w h = h
  any_end (failed e) w h = h
  any_end blocked w h = h
  any_end panicked w h = h
  any_end out_of_fuel w h = h

  -- Whatever the worker, the disk, the operator and the portal's list do, and however a batch of the
  -- command line ends, from the saves of its gate on: each submission is sent at a moment when the last
  -- checkpoint whose write succeeded names that trainee as in flight, and one follows another with no
  -- write between them only if the reply to the earlier proves that nothing was submitted, with a code
  -- that a retry can clear.
  pub run_batch-IsOrdered :
      (path : String) (resuming : Bool) (loaded : Result (Option StoredCheckpoint))
      → (trainees : List TraineeRef) (machine : StateMachine)
      → let (r, w) =
          run_batch env session wakeups normalize connected path resuming loaded trainees
            (record { trace = []; machine = machine; carried = [] }) in
        AllEvents WriteAhead w.trace × AllEvents SafeRepeat w.trace
  run_batch-IsOrdered path resuming loaded trainees machine =
      let w0 : World = record { trace = []; machine = machine; carried = [] } in
      let (r, w) =
        run_batch env session wakeups normalize connected path resuming loaded trainees w0 in
      let sound = any_end r w ((batch_Ordered path resuming loaded trainees).at w0 tt) in
      (AllEvents-map _ _ (λ e t h. h.ahead) _ sound, AllEvents-map _ _ (λ e t h. h.repeat) _ sound)
