-- ===== src/Command/Batch/Killed.antt =====
-- rust/src/main.rs, `run_batch`, twice: killed behind a submission, and started again over the disk that
-- rust/src/store.rs left, or asked for a batch through rust/src/daemon.rs.
use mathlib.Core.Path.{subst}
use dssp_bot.Prelude.{
  ℕ, String, Bool, true, false, ◌≡◌, refl, Option, none, some, List, [], ◌∷◌, ◌++◌, Result, ok, err,
}
use dssp_bot.Protocol.{TraineeRef, SessionInput, Response}
use dssp_bot.Protocol.Request.{Request}
use dssp_bot.Engine.Effects.{Env, Event, sent, Trace, World, done}
use dssp_bot.Engine.Safety.{AllEvents, WriteAhead}
use dssp_bot.State.{StateMachine}
use dssp_bot.Recovery.{StoredCheckpoint, Start, guard}
use dssp_bot.Recovery.Gate.{is_err}
use dssp_bot.Recovery.Crash.{WhenSubmitted, ahead_refuses}
use dssp_bot.Store.{FilePath, Json, Disk, show_path}
use dssp_bot.Store.Slot.{IsFaithful, held}
use dssp_bot.Store.Start.{Refuses}
use dssp_bot.Store.Killed.{Backs, event_backed}
use dssp_bot.Command.Batch.{run_batch}
use dssp_bot.Report.{TrainingResult}
use dssp_bot.Decision.{RetryPolicy}
use dssp_bot.Engine.Safety.Runs.{outcome, run-WriteAhead}
use dssp_bot.Daemon.Start.{BatchRequest, refused, admit_batch}
use dssp_bot.Command.Batch.Gated.{Writes, newest_first, gate_end, run_batch-gate_end}
use dssp_bot.Command.Batch.Ordered.{run_batch-IsOrdered}

refused-gate_end : (start : Result Start) → is_err start ≡ true → gate_end start ≡ some 3
refused-gate_end (err refusal) h = refl
refused-gate_end (ok start) h = cc

-- A world that a process starts in.
abbrev pub started : StateMachine → World
started machine = record { trace = []; machine = machine; carried = [] }

-- One process: its outside, its job's session and trainees, what `connect` returns, and the wakeups that
-- a wait is given.
pub record Process : Type 0 where
  pub env : Env
  pub session : SessionInput
  pub wakeups : ℕ
  pub normalize : String → String
  pub connected : Result (Unit {0})
  pub trainees : List TraineeRef
  pub machine : StateMachine

module _ (json : Json) (path : FilePath) (pid : ℕ) where
  -- A plain batch of this process over the disk ends with 3, and does nothing but the gate's saves.
  abbrev pub Ends3 : Process → Disk → Type 0
  Ends3 p d =
      let (start, saves) = guard (show_path path) false (held json path d) in
      let (r, w) =
        run_batch p.env p.session p.wakeups p.normalize p.connected (show_path path) false
          (held json path d) p.trainees (started p.machine) in
      (r ≡ done 3) × Writes (newest_first saves []) w.trace

  -- The bridge answers a plain batch over the disk by 409, before it asks for a worker.
  abbrev pub Refuses409 : (String → Bool) → List TraineeRef → SessionInput → Disk → Type 0
  Refuses409 is_blank trainees session d =
      let plain : BatchRequest = record {
        trainees = trainees;
        session = session;
        resume = false;
      } in
      (text : String) × (admit_batch is_blank plain
          (guard (show_path path) plain.resume (held json path d)).0
        ≡ refused 409 text)

  abbrev pub Stops : Disk → Type 0
  Stops d =
      ((next : Process) → Ends3 next d)
      × ((is_blank : String → Bool) (trainees : List TraineeRef) (session : SessionInput)
          → Refuses409 is_blank trainees session d)

  Refuses-Ends3 : (p : Process) (d : Disk) → Refuses json path pid d → Ends3 p d
  Refuses-Ends3 p d h =
      run_batch-gate_end p.env p.session p.wakeups p.normalize p.connected (show_path path) false
        (held json path d) p.trainees 3 p.machine
        (refused-gate_end (guard (show_path path) false (held json path d)).0 h)

  refused-admit_batch :
      (is_blank : String → Bool) (req : BatchRequest) (start : Result Start)
      → is_err start ≡ true
      → (text : String) × (admit_batch is_blank req start ≡ refused 409 text)
  unfolding admit_batch
  refused-admit_batch is_blank req (err refusal) h = (refusal, refl)
  refused-admit_batch is_blank req (ok start) h = cc

  Refuses-Stops : (d : Disk) → Refuses json path pid d → Stops d
  Refuses-Stops d h = (
    λ p. Refuses-Ends3 p d h,
    λ is_blank trainees session.
        refused-admit_batch is_blank
          (record { trainees = trainees; session = session; resume = false })
          (guard (show_path path) false (held json path d)).0 h,
  )

  backed_Stops :
      (trainee : Option TraineeRef) {some_trainee : TraineeRef} (t : Trace) (d : Disk)
      → WhenSubmitted trainee ((d : Disk) → Backs json path pid t d → Refuses json path pid d)
      → trainee ≡ some some_trainee
      → Backs json path pid t d
      → Stops d
  backed_Stops none t d h e b = cc
  backed_Stops (some trainee) t d h e b = Refuses-Stops d (h d b)

AllEvents-at :
    (C : Event → Trace → Type 0) (later : Trace) (e : Event) (t : Trace)
    → AllEvents C (later ++ (e ∷ t))
    → C e t
AllEvents-at C [] e t h = h.0
AllEvents-at C (x ∷ later) e t h = AllEvents-at C later e t h.1

-- A disk behind a submission of a trace, whose writes are its saves.
module _ (json : Json) (path : FilePath) (pid : ℕ) (faithful : IsFaithful json)
    (later before : Trace) (req : Request) (r : Result Response) (trainee : TraineeRef)
    (submits : req.trainee ≡ some trainee) (d : Disk)
    (backed : Backs json path pid (sent req r ∷ before) d) where
  submitted-Stops :
      (t : Trace)
      → t ≡ later ++ (sent req r ∷ before)
      → AllEvents WriteAhead t
      → Stops json path pid d
  submitted-Stops t same h =
      let ahead =
        AllEvents-at WriteAhead later (sent req r) before (subst (AllEvents WriteAhead) same h) in
      backed_Stops json path pid req.trainee (sent req r ∷ before) d
        (event_backed json faithful path pid (sent req r) before
          (ahead_refuses (show_path path) (sent req r) before ahead))
        submits backed

  -- A batch of the command line was killed behind a submission, and before its next write, whatever
  -- its outside did and whichever calls of the store failed: over the disk that its saves left, the
  -- next batch of the command line that is started plainly with the same checkpoint file ends with the
  -- code 3, whatever its trainees are, without asking a worker anything, and the bridge answers a plain
  -- batch over that file by 409.
  pub batch_kill-Stops :
      (p : Process) (resuming : Bool) (loaded : Result (Option StoredCheckpoint))
      → (run_batch p.env p.session p.wakeups p.normalize p.connected
          (show_path path)
          resuming
          loaded
          p.trainees
          (started p.machine)).1.trace
        ≡ later ++ (sent req r ∷ before)
      → Stops json path pid d
  batch_kill-Stops p resuming loaded same =
      submitted-Stops _ same
        (run_batch-IsOrdered p.env p.session p.wakeups p.normalize p.connected (show_path path)
          resuming loaded p.trainees p.machine).0

  -- The same of a batch that the bridge ran.
  pub bridge_kill-Stops :
      (env : Env) (policy : RetryPolicy) (session : SessionInput) (wakeups : ℕ)
      → (trainees : List TraineeRef) (carried : List TrainingResult)
      → (outcome env policy session wakeups trainees carried).1.trace
        ≡ later ++ (sent req r ∷ before)
      → Stops json path pid d
  bridge_kill-Stops env policy session wakeups trainees carried same =
      submitted-Stops _ same (run-WriteAhead env policy session wakeups trainees carried)
