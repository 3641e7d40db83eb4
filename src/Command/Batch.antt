-- ===== src/Command/Batch.antt =====
-- rust/src/main.rs, `run_batch`: the start gate, the worker, the roster's resolution and the engine.
pub mod Gated
pub mod Ordered
pub mod Killed
use dssp_bot.Prelude.{
  ℕ, String, Bool, true, false, ◌⊎◌, inl, inr, Option, none, some, List, [], ◌∷◌, Result, ok, err,
  unwrap_or, if◌then◌else◌,
}
use dssp_bot.Protocol.{TraineeRef, SessionInput, Response, Status}
use dssp_bot.Protocol.Request
use dssp_bot.Report.{TrainingResult, BatchReport}
use dssp_bot.Checkpoint.{BatchCheckpoint}
use dssp_bot.Decision.{default_policy}
use dssp_bot.State
use dssp_bot.Engine.Effects.{
  Env, World, Ending, done, failed, blocked, panicked, out_of_fuel, Action, pure, end, ◌>>=◌, ◌>>◌,
  send, write, new_id,
}
use dssp_bot.Engine.Run.{run}
use dssp_bot.Recovery.{StoredCheckpoint, Plan, Start, fresh, resume, guard}
use dssp_bot.Command.{resolve_against, resume_exit, batch_exit_code}
use dssp_bot.Command.Single.{ensured}

-- `BatchEngine::new(..).with_carried(carried)`
unfoldable pub build_engine : List TrainingResult → Action (Unit {0})
build_engine carried w = (done tt, record w { machine = State.new; carried = carried })

-- `match result { Ok(report) => .., Err(e) => .. }`
unfoldable pub settle_run : Ending BatchReport → Ending ℕ
settle_run (done report) = done (batch_exit_code report)
settle_run (failed e) = done 3
settle_run blocked = blocked
settle_run panicked = panicked
settle_run out_of_fuel = out_of_fuel

-- The saves of the gate; a failed one is only reported.
unfoldable pub save_all : Env → List BatchCheckpoint → Action (Unit {0})
save_all env [] = pure tt
save_all env (c ∷ cs) = write env c >> save_all env cs

-- `normalize` is `normalize_name`; `connected` what `connect` returned.
module _ (env : Env) (session : SessionInput) (wakeups : ℕ) (normalize : String → String)
    (connected : Result (Unit {0})) where
  abbrev roster_or_code : (List TraineeRef) ⊎ (List String) → (List TraineeRef) ⊎ ℕ
  roster_or_code (inl roster) = inl roster
  roster_or_code (inr problems) = inr 2

  -- The roster, or the exit code of a `ResolveFailure`.
  unfoldable pub resolved_by : List TraineeRef → Result Response → (List TraineeRef) ⊎ ℕ
  resolved_by wanted (err e) = inr 3
  resolved_by wanted (ok resp) = elim resp.status [
    | Status.ok ↦ roster_or_code (resolve_against normalize (unwrap_or resp.trainees []) wanted)
    | _ ↦ inr 3
  ]

  unfoldable pub run_engine : List TraineeRef → Action ℕ
  unfolding settle_run
  run_engine roster w =
      let (result, w') = run env default_policy session wakeups roster w in (settle_run result, w')

  unfoldable pub run_resolved : List TrainingResult → (List TraineeRef) ⊎ ℕ → Action ℕ
  run_resolved carried (inr code) = pure code
  run_resolved carried (inl roster) = build_engine carried >> run_engine roster

  -- What follows the plan, where there is a roster.
  unfoldable pub engage : List TraineeRef → List TrainingResult → Result (Unit {0}) → Action ℕ
  engage wanted carried (err e) = pure 1
  engage wanted carried (ok worker) = do
    session_id ← new_id env
    reply ← send env (Request.ensure_session session_id)
    if ensured reply
        then (do
          list_id ← new_id env
          listed ← send env (Request.list_trainees list_id)
          run_resolved carried (resolved_by wanted listed))
        else pure 3

  unfoldable pub announced : List TraineeRef → List TrainingResult → Option ℕ → Action ℕ
  unfolding engage
  announced roster carried (some code) = pure code
  announced roster carried none = engage roster carried connected

  unfoldable pub follow_plan : List TraineeRef → Plan → Action ℕ
  unfolding announced engage
  follow_plan trainees fresh = engage trainees [] connected
  follow_plan trainees (resume roster carried owed) =
      announced roster carried (resume_exit roster owed)

  unfoldable pub follow_gate : List TraineeRef → Result Start → Action ℕ
  unfolding follow_plan
  follow_gate trainees (err refusal) = pure 3
  follow_gate trainees (ok start) = follow_plan trainees start.plan

  -- `path` is the checkpoint's, `loaded` what the store loads from it.
  unfoldable pub run_batch :
      String → Bool → Result (Option StoredCheckpoint) → List TraineeRef → Action ℕ
  unfolding save_all follow_gate
  run_batch path resuming loaded trainees =
      let (start, saves) = guard path resuming loaded in
      save_all env saves >> follow_gate trainees start
