-- ===== src/Command/Batch/Gated.antt =====
-- rust/src/main.rs, `run_batch`: where the gate ends the run, no worker is asked anything.
use mathlib.Core.Path.{subst}
use dssp_bot.Prelude.{
  ℕ, String, Bool, ◌≡◌, refl, sym, ap, Option, none, some, List, [], ◌∷◌, Result, ok, err,
}
use dssp_bot.Protocol.{TraineeRef, SessionInput}
use dssp_bot.State.{StateMachine}
use dssp_bot.Checkpoint.{BatchCheckpoint}
use dssp_bot.Engine.Effects.{
  Env, wrote, Trace, World, Ending, done, failed, blocked, panicked, out_of_fuel, continue, Action,
  pure, ◌>>=◌, write, exchange,
}
use dssp_bot.Recovery.{StoredCheckpoint, Plan, Start, fresh, resume, guard}
use dssp_bot.Command.{resume_exit}
use dssp_bot.Command.Batch.{announced, follow_plan, follow_gate, save_all, run_batch}

-- The code of a run that the gate ends: a refusal, or a resume that has nobody to submit.
abbrev plan_end : Plan → Option ℕ
plan_end fresh = none
plan_end (resume roster carried owed) = resume_exit roster owed

abbrev pub gate_end : Result Start → Option ℕ
gate_end (err refusal) = some 3
gate_end (ok start) = plan_end start.plan

-- The checkpoints written in a trace, the newest first; `none` where anything else happened.
abbrev pub Writes : List BatchCheckpoint → Trace → Type 0
Writes [] [] = Unit
Writes (c ∷ cs) (wrote c' r ∷ t) = (c ≡ c') × Writes cs t
Writes _ _ = ⊥

abbrev pub newest_first : List BatchCheckpoint → List BatchCheckpoint → List BatchCheckpoint
newest_first [] behind = behind
newest_first (c ∷ cs) behind = newest_first cs (c ∷ behind)

module _ (env : Env) (session : SessionInput) (wakeups : ℕ) (normalize : String → String)
    (connected : Result (Unit {0})) where
  save_all-Writes :
      (saves behind : List BatchCheckpoint) (w : World)
      → Writes behind w.trace
      → let (r, w') = save_all env saves w in
        (r ≡ done tt) × Writes (newest_first saves behind) w'.trace
  unfolding save_all pure ◌>>=◌ write exchange
  save_all-Writes [] behind w h = (refl, h)
  save_all-Writes (c ∷ cs) behind w h = save_all-Writes cs (c ∷ behind) _ (refl, h)

  planned_end :
      (trainees : List TraineeRef) (plan : Plan) (code : ℕ) (w : World)
      → plan_end plan ≡ some code
      → follow_plan env session wakeups normalize connected trainees plan w ≡ (done code, w)
  unfolding follow_plan announced pure
  planned_end trainees fresh code w e = cc
  planned_end trainees (resume roster carried owed) code w e = rw e refl

  gated :
      (trainees : List TraineeRef) (start : Result Start) (code : ℕ) (w : World)
      → gate_end start ≡ some code
      → follow_gate env session wakeups normalize connected trainees start w ≡ (done code, w)
  unfolding follow_gate pure
  gated trainees (err refusal) code w e = let same : 3 ≡ code = cc in rw same refl
  gated trainees (ok start) code w e = planned_end trainees start.plan code w e

  saved :
      (behind : List BatchCheckpoint) (f : Action ℕ) (code : ℕ) (r : Ending (Unit {0})) (w : World)
      → r ≡ done tt
      → f w ≡ (done code, w)
      → Writes behind w.trace
      → ((continue r (λ _. f) w).0 ≡ done code) × Writes behind (continue r (λ _. f) w).1.trace
  saved behind f code (done u) w e h writes =
      (ap (λ x. x.0) h, subst (λ x. Writes behind x.1.trace) (sym h) writes)
  saved behind f code (failed x) w e h writes = cc
  saved behind f code blocked w e h writes = cc
  saved behind f code panicked w e h writes = cc
  saved behind f code out_of_fuel w e h writes = cc

  pub run_batch-gate_end :
      (path : String) (resuming : Bool) (loaded : Result (Option StoredCheckpoint))
      (trainees : List TraineeRef) (code : ℕ) (machine : StateMachine)
      → gate_end (guard path resuming loaded).0 ≡ some code
      → let (r, w) =
          run_batch env session wakeups normalize connected path resuming loaded trainees
            (record { trace = []; machine = machine; carried = [] }) in
        (r ≡ done code) × Writes (newest_first (guard path resuming loaded).1 []) w.trace
  unfolding run_batch ◌>>=◌
  run_batch-gate_end path resuming loaded trainees code machine e =
      let w : World = record { trace = []; machine = machine; carried = [] } in
      let (start, saves) = guard path resuming loaded in
      let (finished, writes) = save_all-Writes saves [] w tt in
      saved (newest_first saves [])
        (follow_gate env session wakeups normalize connected trainees start) code
        (save_all env saves w).0 (save_all env saves w).1 finished
        (gated trainees start code (save_all env saves w).1 e) writes
