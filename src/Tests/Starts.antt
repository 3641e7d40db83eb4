-- ===== src/Tests/Starts.antt =====
-- Starts over checkpoints at concrete inputs.
use dssp_bot.Prelude.{
  ℕ, String, ◌≡◌, refl, ◌⊎◌, ◌+◌, ◌≤◌, none, some, true, false, List, [], ◌∷◌, ok, length, filter,
  any, All,
}
use dssp_bot.Protocol.{TraineeRef}
use dssp_bot.Report.{Outcome, TrainingResult}
use dssp_bot.Checkpoint
use dssp_bot.Checkpoint.{BatchCheckpoint, running, finished, is_outcome, unaccounted, unreconciled}
use dssp_bot.Checkpoint.Partition.{placed}
use dssp_bot.Checkpoint.Gate.{IsSkipped}
use dssp_bot.Recovery
use dssp_bot.Recovery.{StoredCheckpoint, tracked, untracked, resume, guard}
use dssp_bot.Recovery.Gate.{plain_start_safe}
use dssp_bot.Recovery.Resume.{plan_of, resume_partition, IsNot, untracked_resume_safe}
use dssp_bot.Tests.Records.{drained, killed, old_build}

abbrev path : String
path = "dssp.checkpoint.json"

plain_start_safe_example :
    (drained.in_flight ≡ none)
    × (unaccounted drained ≡ 0)
    × (any (is_outcome Outcome.indeterminate) drained.results ≡ false)
    × ((drained.status ≡ finished) ⊎ All IsSkipped drained.results)
    × ((true ≡ true) ⊎ (drained.pending ≡ []))
unfolding guard Recovery.reconcile Recovery.promoted Checkpoint.untracked_suspect
    Checkpoint.blocks_start Checkpoint.mark_interrupted
plain_start_safe_example = plain_start_safe path (tracked drained) refl

resume_partition_example :
    (roster : List TraineeRef) × (rows : List TrainingResult) × (owed : ℕ) × (plan_of
        (guard path true (ok (some (tracked killed)))).0
      ≡ some (resume roster rows owed))
    × (length roster + length rows ≡ placed killed)
    × (owed ≡ length (unreconciled killed).indeterminate + unaccounted killed)
resume_partition_example = resume_partition path killed

untracked_resume_safe_example :
    (roster : List TraineeRef) × (rows : List TrainingResult) × (owed : ℕ) × (plan_of
        (guard path true (ok (some (untracked old_build)))).0
      ≡ some (resume roster rows owed))
    × All (IsNot "2") roster
    × (length roster ≤ length (filter (is_outcome Outcome.skipped) old_build.results))
    × (length old_build.pending ≤ owed)
untracked_resume_safe_example = untracked_resume_safe path old_build "2" ("3" ∷ []) refl refl
