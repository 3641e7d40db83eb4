-- ===== src/Tests/Records.antt =====
-- Checkpoints at concrete inputs.
use dssp_bot.Prelude.{String, ◌≡◌, refl, ◌+◌, none, some, true, [], ◌∷◌, length}
use dssp_bot.Report.{Outcome, TrainingResult}
use dssp_bot.Checkpoint.{
  BatchCheckpoint, running, settled, unreconciled, never_attempted, blocks_start,
}
use dssp_bot.Checkpoint.Partition.{placed, groups_cover}

abbrev pub row : String → Outcome → TrainingResult
row id outcome = record {
  trainee_id = id;
  trainee_name = "";
  outcome = outcome;
  attempts = 0;
  error_code = none;
  message = none;
}

-- Killed behind a drain: nothing in it was sent.
abbrev pub drained : BatchCheckpoint
drained = record {
  status = running;
  started_at = "1";
  updated_at = "2";
  total = 3;
  results = row "1" Outcome.skipped ∷ row "2" Outcome.skipped ∷ [];
  pending = "3" ∷ [];
  in_flight = none;
}

-- Killed with one trainee landed and one in flight.
abbrev pub killed : BatchCheckpoint
killed = record drained {
  results = row "1" Outcome.success ∷ [];
  pending = "3" ∷ [];
  in_flight = some "2";
}

-- Written by a build that could not name the trainee in flight.
abbrev pub old_build : BatchCheckpoint
old_build = record drained { results = row "1" Outcome.success ∷ []; pending = "2" ∷ "3" ∷ [] }

groups_cover_example :
    settled killed + length (unreconciled killed).indeterminate + length (never_attempted killed)
    ≡ placed killed
groups_cover_example = groups_cover killed

killed_blocks : blocks_start killed ≡ true
unfolding blocks_start
killed_blocks = refl
