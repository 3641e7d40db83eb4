-- ===== src/Command/Exit.antt =====
-- rust/src/main.rs: what an exit code of 0 says of a batch.
use dssp_bot.Prelude.{String, Bool, false, ◌≡◌, List, [], ◌∷◌, arith, All}
use dssp_bot.Report.{Outcome, TrainingResult, build, count}
use dssp_bot.Command.{batch_exit_code}

abbrev pub IsSuccess : TrainingResult → Type 0
IsSuccess r = r.outcome ≡ Outcome.success

all_succeed :
    (rs : List TrainingResult)
    → count Outcome.failed rs ≡ 0
    → count Outcome.skipped rs ≡ 0
    → count Outcome.indeterminate rs ≡ 0
    → All IsSuccess rs
all_succeed [] f s i = tt
all_succeed (r ∷ rs) f s i = ground (arith, all_succeed rs)

-- A batch whose exit code is 0 was not aborted, and every row of its report is a success.
pub exit-IsSuccess :
    (rs : List TrainingResult) (started finished : String) (aborted : Bool)
    → batch_exit_code (build rs started finished aborted) ≡ 0
    → (aborted ≡ false) × All IsSuccess rs
unfolding batch_exit_code build
exit-IsSuccess rs started finished aborted h = ground (arith, all_succeed rs)
