-- ===== src/Report/Counts.antt =====
-- The counts of a report of rust/src/report.rs place every result once.
use dssp_bot.Prelude.{String, Bool, ◌+◌, ◌≤◌, ◌<◌, ◌≡◌, List, [], ◌∷◌, ◌++◌, arith, length}
use dssp_bot.Report.{Outcome, TrainingResult, count, build}

-- Each outcome counts its own rows, and no row is missed.
pub count_partition :
    (rs : List TrainingResult)
    → count Outcome.success rs
        + count Outcome.failed rs
        + count Outcome.skipped rs
        + count Outcome.indeterminate rs
      ≡ length rs
count_partition [] = omega arith
count_partition (r ∷ rs) = ground (arith, count_partition rs)

pub count-append :
    (o : Outcome) (rs ss : List TrainingResult) → count o (rs ++ ss) ≡ count o rs + count o ss
count-append o [] ss = omega arith
count-append o (r ∷ rs) ss = ground (arith, count-append o rs ss)

-- In a report the four counts add up to the total, which is the number of rows.
pub build_counts :
    (rs : List TrainingResult) (started finished : String) (aborted : Bool)
    → let r = build rs started finished aborted in
      (r.successful + r.failed + r.skipped + r.indeterminate ≡ r.total) × (r.total ≡ length rs)
unfolding build
build_counts rs started finished aborted = ground (arith, count_partition rs)

-- The success rate is a proper fraction: its denominator is positive and bounds its numerator.
pub success_rate_bounds :
    (rs : List TrainingResult) (started finished : String) (aborted : Bool)
    → let r = build rs started finished aborted in
      (0 < r.success_rate.1) × (r.success_rate.0 ≤ r.success_rate.1)
unfolding build
success_rate_bounds rs started finished aborted = ground (arith, count_partition rs)
