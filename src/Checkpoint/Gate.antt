-- ===== src/Checkpoint/Gate.antt =====
-- The start gate of rust/src/checkpoint.rs: which files refuse a plain start.
use dssp_bot.Prelude.{
  String, true, false, ◌≡◌, ◌⊎◌, none, List, [], ◌∷◌, arith, length, filter, any, All,
}
use dssp_bot.Report.{Outcome, TrainingResult}
use dssp_bot.Checkpoint.{
  finished, BatchCheckpoint, is_outcome, is_settled, unaccounted, blocks_start, mark_interrupted,
  promote_suspect,
}

abbrev pub IsSkipped : TrainingResult → Type 0
IsSkipped r = r.outcome ≡ Outcome.skipped

All-IsSkipped :
    (rs : List TrainingResult)
    → any (is_outcome Outcome.indeterminate) rs ≡ false
    → length (filter is_settled rs) ≡ 0
    → All IsSkipped rs
All-IsSkipped [] u s = tt
All-IsSkipped (r ∷ rs) u s = ground (arith, All-IsSkipped rs)

-- A file that lets a plain start through has nothing in flight and no unconfirmed row, and
-- accounts for its total. Unless its batch recorded its finish, every row of it was skipped.
pub open_gate :
    (c : BatchCheckpoint)
    → blocks_start c ≡ false
    → (c.in_flight ≡ none)
      × (unaccounted c ≡ 0)
      × (any (is_outcome Outcome.indeterminate) c.results ≡ false)
      × ((c.status ≡ finished) ⊎ All IsSkipped c.results)
unfolding blocks_start
open_gate c h = ground (arith, All-IsSkipped c.results)

-- Recording the interruption does not open the gate, nor close it.
pub blocks_start-mark_interrupted :
    (c : BatchCheckpoint) → blocks_start (mark_interrupted c).1 ≡ blocks_start c
unfolding blocks_start mark_interrupted
blocks_start-mark_interrupted c = ground arith

-- A file into which a suspect was promoted refuses every plain start.
pub blocks_start-promote_suspect :
    (c : BatchCheckpoint) (id : String)
    → (promote_suspect c id).0 ≡ true
    → blocks_start (promote_suspect c id).1 ≡ true
unfolding blocks_start promote_suspect
blocks_start-promote_suspect c id h = ground arith
