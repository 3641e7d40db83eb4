-- ===== src/Checkpoint/Partition.antt =====
-- The groups of a checkpoint of rust/src/checkpoint.rs: how they cover what the file places.
use text.Mathlib.TextPositions.{eq_refl}
use dssp_bot.Prelude.{
  ℕ, ◌+◌, String, false, ◌≡◌, refl, none, some, List, [], ◌∷◌, arith, length, filter, to_list,
  is_some, length-append, length-map,
}
use dssp_bot.Report.{Outcome, TrainingResult}
use dssp_bot.Checkpoint.{
  BatchCheckpoint, is_outcome, is_settled, as_number, unreconciled, untracked_suspect,
  drained_skips, never_attempted, settled, unaccounted, promote_suspect, in_flight_record,
}

-- How many trainees the file places.
abbrev pub placed : BatchCheckpoint → ℕ
placed c = length c.results + length c.pending + as_number (is_some c.in_flight)

-- How many rows are settled, unconfirmed and skipped; the three are all there are.
rows_partition :
    (rs : List TrainingResult)
    → length (filter is_settled rs)
        + length (filter (is_outcome Outcome.indeterminate) rs)
        + length (filter (is_outcome Outcome.skipped) rs)
      ≡ length rs
rows_partition [] = omega arith
rows_partition (r ∷ rs) = ground (arith, rows_partition rs)

pub length-in_flight_record :
    (c : BatchCheckpoint) → length (to_list (in_flight_record c)) ≡ as_number (is_some c.in_flight)
unfolding in_flight_record
length-in_flight_record c = ground arith

pub length-unreconciled :
    (c : BatchCheckpoint)
    → length (unreconciled c).indeterminate
      ≡ length (filter (is_outcome Outcome.indeterminate) c.results)
        + as_number (is_some c.in_flight)
unfolding unreconciled
length-unreconciled c = omega (
  arith,
  length-in_flight_record c,
  length-append (filter (is_outcome Outcome.indeterminate) c.results)
      (to_list (in_flight_record c)),
)

pub length-never_attempted :
    (c : BatchCheckpoint)
    → length (never_attempted c)
      ≡ length (filter (is_outcome Outcome.skipped) c.results) + length c.pending
unfolding never_attempted
length-never_attempted c = omega (
  arith,
  length-append (drained_skips c) c.pending,
  length-map (λ (r : TrainingResult). r.trainee_id) (filter (is_outcome Outcome.skipped) c.results),
)

-- Whatever the file says, the settled rows, the unconfirmed records and the never attempted
-- trainees together are as many as the file places.
pub groups_cover :
    (c : BatchCheckpoint)
    → settled c + length (unreconciled c).indeterminate + length (never_attempted c) ≡ placed c
unfolding settled
groups_cover c =
    omega (arith, rows_partition c.results, length-unreconciled c, length-never_attempted c)

promote_head :
    (c : BatchCheckpoint) (ids : List String) {s : TrainingResult}
    → c.pending ≡ ids
    → c.in_flight ≡ none
    → untracked_suspect c false ≡ some s
    → let c' = (promote_suspect c s.trainee_id).1 in
      (c.pending ≡ s.trainee_id ∷ c'.pending)
      × (c'.in_flight ≡ some s.trainee_id)
      × (c'.results ≡ c.results)
      × (c'.total ≡ c.total)
unfolding untracked_suspect promote_suspect
promote_head c [] p h e = ground arith
promote_head c (x ∷ xs) p h e = ground (arith, eq_refl x)

-- Promoting the suspect of an untracked file with nothing in flight takes it off the queue's head
-- into `in_flight`: the rows stay, and the number of placed and of missing trainees.
pub promote_suspect-untracked :
    (c : BatchCheckpoint) {s : TrainingResult}
    → c.in_flight ≡ none
    → untracked_suspect c false ≡ some s
    → let c' = (promote_suspect c s.trainee_id).1 in
      (c.pending ≡ s.trainee_id ∷ c'.pending)
      × (c'.in_flight ≡ some s.trainee_id)
      × (c'.results ≡ c.results)
      × (placed c' ≡ placed c)
      × (unaccounted c' ≡ unaccounted c)
unfolding unaccounted
promote_suspect-untracked c h e = ground (arith, promote_head c c.pending refl h e)
