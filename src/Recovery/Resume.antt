-- ===== src/Recovery/Resume.antt =====
-- The acknowledged start of rust/src/recovery.rs: whom it runs again, and what it carries.
use text.Mathlib.TextEquality.{eq_iff}
use text.Mathlib.TextPositions.{eq_refl}
use dssp_bot.Prelude.{
  ℕ, ◌+◌, ◌≤◌, String, true, false, not, ◌≡◌, refl, ap, ◌∙◌, ◌≢◌, Option, none, some, List, [], ◌∷◌,
  map, arith, Result, ok, err, length, filter, All, is_some, to_list, length-append, length-map,
  length-filter-le,
}
use dssp_bot.Protocol.{TraineeRef}
use dssp_bot.Report.{Outcome, TrainingResult}
use dssp_bot.Checkpoint.{
  BatchCheckpoint, is_outcome, as_number, mark_interrupted, in_flight_record, unreconciled,
  untracked_suspect, drained_skips, never_attempted, unvouched_queue, unaccounted, promote_suspect,
  unconfirmed_record, legacy_pending_code, legacy_pending_message, legacy_queue_code,
  legacy_queue_message,
}
use dssp_bot.Checkpoint.Partition.{
  placed, promote_suspect-untracked, length-unreconciled, length-never_attempted,
  length-in_flight_record,
}
use dssp_bot.Recovery.Refusal.{differs, suspect_id}
use dssp_bot.Recovery.{
  tracked, untracked, Start, Plan, resume, by_id, carried, continuable, restore_suspect,
  resume_roster, resume_carried, resume_owed, resume_start, promoted, reconcile, guard,
}

filter_all : (ids : List String) → filter (differs none) ids ≡ ids
filter_all [] = refl
filter_all (x ∷ xs) = ap (λ l. x ∷ l) (filter_all xs)

kept_rows :
    (rs : List TrainingResult)
    → length (filter (λ r. not (is_outcome Outcome.skipped r)) rs)
        + length (filter (is_outcome Outcome.skipped) rs)
      ≡ length rs
kept_rows [] = omega arith
kept_rows (r ∷ rs) = ground (arith, kept_rows rs)

-- The plan that a resume of a file that tracks its work gives.
unfoldable pub plan_of : Result Start → Option Plan
plan_of (ok s) = some s.plan
plan_of (err e) = none

length-carried :
    (c : BatchCheckpoint)
    → length (carried c) + length (filter (is_outcome Outcome.skipped) c.results)
      ≡ length c.results + as_number (is_some c.in_flight)
unfolding carried
length-carried c = omega (
  arith,
  kept_rows c.results,
  length-in_flight_record c,
  length-append (filter (λ r. not (is_outcome Outcome.skipped r)) c.results)
      (to_list (in_flight_record c)),
)

resume_whole :
    (c : BatchCheckpoint)
    → length (resume_roster c true none) + length (resume_carried c true none) ≡ placed c
unfolding resume_roster resume_carried restore_suspect continuable
resume_whole c = omega (
  arith,
  length-map by_id (filter (differs none) (never_attempted c)),
  ap length (filter_all (never_attempted c)),
  length-append (carried c) [],
  length-carried c,
  length-never_attempted c,
)

pub placed-mark_interrupted :
    (c : BatchCheckpoint)
    → (placed (mark_interrupted c).1 ≡ placed c)
      × (unaccounted (mark_interrupted c).1 ≡ unaccounted c)
      × (length (unreconciled (mark_interrupted c).1).indeterminate
          ≡ length (unreconciled c).indeterminate)
unfolding mark_interrupted unaccounted unreconciled
placed-mark_interrupted c = ground arith

-- An acknowledged start over a file that tracks its work always continues it, with a roster and
-- carried rows that are together as many trainees as the file places; it owes an answer for each
-- unconfirmed record and each trainee that the file cannot place.
pub resume_partition :
    (path : String) (c : BatchCheckpoint)
    → (roster : List TraineeRef) × (rows : List TrainingResult) × (owed : ℕ) × (plan_of
          (guard path true (ok (some (tracked c)))).0
        ≡ some (resume roster rows owed))
      × (length roster + length rows ≡ placed c)
      × (owed ≡ length (unreconciled c).indeterminate + unaccounted c)
unfolding guard reconcile resume_start promoted untracked_suspect plan_of resume_owed
resume_partition path c =
    let c' = (mark_interrupted c).1 in
    (
      resume_roster c' true none,
      resume_carried c' true none,
      resume_owed c' true,
      refl,
      resume_whole c' ∙ (placed-mark_interrupted c).0,
      omega (arith, placed-mark_interrupted c),
    )

abbrev pub IsNot : String → TraineeRef → Type 0
IsNot id t = t.id ≢ some id

filter-differs :
    (id : String) (ids : List String) → All (IsNot id) (map by_id (filter (differs (some id)) ids))
filter-differs id [] = tt
filter-differs id (x ∷ xs) = ground (arith, filter-differs id xs, eq_refl id, eq_iff x id)

abbrev legacy_suspect : String → TrainingResult
legacy_suspect = unconfirmed_record legacy_pending_code legacy_pending_message

-- The promoted file of an acknowledged start, as it is once its interruption is recorded.
abbrev resumed : BatchCheckpoint → String → BatchCheckpoint
resumed c id = (mark_interrupted (promote_suspect c id).1).1

-- The plan of an acknowledged start over an untracked file with a queue.
untracked_plan :
    (path : String) (c : BatchCheckpoint) (id : String) (ids : List String)
    → c.pending ≡ id ∷ ids
    → plan_of (guard path true (ok (some (untracked c)))).0
      ≡ some (
          resume
            (resume_roster (resumed c id) false (some (legacy_suspect id)))
            (resume_carried (resumed c id) false (some (legacy_suspect id)))
            (resume_owed (resumed c id) false))
unfolding guard reconcile resume_start promoted untracked_suspect plan_of
untracked_plan path c id ids p = simp (p, promoted)

results-resumed : (c : BatchCheckpoint) (id : String) → (resumed c id).results ≡ c.results
unfolding mark_interrupted promote_suspect
results-resumed c id = ground arith

length-roster_untracked :
    (c : BatchCheckpoint) (suspect : Option TrainingResult)
    → length (resume_roster c false suspect)
      ≤ length (filter (is_outcome Outcome.skipped) c.results)
unfolding resume_roster continuable drained_skips
length-roster_untracked c suspect =
    let skips = filter (is_outcome Outcome.skipped) c.results in
    let ids = map (λ (r : TrainingResult). r.trainee_id) skips in
    omega (
      arith,
      length-map by_id (filter (differs (suspect_id suspect)) ids),
      length-filter-le (differs (suspect_id suspect)) ids,
      length-map (λ (r : TrainingResult). r.trainee_id) skips,
    )

abbrev legacy_row : String → TrainingResult
legacy_row = unconfirmed_record legacy_queue_code legacy_queue_message

suspect-head :
    (c : BatchCheckpoint) (id : String) (ids : List String)
    → c.pending ≡ id ∷ ids
    → untracked_suspect c false ≡ some (legacy_suspect id)
unfolding untracked_suspect
suspect-head c id ids p = rw p

fields-resumed :
    (c : BatchCheckpoint)
    → ((mark_interrupted c).1.pending ≡ c.pending)
      × ((mark_interrupted c).1.in_flight ≡ c.in_flight)
unfolding mark_interrupted
fields-resumed c = ground arith

owed_untracked :
    (c : BatchCheckpoint) (id : String) (ids : List String)
    → c.in_flight ≡ none
    → c.pending ≡ id ∷ ids
    → length c.pending ≤ resume_owed (resumed c id) false
unfolding resume_owed unvouched_queue
owed_untracked c id ids f p =
    let (queue, flight, _, _, _) = promote_suspect-untracked c f (suspect-head c id ids p) in
    let (same_queue, same_flight) = fields-resumed (promote_suspect c id).1 in
    omega (
      arith,
      ap length queue,
      ap length same_queue,
      ap (λ o. as_number (is_some o)) (same_flight ∙ flight),
      length-unreconciled (resumed c id),
      length-map legacy_row (resumed c id).pending,
    )

-- An acknowledged start over a file that could not name a trainee in flight, with a queue, has a
-- roster of at most the rows that a drain skipped, none of them under the queue's first id, and
-- owes an answer for at least as many trainees as were queued.
pub untracked_resume_safe :
    (path : String) (c : BatchCheckpoint) (id : String) (ids : List String)
    → c.in_flight ≡ none
    → c.pending ≡ id ∷ ids
    → (roster : List TraineeRef) × (rows : List TrainingResult) × (owed : ℕ) × (plan_of
          (guard path true (ok (some (untracked c)))).0
        ≡ some (resume roster rows owed))
      × All (IsNot id) roster
      × (length roster ≤ length (filter (is_outcome Outcome.skipped) c.results))
      × (length c.pending ≤ owed)
unfolding resume_roster
untracked_resume_safe path c id ids f p =
    let c' = resumed c id in
    (
      resume_roster c' false (some (legacy_suspect id)),
      resume_carried c' false (some (legacy_suspect id)),
      resume_owed c' false,
      untracked_plan path c id ids p,
      filter-differs id (continuable c' false),
      omega (
        arith,
        length-roster_untracked c' (some (legacy_suspect id)),
        ap (λ rs. length (filter (is_outcome Outcome.skipped) rs)) (results-resumed c id),
      ),
      owed_untracked c id ids f p,
    )
