-- ===== src/Recovery.antt =====
-- rust/src/recovery.rs: what a start may do with the checkpoint slot, once the file there was read.
pub mod Refusal
pub mod Gate
pub mod Resume
pub mod CloseOut
pub mod Crash
use dssp_bot.Prelude.{
  ℕ, ◌+◌, String, Bool, true, false, not, ◌&&◌, ◌||◌, Option, none, some, List, [], ◌∷◌, ◌++◌, map,
  length, filter, is_empty, to_list, is_some, str_eq, ◌==◌, Result, ok, err, if◌then◌else◌,
}
use dssp_bot.Protocol.{TraineeRef}
use dssp_bot.Report.{Outcome, TrainingResult}
use dssp_bot.Checkpoint.{
  finished, BatchCheckpoint, in_flight_code, is_outcome, mark_interrupted, in_flight_record,
  unreconciled, untracked_suspect, drained_skips, never_attempted, unvouched_queue, unaccounted,
  blocks_start, promote_suspect,
}
use dssp_bot.Recovery.Refusal.{differs, suspect_id, refusal, unreadable}

-- rust/src/store.rs: a checkpoint as it was on disk, and whether the file has the `in_flight` key.
pub record StoredCheckpoint : Type 0 where
  pub checkpoint : BatchCheckpoint
  pub tracks_in_flight : Bool

-- A file of a build that tracks its work, and of one that does not.
abbrev pub tracked : BatchCheckpoint → StoredCheckpoint
tracked c = record { checkpoint = c; tracks_in_flight = true }

abbrev pub untracked : BatchCheckpoint → StoredCheckpoint
untracked c = record { checkpoint = c; tracks_in_flight = false }

pub data Plan : Type 0 where
  fresh : Plan
  -- The roster, the carried rows, and how many of them a human owes an answer for.
  resume : List TraineeRef → List TrainingResult → ℕ → Plan

pub record Start : Type 0 where
  pub plan : Plan
  pub previous : Option BatchCheckpoint
  pub recovered : Bool

abbrev pub by_id : String → TraineeRef
by_id id = record { id = some id; name = none }

unfoldable pub carried : BatchCheckpoint → List TrainingResult
carried previous =
    filter (λ r. not (is_outcome Outcome.skipped r)) previous.results
    ++ to_list (in_flight_record previous)

unfoldable pub continuable : BatchCheckpoint → Bool → List String
continuable previous tracks_in_flight =
    if tracks_in_flight then never_attempted previous else drained_skips previous

abbrev has_code : Option String → String → Bool
has_code none code = false
has_code (some c) code = str_eq c code

-- The suspect's own record in place of the one that the promotion synthesizes.
unfoldable pub restore_suspect : Option TrainingResult → List TrainingResult → List TrainingResult
restore_suspect none records = records
restore_suspect (some suspect) records =
    map (λ slot. if has_code slot.error_code in_flight_code then suspect else slot) records

unfoldable pub resume_roster : BatchCheckpoint → Bool → Option TrainingResult → List TraineeRef
resume_roster previous tracks_in_flight suspect =
    map by_id (filter (differs (suspect_id suspect)) (continuable previous tracks_in_flight))

abbrev pub stranded : BatchCheckpoint → Bool → List TrainingResult
stranded previous tracks_in_flight = if tracks_in_flight then [] else unvouched_queue previous

unfoldable pub resume_owed : BatchCheckpoint → Bool → ℕ
resume_owed previous tracks_in_flight =
    length (unreconciled previous).indeterminate
    + length (stranded previous tracks_in_flight)
    + unaccounted previous

unfoldable pub resume_carried : BatchCheckpoint → Bool → Option TrainingResult → List TrainingResult
resume_carried previous tracks_in_flight suspect =
    restore_suspect suspect (carried previous) ++ stranded previous tracks_in_flight

-- The start, and the checkpoints given to the store, in order. A failed save is only reported.
abbrev pub Guarded : Type 0
Guarded = Result Start × List BatchCheckpoint

unfoldable pub resume_start :
    StoredCheckpoint
    → Option TrainingResult
    → Bool
    → BatchCheckpoint
    → List BatchCheckpoint
    → Guarded
resume_start loaded suspect recovered previous saved =
    let tracks = loaded.tracks_in_flight in
    let roster = resume_roster previous tracks suspect in
    let owed = resume_owed previous tracks in
    let closes = is_empty roster && owed == 0 in
    let last = if closes then record previous { status = finished } else previous in
    (
      ok (record {
        plan = resume roster (resume_carried previous tracks suspect) owed;
        previous = some last;
        recovered = recovered;
      }),
      saved ++ (if closes then last ∷ [] else []),
    )

-- The file with the suspect of an untracked one in flight.
unfoldable pub promoted : StoredCheckpoint → BatchCheckpoint
promoted loaded = elim (untracked_suspect loaded.checkpoint loaded.tracks_in_flight) [
  | none ↦ loaded.checkpoint
  | some suspect ↦ (promote_suspect loaded.checkpoint suspect.trainee_id).1
]

unfoldable pub reconcile : String → Bool → StoredCheckpoint → Guarded
reconcile path resuming loaded =
    let suspect = untracked_suspect loaded.checkpoint loaded.tracks_in_flight in
    let before = promoted loaded in
    let blocked = blocks_start before in
    let (recovered, previous) = mark_interrupted before in
    let saved = if recovered || is_some suspect then previous ∷ [] else [] in
    if resuming
    then resume_start loaded suspect recovered previous saved
    else if blocked
    then (
      err (
          refusal path previous (unreconciled before) suspect
            (continuable previous loaded.tracks_in_flight)),
      saved,
    )
    else (ok (record { plan = fresh; previous = some previous; recovered = recovered }), saved)

unfoldable pub guard : String → Bool → Result (Option StoredCheckpoint) → Guarded
guard path resuming (err e) = (err (unreadable path e), [])
guard path resuming (ok none) =
    (ok (record { plan = fresh; previous = none; recovered = false }), [])
guard path resuming (ok (some loaded)) = reconcile path resuming loaded
