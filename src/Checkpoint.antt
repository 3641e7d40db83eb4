-- ===== src/Checkpoint.antt =====
-- rust/src/checkpoint.rs: the durable snapshot of a batch, and what a later start reads from it.
pub mod Partition
pub mod Gate
use dssp_bot.Prelude.{
  ℕ, ◌+◌, ◌-◌, String, Bool, true, false, not, ◌&&◌, ◌||◌, Option, none, some, List, [], ◌∷◌, ◌++◌,
  map, length, filter, any, head?, to_list, is_some, ltb, str_eq, if◌then◌else◌,
}
use dssp_bot.Report.{Outcome, TrainingResult, outcome_eq}

pub data CheckpointStatus : Type 0 where
  running paused finished interrupted aborted : CheckpointStatus

pub record BatchCheckpoint : Type 0 where
  pub status : CheckpointStatus
  pub started_at : String
  pub updated_at : String
  pub total : ℕ
  pub results : List TrainingResult
  pub pending : List String
  pub in_flight : Option String

abbrev pub in_flight_code : String
in_flight_code = "CRASH_IN_FLIGHT"

abbrev pub in_flight_message : String
in_flight_message =
    "dequeued but no result was recorded — the submission may have reached the portal"

abbrev pub legacy_pending_code : String
legacy_pending_code = "CRASH_UNTRACKED_PENDING"

abbrev pub legacy_pending_message : String
legacy_pending_message =
    "was next in queue when a build without in-flight tracking died — the submission may have reached the portal"

abbrev pub legacy_queue_code : String
legacy_queue_code = "CRASH_UNTRACKED_QUEUE"

abbrev pub legacy_queue_message : String
legacy_queue_message =
    "was still queued in a file that cannot say how far it had got — the submission may have reached the portal"

abbrev live_status : CheckpointStatus → Bool
live_status running = true
live_status paused = true
live_status _ = false

abbrev is_finished : CheckpointStatus → Bool
is_finished finished = true
is_finished _ = false

unfoldable pub is_live : BatchCheckpoint → Bool
is_live c = live_status c.status

-- Whether the status changed, and the checkpoint after the call.
unfoldable pub mark_interrupted : BatchCheckpoint → Bool × BatchCheckpoint
unfolding is_live
mark_interrupted c =
    if not (is_live c) then (false, c) else (true, record c { status = interrupted })

-- A record for a trainee whose submission may have reached the portal.
abbrev pub unconfirmed_record : String → String → String → TrainingResult
unconfirmed_record code message id = record {
  trainee_id = id;
  trainee_name = "";
  outcome = Outcome.indeterminate;
  attempts = 0;
  error_code = some code;
  message = some message;
}

abbrev pub map_option {ℓ κ} : {A : Type ℓ} {B : Type κ} → (A → B) → Option A → Option B
map_option f none = none
map_option f (some a) = some (f a)

unfoldable pub in_flight_record : BatchCheckpoint → Option TrainingResult
in_flight_record c = map_option (unconfirmed_record in_flight_code in_flight_message) c.in_flight

pub record Unreconciled : Type 0 where
  pub indeterminate : List TrainingResult
  pub unprocessed : List String

abbrev pub is_outcome : Outcome → TrainingResult → Bool
is_outcome o r = outcome_eq r.outcome o

unfoldable pub unreconciled : BatchCheckpoint → Unreconciled
unfolding in_flight_record
unreconciled c = record {
  indeterminate =
      filter (is_outcome Outcome.indeterminate) c.results ++ to_list (in_flight_record c);
  unprocessed = c.pending;
}

unfoldable pub untracked_suspect : BatchCheckpoint → Bool → Option TrainingResult
untracked_suspect c tracks_in_flight =
    if tracks_in_flight
    then none
    else map_option (unconfirmed_record legacy_pending_code legacy_pending_message)
        (head? c.pending)

unfoldable pub drained_skips : BatchCheckpoint → List String
drained_skips c = map (λ r. r.trainee_id) (filter (is_outcome Outcome.skipped) c.results)

unfoldable pub never_attempted : BatchCheckpoint → List String
unfolding drained_skips
never_attempted c = drained_skips c ++ c.pending

unfoldable pub unvouched_queue : BatchCheckpoint → List TrainingResult
unvouched_queue c = map (unconfirmed_record legacy_queue_code legacy_queue_message) c.pending

abbrev pub is_settled : TrainingResult → Bool
is_settled r = is_outcome Outcome.success r || is_outcome Outcome.failed r

unfoldable pub settled : BatchCheckpoint → ℕ
settled c = length (filter is_settled c.results)

unfoldable pub records_landed_work : BatchCheckpoint → Bool
unfolding settled
records_landed_work c = not (is_finished c.status) && ltb 0 (settled c)

-- `usize::from` of a Boolean.
abbrev pub as_number : Bool → ℕ
as_number true = 1
as_number false = 0

-- The subtraction saturates at 0.
unfoldable pub unaccounted : BatchCheckpoint → ℕ
unaccounted c = c.total - (length c.results + length c.pending + as_number (is_some c.in_flight))

unfoldable pub has_unconfirmed : BatchCheckpoint → Bool
has_unconfirmed c = is_some c.in_flight || any (is_outcome Outcome.indeterminate) c.results

unfoldable pub blocks_start : BatchCheckpoint → Bool
unfolding has_unconfirmed unaccounted records_landed_work
blocks_start c = has_unconfirmed c || ltb 0 (unaccounted c) || records_landed_work c

-- `Vec::remove` at `position`: the list without the first entry equal to the id, if there is one.
unfoldable pub remove_first : String → List String → Option (List String)
remove_first id [] = none
remove_first id (x ∷ xs) =
    let rest = map_option (λ l. x ∷ l) (remove_first id xs) in if str_eq x id then some xs else rest

promote_to : BatchCheckpoint → String → Option (List String) → Bool × BatchCheckpoint
promote_to c id none = (false, c)
promote_to c id (some pending) = (true, record c { pending = pending; in_flight = some id })

-- Whether anything changed, and the checkpoint after the call.
unfoldable pub promote_suspect : BatchCheckpoint → String → Bool × BatchCheckpoint
unfolding promote_to remove_first
promote_suspect c id =
    if is_some c.in_flight then (false, c) else promote_to c id (remove_first id c.pending)
