-- ===== src/Command.antt =====
-- rust/src/main.rs: what a job file asks for, whom it names on the portal, and the exit codes.
pub mod Names
pub mod Asked
pub mod Resolution
pub mod Exit
pub mod Single
pub mod Batch
use dssp_bot.Prelude.{
  ℕ, ◌+◌, String, Bool, true, false, ◌||◌, ◌⊎◌, inl, inr, Option, none, some, List, [], ◌∷◌, Result,
  ok, err, length, filter, any, is_empty, is_some, ltb, ◌==◌, or_else, unwrap_or, str_eq, format,
  decimal, if◌then◌else◌,
}
use dssp_bot.Protocol.{TraineeRef, TraineeInfo, SessionInput}
use dssp_bot.Report.{BatchReport}

pub record Job : Type 0 where
  pub trainee : Option TraineeRef
  pub trainees : Option (List TraineeRef)
  pub session : SessionInput

pub data Plan : Type 0 where
  single : TraineeRef → Plan
  batch : List TraineeRef → Plan

abbrev pub key_of : TraineeRef → Option String
key_of trainee = or_else trainee.id trainee.name

-- The first entry that names nobody.
unfoldable pub keyless : ℕ → List TraineeRef → Option ℕ
keyless index [] = none
keyless index (trainee ∷ rest) =
    let later = keyless (index + 1) rest in if is_some (key_of trainee) then later else some index

plan_batch : List TraineeRef → Option ℕ → Result Plan
plan_batch trainees none = ok (batch trainees)
plan_batch trainees (some index) =
    err (format ("trainees[" ∷ decimal index ∷ "] needs an 'id' or a 'name'" ∷ []))

plan_by : Option TraineeRef → Option (List TraineeRef) → Result Plan
plan_by (some _) (some _) = err "job has both 'trainee' and 'trainees' — use exactly one"
plan_by (some trainee) none =
    if is_some (key_of trainee)
    then ok (single trainee)
    else err "'trainee' needs an 'id' or a 'name'"
plan_by none (some trainees) =
    if is_empty trainees
    then err "'trainees' is empty — nothing to submit"
    else plan_batch trainees (keyless 0 trainees)
plan_by none none = err "job needs 'trainee' or 'trainees'"

unfoldable pub plan : Job → Result Plan
unfolding plan_by plan_batch
plan job = plan_by job.trainee job.trainees

-- The trainee that an entry names on the portal, or why it names none.
pub data Found : Type 0 where
  one : TraineeInfo → Found
  unknown_id unknown_name : Found
  shared : ℕ → Found

-- A map from ids, in which a later trainee replaces an earlier one.
unfoldable pub lookup_id : List TraineeInfo → String → Option TraineeInfo
lookup_id [] id = none
lookup_id (t ∷ available) id =
    or_else (lookup_id available id) (if str_eq t.id id then some t else none)

pub found_id : Option TraineeInfo → Found
found_id (some t) = one t
found_id none = unknown_id

pub found_names : List TraineeInfo → Found
found_names [] = unknown_name
found_names (t ∷ []) = one t
found_names (t ∷ u ∷ rest) = shared (length (t ∷ u ∷ rest))

-- `normalize` is `normalize_name`: its words in upper case, joined by single spaces.
module _ (normalize : String → String) (available : List TraineeInfo) where
  pub find_by : Option String → Option String → Found
  find_by (some id) name = found_id (lookup_id available id)
  find_by none name =
      found_names
        (filter (λ t. str_eq (normalize t.name) (normalize (unwrap_or name ""))) available)

  unfoldable pub find : TraineeRef → Found
  unfolding find_by found_id found_names
  find entry = find_by entry.id entry.name

  unfoldable pub problem : String → Found → String
  problem label (one t) = ""
  problem label unknown_id = format (label ∷ ": no trainee with that id on the portal" ∷ [])
  problem label unknown_name = format (label ∷ ": no trainee with that name on the portal" ∷ [])
  problem label (shared count) =
      format (label ∷ ": " ∷ decimal count ∷ " trainees share that name — give the trainee id" ∷ [])

  abbrev pub resolved_ref : TraineeInfo → TraineeRef
  resolved_ref t = record { id = some t.id; name = none }

  -- A trainee is queued unless it was seen; `rest` is what the later entries add, given the ids seen.
  unfoldable pub enlist :
      TraineeInfo
      → List String
      → (List String → List TraineeRef × List String)
      → Bool
      → List TraineeRef × List String
  enlist t seen rest true = rest seen
  enlist t seen rest false =
      let (resolved, problems) = rest (t.id ∷ seen) in (resolved_ref t ∷ resolved, problems)

  -- What an entry adds, to the roster or to the problems.
  unfoldable pub add :
      String
      → List String
      → (List String → List TraineeRef × List String)
      → Found
      → List TraineeRef × List String
  add label seen rest (one t) = enlist t seen rest (any (λ s. str_eq s t.id) seen)
  add label seen rest unknown_id = ((rest seen).0, problem label unknown_id ∷ (rest seen).1)
  add label seen rest unknown_name = ((rest seen).0, problem label unknown_name ∷ (rest seen).1)
  add label seen rest (shared n) = ((rest seen).0, problem label (shared n) ∷ (rest seen).1)

  unfoldable pub resolve_from : ℕ → List TraineeRef → List String → List TraineeRef × List String
  resolve_from index [] seen = ([], [])
  resolve_from index (entry ∷ entries) seen =
      add (unwrap_or (key_of entry) (format ("#" ∷ decimal index ∷ []))) seen
        (resolve_from (index + 1) entries) (find entry)

  unfoldable pub roster_or : List TraineeRef → List String → (List TraineeRef) ⊎ (List String)
  roster_or resolved [] = inl resolved
  roster_or resolved (p ∷ problems) = inr (p ∷ problems)

  -- The roster, or the problems.
  unfoldable pub resolve_against : List TraineeRef → (List TraineeRef) ⊎ (List String)
  unfolding add enlist problem roster_or resolve_from
  resolve_against trainees =
      let (resolved, problems) = resolve_from 0 trainees [] in roster_or resolved problems

-- What `announce_resume` returns: an empty roster ends the run.
unfoldable pub resume_exit : List TraineeRef → ℕ → Option ℕ
resume_exit roster owed = if is_empty roster then some (if owed == 0 then 0 else 3) else none

unfoldable pub batch_exit_code : BatchReport → ℕ
batch_exit_code report =
    if report.aborted || ltb 0 report.indeterminate || ltb 0 report.skipped
    then 3
    else if ltb 0 report.failed
    then 4
    else 0
