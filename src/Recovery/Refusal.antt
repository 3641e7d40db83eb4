-- ===== src/Recovery/Refusal.antt =====
-- rust/src/recovery.rs: what the operator reads.
use dssp_bot.Prelude.{
  ℕ, ◌-◌, String, Bool, true, not, ◌&&◌, Option, none, some, List, [], ◌∷◌, length, filter, is_some,
  ltb, str_eq, format, decimal, if◌then◌else◌,
}
use dssp_bot.Report.{TrainingResult}
use dssp_bot.Checkpoint.{
  BatchCheckpoint, Unreconciled, settled, unaccounted, records_landed_work, unreconciled,
  never_attempted, map_option,
}

abbrev pub suspect_id : Option TrainingResult → Option String
suspect_id suspect = map_option (λ r. r.trainee_id) suspect

-- `Some(id) != suspect_id`
abbrev pub differs : Option String → String → Bool
differs none id = true
differs (some suspect) id = not (str_eq id suspect)

reason_by_file : BatchCheckpoint → Unreconciled → Option String → String
reason_by_file previous unrec (some id) = format (
    "the process was killed while submitting " ∷ id
    ∷ " — that submission may have reached the portal" ∷ [])
reason_by_file previous unrec none =
    if ltb 0 (unaccounted previous)
    then format (
        "it accounts for "
        ∷ decimal (previous.total - unaccounted previous)
        ∷ " of its "
        ∷ decimal previous.total
        ∷ " trainee(s), so "
        ∷ decimal (unaccounted previous)
        ∷ " cannot be placed at all — check the portal for whoever is missing"
        ∷ [])
    else if records_landed_work previous
    then format (
        "it records "
        ∷ decimal (settled previous)
        ∷ " submission(s) that already settled, on a batch that never wrote its finish — running the job file again would ask the portal for them a second time"
        ∷ [])
    else format (
        decimal (length unrec.indeterminate)
        ∷ " submission(s) may already exist on the portal — check them there before going on"
        ∷ [])

-- The debug assertion of the last branch is not modelled.
unfoldable pub reason : BatchCheckpoint → Unreconciled → Option TrainingResult → String
unfolding reason_by_file
reason previous unrec (some record') = format (
    "the file was written by a build that could not record a submission in flight, so it cannot say how far through its queue it got — "
    ∷ record'.trainee_id ∷ " was next, and anything behind it may be on the portal as well" ∷ [])
reason previous unrec none = reason_by_file previous unrec previous.in_flight

unfoldable pub action : BatchCheckpoint → ℕ → String
action previous never =
    if ltb 0 (unaccounted previous)
    then format (
        "the counts are short by "
        ∷ decimal (unaccounted previous)
        ∷ " — check the portal before deciding anything; a resume will not run them"
        ∷ [])
    else if records_landed_work previous && ltb 0 never
    then format (
        "re-run with DSSP_RESUME=1 to continue the "
        ∷ decimal never
        ∷ " never-attempted trainee(s) — the "
        ∷ decimal (settled previous)
        ∷ " already settled are carried forward, never submitted again"
        ∷ [])
    else if records_landed_work previous
    then "re-run with DSSP_RESUME=1 to close it out — every trainee this file knows about is already settled, so the resume submits nothing"
    else if ltb 0 never
    then format (
        "re-run with DSSP_RESUME=1 to continue the "
        ∷ decimal never
        ∷ " never-attempted trainee(s); nothing unconfirmed is replayed"
        ∷ [])
    else "re-run with DSSP_RESUME=1 to carry the unconfirmed record(s) forward — there is nothing left to attempt"

unfoldable pub refusal :
    String → BatchCheckpoint → Unreconciled → Option TrainingResult → List String → String
unfolding reason action
refusal path previous unrec suspect runnable =
    let never = length (filter (differs (suspect_id suspect)) runnable) in
    let unconfirmed = length unrec.indeterminate in
    let queued =
      if is_some suspect
      then format (decimal never ∷ " a resume would run" ∷ [])
      else format (decimal never ∷ " never attempted" ∷ []) in
    format (
      "dssp-bot: refusing to start — the checkpoint at "
      ∷ path
      ∷ " holds a previous batch that was not closed out\ndssp-bot:   previous batch started "
      ∷ previous.started_at
      ∷ ": "
      ∷ decimal previous.total
      ∷ " trainee(s), "
      ∷ decimal (settled previous)
      ∷ " settled, "
      ∷ decimal unconfirmed
      ∷ " unconfirmed, "
      ∷ queued
      ∷ "\ndssp-bot:   "
      ∷ reason previous unrec suspect
      ∷ "\ndssp-bot:   "
      ∷ action previous never
      ∷ "\ndssp-bot:   or move "
      ∷ path
      ∷ " aside to start a fresh batch, once you have checked the portal"
      ∷ [])

unfoldable pub recovered_line : String → BatchCheckpoint → String
recovered_line path previous = format (
    "dssp-bot: recovered an interrupted batch from "
    ∷ path
    ∷ ": "
    ∷ decimal (settled previous)
    ∷ " settled, "
    ∷ decimal (length (unreconciled previous).indeterminate)
    ∷ " unconfirmed, "
    ∷ decimal (length (never_attempted previous))
    ∷ " never attempted of "
    ∷ decimal previous.total
    ∷ [])

unfoldable pub unreadable : String → String → String
unreadable path error = format (
    "dssp-bot: refusing to start — the checkpoint at " ∷ path ∷ " cannot be read: " ∷ error
    ∷ "\ndssp-bot:   a checkpoint that cannot be read must not be treated as if no batch ran\ndssp-bot:   if you are certain nothing was submitted, move "
    ∷ path ∷ " aside and re-run" ∷ [])
