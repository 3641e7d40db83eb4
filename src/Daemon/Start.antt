-- ===== src/Daemon/Start.antt =====
-- rust/src/daemon.rs, `start`: what a request for a batch is admitted to, and what it asks the worker.
pub mod Admitted
use dssp_bot.Prelude.{
  ℕ, ◌==◌, String, Bool, true, false, not, ◌&&◌, ◌||◌, ◌⊎◌, inl, inr, Option, none, some, List, [],
  ◌∷◌, Result, ok, err, any, is_empty, unwrap_or, ltb, length, format, decimal, if◌then◌else◌,
}
use dssp_bot.Protocol.{TraineeRef, SessionInput, Response, Status, TraineeInfo, summary}
use dssp_bot.Protocol.Request
use dssp_bot.Report.{TrainingResult, BatchReport, build}
use dssp_bot.Checkpoint.{BatchCheckpoint}
use dssp_bot.Recovery.{Plan, Start, fresh, resume}
use dssp_bot.Command.{key_of, resolve_against}
use dssp_bot.Engine.Effects.{Env, Action, pure, ◌>>=◌, ◌>>◌, send, new_id}
use dssp_bot.Daemon.Http.{Checked, pass, fail}

pub record BatchRequest : Type 0 where
  pub trainees : List TraineeRef
  pub session : SessionInput
  pub resume : Bool

-- What is done before a worker is asked for: a refusal, the report of a resume that has nothing to
-- run, a batch, or a panic where such a resume has no predecessor.
pub data Admission : Type 0 where
  refused : ℕ → String → Admission
  closes : BatchReport → ℕ → Admission
  admitted : List TraineeRef → List TrainingResult → ℕ → Admission
  panics : Admission

-- `is_blank text` is `text.trim().is_empty()`.
module _ (is_blank : String → Bool) where
  unfoldable pub lacks_key : TraineeRef → Bool
  lacks_key trainee = elim (key_of trainee) [ none ↦ true | some key ↦ is_blank key ]

  unfoldable pub is_incomplete : List TraineeRef → SessionInput → Bool
  unfolding lacks_key
  is_incomplete wanted session =
      any lacks_key wanted
      || (is_blank session.training_date
          || (is_blank session.instructor || is_blank session.training_type))

  -- The report of a resume whose roster is empty.
  unfoldable pub close_batch : List TrainingResult → ℕ → Option BatchCheckpoint → Admission
  close_batch carried owed none = panics
  close_batch carried owed (some previous) =
      closes (build carried previous.started_at previous.updated_at (ltb 0 owed)) owed

  unfoldable pub admit_roster :
      BatchRequest
      → Bool
      → Option BatchCheckpoint
      → List TraineeRef
      → List TrainingResult
      → ℕ
      → Admission
  unfolding is_incomplete close_batch
  admit_roster req resumed previous wanted carried owed =
      if is_empty wanted && not resumed
      then refused 422 "trainees is empty"
      else if is_incomplete wanted req.session
      then refused 422 "trainees need an id/name and session fields must not be empty"
      else if is_empty wanted
      then close_batch carried owed previous
      else admitted wanted carried owed

  unfoldable pub admit_plan : BatchRequest → Option BatchCheckpoint → Plan → Admission
  unfolding admit_roster
  admit_plan req previous fresh = admit_roster req false previous req.trainees [] 0
  admit_plan req previous (resume roster carried owed) =
      admit_roster req true previous roster carried owed

  -- `guarded` is the answer of the start gate, which comes before any call of the factory.
  unfoldable pub admit_batch : BatchRequest → Result Start → Admission
  unfolding admit_plan
  admit_batch req (err refusal) = refused 409 refusal
  admit_batch req (ok start) = admit_plan req start.previous start.plan

-- `ensure`, as the reply's error.
unfoldable pub ensure_fault : Result Response → Option String
ensure_fault (err e) = some e
ensure_fault (ok resp) = elim resp.status [ Status.ok ↦ none | _ ↦ some (summary resp) ]

-- The problems, one to a line.
unfoldable pub joined : List String → String
joined [] = ""
joined (p ∷ []) = p
joined (p ∷ q ∷ rest) = let later = joined (q ∷ rest) in format (p ∷ "\n  - " ∷ later ∷ [])

module _ (normalize : String → String) where
  unfoldable pub roster_of :
      List TraineeRef → (List TraineeRef) ⊎ (List String) → Checked (List TraineeRef)
  unfolding joined
  roster_of wanted (inl roster) = pass roster
  roster_of wanted (inr problems) = fail 422 (
      format (
        "cannot resolve "
        ∷ decimal (length problems)
        ∷ " of "
        ∷ decimal (length wanted)
        ∷ " trainee(s):\n  - "
        ∷ joined problems
        ∷ []))

  unfoldable pub listed_roster : List TraineeRef → Result Response → Checked (List TraineeRef)
  unfolding roster_of
  listed_roster wanted (err e) = fail 502 e
  listed_roster wanted (ok resp) = elim resp.status [
    | Status.ok ↦ roster_of wanted (resolve_against normalize (unwrap_or resp.trainees []) wanted)
    | _ ↦ fail 502 (summary resp)
  ]

  module _ (env : Env) where
    unfoldable pub list_roster :
        List TraineeRef → Option String → Action (Checked (List TraineeRef))
    unfolding listed_roster
    list_roster wanted (some e) = pure (fail 502 e)
    list_roster wanted none = do
      id ← new_id env
      listed ← send env (Request.list_trainees id)
      pure (listed_roster wanted listed)

    -- The roster of an admitted batch; `made` is what the factory returned.
    unfoldable pub ask_worker :
        List TraineeRef → Result (Unit {0}) → Action (Checked (List TraineeRef))
    unfolding list_roster ensure_fault
    ask_worker wanted (err e) = pure (fail 502 e)
    ask_worker wanted (ok worker) = do
      id ← new_id env
      reply ← send env (Request.ensure_session id)
      list_roster wanted (ensure_fault reply)
