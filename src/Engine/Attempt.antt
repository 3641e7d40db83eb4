-- ===== src/Engine/Attempt.antt =====
-- rust/src/engine.rs, `process_trainee`: one trainee, submitted under the retry policy.
use dssp_bot.Prelude.{
  ℕ, zero, suc, ◌+◌, String, Option, none, some, [], ◌∷◌, Result, ok, err, unwrap_or, leb, format,
  decimal, if◌then◌else◌,
}
use dssp_bot.Protocol.{TraineeRef, SessionInput, Response, TraineeResolved}
use dssp_bot.Protocol.Request
use dssp_bot.Report.{Outcome, TrainingResult}
use dssp_bot.Decision.{
  RetryPolicy, Settle, success, failed, indeterminate, settle_submit, delay_for_attempt,
}
use dssp_bot.State.{loading_trainee, submitting, verifying, retrying}
use dssp_bot.Engine.Effects.{
  Env, Action, pure, end, out_of_fuel, backed_off, ◌>>=◌, ◌>>◌, emit, try_transition, send, new_id,
  stop_requested,
}

abbrev pub operator_stop : String
operator_stop = "not submitted: operator stop"

abbrev pub skipped_result : TraineeRef → String → TrainingResult
skipped_result trainee reason = record {
  trainee_id = unwrap_or trainee.id "";
  trainee_name = unwrap_or trainee.name "";
  outcome = Outcome.skipped;
  attempts = 0;
  error_code = none;
  message = some reason;
}

-- What one reply makes of the trainee: a result, or another attempt with the result that an
-- operator's stop would leave.
pub data Verdict : Type 0 where
  settled again : TrainingResult → Verdict

resolved_id : Option TraineeResolved → TraineeRef → String
resolved_id (some t) trainee = t.id
resolved_id none trainee = unwrap_or trainee.id ""

resolved_name : Option TraineeResolved → TraineeRef → String
resolved_name (some t) trainee = t.name
resolved_name none trainee = unwrap_or trainee.name ""

abbrev result_of :
    TraineeRef → Response → Outcome → ℕ → Option String → Option String → TrainingResult
result_of trainee resp outcome attempts error_code message = record {
  trainee_id = resolved_id resp.trainee trainee;
  trainee_name = resolved_name resp.trainee trainee;
  outcome = outcome;
  attempts = attempts;
  error_code = error_code;
  message = message;
}

unfoldable pub judge : RetryPolicy → TraineeRef → Response → ℕ → Settle → Verdict
unfolding resolved_id resolved_name
judge policy trainee resp attempts success =
    settled (result_of trainee resp Outcome.success attempts none resp.reference)
judge policy trainee resp attempts (failed code message) =
    settled (result_of trainee resp Outcome.failed attempts (some code) (some message))
judge policy trainee resp attempts (indeterminate message) =
    settled (result_of trainee resp Outcome.indeterminate attempts resp.error_code (some message))
judge policy trainee resp attempts (Settle.retry code message) =
    if leb policy.max_attempts attempts
    then settled (
        result_of trainee resp Outcome.failed attempts (some code)
          (some (format ("gave up after " ∷ decimal attempts ∷ " attempts: " ∷ message ∷ []))))
    else again (
        result_of trainee resp Outcome.failed attempts (some code)
          (some (format ("operator stop before retry: " ∷ message ∷ []))))

abbrev transport_error : TraineeRef → ℕ → String → TrainingResult
transport_error trainee attempts e = record {
  trainee_id = unwrap_or trainee.id "";
  trainee_name = unwrap_or trainee.name "";
  outcome = Outcome.indeterminate;
  attempts = attempts;
  error_code = some "NETWORK";
  message = some (format ("transport error: " ∷ e ∷ []));
}

module _ (env : Env) (policy : RetryPolicy) (session : SessionInput) (trainee : TraineeRef) where
  -- Both waits of the source, the interruptible one under control and the plain sleep, last at most
  -- the delay; a stop that ended the wait is read at the head of the next round.
  unfoldable pub back_off : ℕ → Action (Unit {0})
  back_off attempts = emit (backed_off (delay_for_attempt policy attempts))

  -- What follows a verdict; `next` is the next round of the loop.
  unfoldable pub follow :
      (ℕ → Option TrainingResult → Action TrainingResult) → ℕ → Verdict → Action TrainingResult
  follow next attempts (settled result) = do try_transition verifying; pure result
  follow next attempts (again result) = do
    try_transition retrying
    back_off attempts
    next attempts (some result)

  -- What follows a reply; a transport error leaves the submission's state unknown.
  unfoldable pub conclude :
      (ℕ → Option TrainingResult → Action TrainingResult)
      → ℕ
      → Result Response
      → Action TrainingResult
  conclude next attempts (err e) = pure (transport_error trainee attempts e)
  conclude next attempts (ok resp) =
      follow next attempts (judge policy trainee resp attempts (settle_submit env.debug resp))

  -- The loop. The fuel is the number of rounds; `max_attempts` of them, and at least one, are enough.
  unfoldable pub attempt_loop : String → ℕ → ℕ → Option TrainingResult → Action TrainingResult
  attempt_loop job_id zero attempts retry_result = end out_of_fuel
  attempt_loop job_id (suc rounds) attempts retry_result = do
    stopped ← stop_requested env
    if stopped then pure (unwrap_or retry_result (skipped_result trainee operator_stop)) else do
      try_transition submitting
      reply ← send env (Request.submit_training job_id trainee session)
      conclude (attempt_loop job_id rounds) (attempts + 1) reply

  unfoldable pub process_trainee : Action TrainingResult
  process_trainee = do
    try_transition loading_trainee
    job_id ← new_id env
    attempt_loop job_id (suc policy.max_attempts) 0 none
