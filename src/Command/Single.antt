-- ===== src/Command/Single.antt =====
-- rust/src/main.rs, `run_single`: one trainee, submitted outside a batch.
pub mod Settled
use dssp_bot.Prelude.{
  ℕ, zero, suc, ◌+◌, ◌≤◌, ◌<◌, String, Bool, true, false, ◌≡◌, refl, sym, ap, ◌∙◌, Option, none,
  some, List, [], ◌∷◌, Result, ok, err, leb, format, decimal, arith, if◌then◌else◌,
}
use dssp_bot.Protocol.{TraineeRef, SessionInput, Response, Status}
use dssp_bot.Protocol.Request
use dssp_bot.Decision.{
  Decision, accept, reject, halt, retry, decide_submit, default_policy, delay_for_attempt,
}
use dssp_bot.Decision.Safety.{IsUnsent}
use dssp_bot.Engine.Effects.{
  Env, Event, sent, Trace, World, Action, pure, end, out_of_fuel, backed_off, ◌>>=◌, ◌>>◌, emit,
  send, new_id,
}
use dssp_bot.Engine.Safety.{AllEvents, SafeRepeat, MayRepeat, last_reply}
use dssp_bot.Engine.Termination.{Ends, Ends-pure, Ends-exchange, Ends-bind, Ends-weaken}

-- The line on stdout, if one is printed, and the exit code.
abbrev pub Answer : Type 0
Answer = Option String × ℕ

-- Whether the reply to `ensure_session` says that the session is there.
unfoldable pub ensured : Result Response → Bool
ensured (err e) = false
ensured (ok resp) = elim resp.status [ Status.ok ↦ true | _ ↦ false ]

module _ (env : Env) (session : SessionInput) (trainee : TraineeRef) where
  unfoldable pub single_delay : ℕ → Action (Unit {0})
  single_delay attempt = emit (backed_off (delay_for_attempt default_policy attempt))

  -- What follows a decision; `next` is the next round of the loop.
  unfoldable pub follow_decision : (ℕ → Action Answer) → ℕ → Decision → Action Answer
  follow_decision next attempt (accept s) = pure (some (format ("RESULT: " ∷ s ∷ [])), 0)
  follow_decision next attempt (reject s) = pure (some (format ("FAILED: " ∷ s ∷ [])), 4)
  follow_decision next attempt (halt s) = pure (some (format ("HALT: " ∷ s ∷ [])), 3)
  follow_decision next attempt (retry s) =
      if leb default_policy.max_attempts attempt
      then pure
          (some (format ("FAILED: gave up after " ∷ decimal attempt ∷ " attempts — " ∷ s ∷ [])), 4)
      else single_delay attempt >> next attempt

  unfoldable pub conclude_single : (ℕ → Action Answer) → ℕ → Result Response → Action Answer
  unfolding follow_decision
  conclude_single next attempt (err e) =
      pure (some (format ("HALT: transport error, submission state unknown: " ∷ e ∷ [])), 3)
  conclude_single next attempt (ok resp) =
      follow_decision next attempt (decide_submit env.debug resp)

  -- The loop. The fuel is the number of rounds; `max_attempts` of them are enough.
  unfoldable pub single_loop : String → ℕ → ℕ → Action Answer
  unfolding conclude_single
  single_loop job_id zero attempt = end out_of_fuel
  single_loop job_id (suc rounds) attempt = do
    reply ← send env (Request.submit_training job_id trainee session)
    conclude_single (single_loop job_id rounds) (attempt + 1) reply

  unfoldable pub submit_single : Action Answer
  submit_single = do
    options_id ← new_id env
    options ← send env (Request.get_form_options options_id none)
    job_id ← new_id env
    single_loop job_id default_policy.max_attempts 0

  -- `connected` is what `connect` returned: the worker, or why there is none.
  unfoldable pub run_single : Result (Unit {0}) → Action Answer
  run_single (err e) = pure (none, 1)
  run_single (ok worker) = do
    id ← new_id env
    reply ← send env (Request.ensure_session id)
    if ensured reply then submit_single else pure (none, 1)
