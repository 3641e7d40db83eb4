-- ===== src/Tests/Policy.antt =====
-- The policy, the state machine, the queue and the report at concrete inputs.
use dssp_bot.Prelude.{
  ℕ, String, ◌≡◌, refl, ◌*◌, ◌^◌, ◌-◌, min, Option, none, some, true, List, [], ◌∷◌, arith,
}
use mathlib.Core.List.{Memᴰ}
use dssp_bot.Protocol.{Status, Response, bare_response}
use dssp_bot.State.{initializing, submitting, retrying, transition_to, new}
use dssp_bot.State.Reach.{attempt, active_needs_initializing}
use dssp_bot.Queue.{QueueTask}
use dssp_bot.Report.{Outcome, TrainingResult}
use dssp_bot.Decision.{
  Settle, halt, accept, decide_submit, settle_submit, default_policy, delay_for_attempt,
  is_recoverable, aborts_batch,
}
use dssp_bot.Decision.Safety.{Agrees, decide-settle}
use dssp_bot.Decision.Backoff.{delay_exact}

abbrev debug : Option String → String
debug none = "None"
debug (some s) = s

abbrev network_unsent : Response
network_unsent = record (bare_response Status.error) {
  error_code = some "NETWORK";
  message = some "reset";
  proves_nothing_submitted = some true;
}

abbrev network_unknown : Response
network_unknown = record network_unsent { proves_nothing_submitted = none }

abbrev confirmed : Response
confirmed = record (bare_response Status.ok) {
  outcome = some "confirmed";
  reference = some "REF-1";
}

unsent_retries : settle_submit debug network_unsent ≡ Settle.retry "NETWORK" "reset"
unfolding settle_submit aborts_batch is_recoverable
unsent_retries = refl

confirmed_accepted : decide_submit debug confirmed ≡ accept "confirmed (ref REF-1)"
unfolding decide_submit
confirmed_accepted = refl

unknown_halts :
    decide_submit debug network_unknown
    ≡ halt "NETWORK — reset (submission may have landed; not retrying)"
unfolding decide_submit aborts_batch
unknown_halts = refl

decide-settle_example :
    Agrees (decide_submit debug network_unknown) (settle_submit debug network_unknown)
decide-settle_example = decide-settle debug network_unknown

delay_exact_example : delay_for_attempt default_policy 4 ≡ min (500 * 2 ^ (4 - 1)) 5000
delay_exact_example = delay_exact default_policy 4 (omega arith)

delays :
    (delay_for_attempt default_policy 0 ≡ 500)
    × (delay_for_attempt default_policy 3 ≡ 2000)
    × (delay_for_attempt default_policy 50 ≡ 5000)
unfolding delay_for_attempt
delays = (refl, refl, refl)

active_needs_initializing_example : Memᴰ initializing (initializing ∷ retrying ∷ submitting ∷ [])
unfolding attempt transition_to new
active_needs_initializing_example =
    active_needs_initializing (initializing ∷ retrying ∷ submitting ∷ []) refl

abbrev tasks : List (QueueTask ℕ)
tasks = record { id = "a"; payload = 1 } ∷ record { id = "b"; payload = 2 } ∷ []

abbrev row : Outcome → TrainingResult
row outcome = record {
  trainee_id = "1";
  trainee_name = "Ada";
  outcome = outcome;
  attempts = 1;
  error_code = none;
  message = none;
}

abbrev rows : List TrainingResult
rows = row Outcome.success ∷ row Outcome.skipped ∷ row Outcome.indeterminate ∷ []
