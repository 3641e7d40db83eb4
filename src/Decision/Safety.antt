-- ===== src/Decision/Safety.antt =====
-- What the policy of rust/src/decision.rs may conclude from a response.
use text.Mathlib.TextEquality.{eq_iff}
use dssp_bot.Prelude.{
  String, Bool, true, false, Option, none, some, ◌≡◌, refl, ◌↔◌, ◌≢◌, arith, unwrap_or,
}
use dssp_bot.Protocol.{Status, Response}
use dssp_bot.Decision.{
  Decision, accept, reject, halt, retry, Settle, success, failed, indeterminate, decide_submit,
  settle_outcome, settle_submit, is_recoverable, aborts_batch,
}

-- The outcomes that the operator's decision and the batch's settling may have together.
abbrev pub Agrees : Decision → Settle → Type 0
Agrees (accept _) success = Unit
Agrees (accept _) (failed code _) = code ≡ "DUPLICATE_RECORD"
Agrees (reject _) (failed code _) = aborts_batch code ≡ false
Agrees (halt _) (indeterminate _) = Unit
Agrees (halt _) (failed code _) = aborts_batch code ≡ true
Agrees (retry _) (Settle.retry _ _) = Unit
Agrees _ _ = ⊥

-- The worker's proof that nothing reached the portal, with an error that a retry can clear.
pub record IsUnsent (resp : Response) : Type 0 where
  pub is_error : resp.status ≡ Status.error
  pub proved : resp.proves_nothing_submitted ≡ some true
  pub recoverable : is_recoverable (unwrap_or resp.error_code "SUBMISSION_FAILED") ≡ true
  pub keeps_batch : aborts_batch (unwrap_or resp.error_code "SUBMISSION_FAILED") ≡ false

submission_failed_lem : aborts_batch "SUBMISSION_FAILED" ≡ false
unfolding aborts_batch
submission_failed_lem = refl

unproved_flag : {o : Option Bool} → o ≢ some true → unwrap_or o false ≡ false
unproved_flag {o = none} h = refl
unproved_flag {o = some false} h = refl
unproved_flag {o = some true} h = absurd (h refl)

abbrev pub is_indeterminate : Settle → Bool
is_indeterminate (indeterminate _) = true
is_indeterminate _ = false

settle_outcome-success :
    (debug : Option String → String) (outcome : Option String) (resp : Response)
    → (settle_outcome debug outcome resp ≡ success) ↔ (outcome ≡ some "confirmed")
unfolding settle_outcome
settle_outcome-success debug none resp = ((λ h. cc), (λ h. cc))
settle_outcome-success debug (some o) resp =
    ((λ h. ground (arith, eq_iff o "confirmed")), (λ h. ground (arith, eq_iff o "confirmed")))

module _ (debug : Option String → String) (resp : Response) where
  -- A response settles as a retry only if it is an error that proves that nothing was submitted, with
  -- a code that a retry can clear and that does not stop the batch.
  pub settle-retry :
      {code message : String} → settle_submit debug resp ≡ Settle.retry code message → IsUnsent resp
  unfolding settle_submit
  settle-retry h = ground arith

  -- An error that does not prove that nothing was submitted, the flag absent or false, settles as
  -- indeterminate, whatever its code.
  pub settle-unproved :
      resp.status ≡ Status.error
      → resp.proves_nothing_submitted ≢ some true
      → is_indeterminate (settle_submit debug resp) ≡ true
  unfolding settle_submit
  settle-unproved s h = ground (arith, unproved_flag h)

  -- A response settles as a success exactly if its status is ok and its outcome is `confirmed`.
  pub settle-success_iff :
      (settle_submit debug resp ≡ success)
      ↔ ((resp.status ≡ Status.ok) × (resp.outcome ≡ some "confirmed"))
  unfolding settle_submit
  settle-success_iff =
      let outcome = settle_outcome-success debug resp.outcome resp in
      ((λ h. ground (arith, outcome.0)), (λ h. ground (arith, outcome.1)))

  -- The operator's decision and the batch's settling agree on every response: accepted is a success
  -- or a duplicate, rejected a failure that does not stop the batch, halted an indeterminate result or
  -- a failure that stops the batch, retried a retry.
  pub decide-settle : Agrees (decide_submit debug resp) (settle_submit debug resp)
  unfolding decide_submit settle_submit
  decide-settle = ground (arith, submission_failed_lem)
