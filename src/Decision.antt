-- ===== src/Decision.antt =====
-- rust/src/decision.rs: the retry and stop policy over a worker's response.
pub mod Safety
pub mod Backoff
use dssp_bot.Prelude.{
  ℕ, zero, suc, ◌-◌, ◌*◌, ◌^◌, min, String, Bool, true, false, not, ◌&&◌, ◌||◌, Option, none, some,
  List, [], ◌∷◌, unwrap_or, str_eq, format, if◌then◌else◌,
}
use dssp_bot.Protocol.{Status, Response}

pub data Decision : Type 0 where
  accept reject halt retry : String → Decision

pub record RetryPolicy : Type 0 where
  pub max_attempts : ℕ  -- u32
  pub initial_delay_ms : ℕ  -- u64
  pub max_delay_ms : ℕ  -- u64
  pub backoff_factor : ℕ  -- u64

abbrev pub default_policy : RetryPolicy
default_policy = record {
  max_attempts = 3;
  initial_delay_ms = 500;
  max_delay_ms = 5000;
  backoff_factor = 2;
}

abbrev pub u64_max : ℕ
u64_max = 2 ^ 64 - 1

unfoldable pub saturating_mul : ℕ → ℕ → ℕ
saturating_mul a b = min (a * b) u64_max

unfoldable pub saturating_pow : ℕ → ℕ → ℕ
saturating_pow a n = min (a ^ n) u64_max

-- In milliseconds. The attempt is a `u32` whose subtraction saturates at 0.
unfoldable pub delay_for_attempt : RetryPolicy → ℕ → ℕ
unfolding saturating_mul saturating_pow
delay_for_attempt p attempt =
    let raw = saturating_mul p.initial_delay_ms (saturating_pow p.backoff_factor (attempt - 1)) in
    min raw p.max_delay_ms

unfoldable pub is_recoverable : String → Bool
is_recoverable code =
    str_eq code "ELEMENT_NOT_FOUND"
    || str_eq code "TIMEOUT"
    || str_eq code "NETWORK"
    || str_eq code "PORTAL_UNAVAILABLE"

unfoldable pub aborts_batch : String → Bool
aborts_batch code = str_eq code "SESSION_EXPIRED" || str_eq code "PORTAL_STRUCTURE_CHANGED"

pub data Settle : Type 0 where
  success : Settle
  failed : String → String → Settle
  indeterminate : String → Settle
  retry : String → String → Settle

-- `debug` is Rust's `Debug` rendering of an `Option<&str>`.
module _ (debug : Option String → String) where
  decide_outcome : Option String → Response → Decision
  decide_outcome none resp = halt (format ("unrecognized outcome " ∷ debug none ∷ []))
  decide_outcome (some outcome) resp =
      if str_eq outcome "confirmed"
      then accept (elim resp.reference [
        | some r ↦ format ("confirmed (ref " ∷ r ∷ ")" ∷ [])
        | none ↦ "confirmed"
      ])
      else if str_eq outcome "duplicate"
      then accept (format ("duplicate — " ∷ unwrap_or resp.message "already recorded" ∷ []))
      else if str_eq outcome "rejected"
      then reject (format ("rejected — " ∷ unwrap_or resp.message "portal refused the record" ∷ []))
      else if str_eq outcome "indeterminate"
      then halt (
          format (
            "indeterminate — "
            ∷ unwrap_or resp.message "no readable result"
            ∷ " (submitted but unconfirmed; verify on the portal before re-running)"
            ∷ []))
      else halt (format ("unrecognized outcome " ∷ debug (some outcome) ∷ []))

  decide_error : Response → Decision
  decide_error resp =
      let code = unwrap_or resp.error_code "SUBMISSION_FAILED" in
      let proves_nothing = unwrap_or resp.proves_nothing_submitted false in
      let message = unwrap_or resp.message "" in
      if aborts_batch code
      then halt (format (code ∷ " — " ∷ message ∷ []))
      else if not proves_nothing
      then halt
          (format (code ∷ " — " ∷ message ∷ " (submission may have landed; not retrying)" ∷ []))
      else if is_recoverable code
      then retry (format (code ∷ " — " ∷ message ∷ []))
      else reject (format (code ∷ " — " ∷ message ∷ []))

  decide_by : Status → Response → Decision
  decide_by Status.ok resp = decide_outcome resp.outcome resp
  decide_by Status.error resp = decide_error resp
  decide_by Status.ready resp = halt "unexpected ready line mid-flow"

  unfoldable pub decide_submit : Response → Decision
  unfolding decide_by decide_outcome decide_error
  decide_submit resp = decide_by resp.status resp

  settle_outcome : Option String → Response → Settle
  settle_outcome none resp = indeterminate (format ("unrecognized outcome " ∷ debug none ∷ []))
  settle_outcome (some outcome) resp =
      if str_eq outcome "confirmed"
      then success
      else if str_eq outcome "duplicate"
      then failed "DUPLICATE_RECORD" (unwrap_or resp.message "already recorded")
      else if str_eq outcome "rejected"
      then failed "SUBMISSION_FAILED" (unwrap_or resp.message "portal refused the record")
      else if str_eq outcome "indeterminate"
      then indeterminate (unwrap_or resp.message "no readable result")
      else indeterminate (format ("unrecognized outcome " ∷ debug (some outcome) ∷ []))

  settle_error : Response → Settle
  settle_error resp =
      let code = unwrap_or resp.error_code "SUBMISSION_FAILED" in
      let proves_nothing = unwrap_or resp.proves_nothing_submitted false in
      let message = unwrap_or resp.message "" in
      if proves_nothing && not (aborts_batch code) && is_recoverable code
      then Settle.retry code message
      else if not proves_nothing
      then indeterminate (format (code ∷ " — " ∷ message ∷ " (submission may have landed)" ∷ []))
      else failed code message

  settle_by : Status → Response → Settle
  settle_by Status.ok resp = settle_outcome resp.outcome resp
  settle_by Status.error resp = settle_error resp
  settle_by Status.ready resp = indeterminate "unexpected ready line mid-flow"

  unfoldable pub settle_submit : Response → Settle
  unfolding settle_by settle_outcome settle_error
  settle_submit resp = settle_by resp.status resp
