-- ===== src/Report.antt =====
-- rust/src/report.rs: the result of one trainee, and the report of a batch.
pub mod Counts
use dssp_bot.Prelude.{
  ℕ, String, Bool, true, false, Option, List, length, filter, ◌==◌, if◌then◌else◌,
}

pub data Outcome : Type 0 where
  success failed skipped indeterminate : Outcome

abbrev pub outcome_eq : Outcome → Outcome → Bool
outcome_eq Outcome.success Outcome.success = true
outcome_eq Outcome.failed Outcome.failed = true
outcome_eq Outcome.skipped Outcome.skipped = true
outcome_eq Outcome.indeterminate Outcome.indeterminate = true
outcome_eq _ _ = false

pub record TrainingResult : Type 0 where
  pub trainee_id : String
  pub trainee_name : String
  pub outcome : Outcome
  pub attempts : ℕ
  pub error_code : Option String
  pub message : Option String

-- `success_rate` is the exact fraction, numerator first, that the source rounds to an `f64`.
pub record BatchReport : Type 0 where
  pub total : ℕ
  pub successful : ℕ
  pub failed : ℕ
  pub skipped : ℕ
  pub indeterminate : ℕ
  pub success_rate : ℕ × ℕ
  pub aborted : Bool
  pub started_at : String
  pub finished_at : String
  pub results : List TrainingResult

-- How many results have the outcome.
abbrev pub count : Outcome → List TrainingResult → ℕ
count o results = length (filter (λ r. outcome_eq r.outcome o) results)

unfoldable pub build : List TrainingResult → String → String → Bool → BatchReport
build results started_at finished_at aborted =
    let successful = count Outcome.success results in
    let total = length results in
    record {
      total = total;
      successful = successful;
      failed = count Outcome.failed results;
      skipped = count Outcome.skipped results;
      indeterminate = count Outcome.indeterminate results;
      success_rate = if total == 0 then (0, 1) else (successful, total);
      aborted = aborted;
      started_at = started_at;
      finished_at = finished_at;
      results = results;
    }
