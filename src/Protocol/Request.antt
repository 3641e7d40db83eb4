-- ===== src/Protocol/Request.antt =====
-- rust/src/protocol.rs: a request, and one constructor for each operation.
use dssp_bot.Prelude.{ℕ, String, Option, none, some}
use dssp_bot.Protocol.{TraineeRef, SessionInput, Op, protocol_version}

pub record Request : Type 0 where
  pub v : ℕ
  pub job_id : String
  pub op : Op
  pub trainee_id : Option String
  pub trainee : Option TraineeRef
  pub session : Option SessionInput

abbrev pub new : String → Op → Request
new job_id op = record {
  v = protocol_version;
  job_id = job_id;
  op = op;
  trainee_id = none;
  trainee = none;
  session = none;
}

abbrev pub ping : String → Request
ping job_id = new job_id Op.ping

abbrev pub ensure_session : String → Request
ensure_session job_id = new job_id Op.ensure_session

abbrev pub list_trainees : String → Request
list_trainees job_id = new job_id Op.list_trainees

abbrev pub get_form_options : String → Option String → Request
get_form_options job_id trainee_id = record (new job_id Op.get_form_options) {
  trainee_id = trainee_id;
}

abbrev pub submit_training : String → TraineeRef → SessionInput → Request
submit_training job_id trainee session = record (new job_id Op.submit_training) {
  trainee = some trainee;
  session = some session;
}
