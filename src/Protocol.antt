-- ===== src/Protocol.antt =====
-- rust/src/protocol.rs: the messages that the coordinator exchanges with the Python worker.
-- Serialization is left to serde; `Option` fields are those that serde defaults.
pub mod Request
use dssp_bot.Prelude.{
  ℕ, String, Bool, false, Option, none, some, List, [], ◌∷◌, unwrap_or, format, decimal,
}

abbrev pub protocol_version : ℕ
protocol_version = 1

-- The module `op` of the source.
pub data Op : Type 0 where
  ping ensure_session list_trainees get_form_options submit_training : Op

pub record TraineeRef : Type 0 where
  pub id : Option String
  pub name : Option String

pub record SessionInput : Type 0 where
  pub training_date : String
  pub instructor : String
  pub training_type : String

pub data Status : Type 0 where
  ok error ready : Status

pub record FormOption : Type 0 where
  pub value : String
  pub label : String

pub record TraineeInfo : Type 0 where
  pub id : String
  pub name : String
  pub sn : String
  pub course : String
  pub training_sessions : String

pub record TraineeResolved : Type 0 where
  pub id : String
  pub name : String

pub record Response : Type 0 where
  pub v : ℕ
  pub job_id : String
  pub op : String
  pub status : Status
  pub error_code : Option String
  pub message : Option String
  pub proves_nothing_submitted : Option Bool
  pub pong : Option Bool
  pub authenticated : Option Bool
  pub count : Option ℕ
  pub trainees : Option (List TraineeInfo)
  pub instructors : Option (List FormOption)
  pub training_types : Option (List FormOption)
  pub trainee : Option TraineeResolved
  pub attempts : Option ℕ
  pub outcome : Option String
  pub reference : Option String

-- `Display` of a Boolean.
show_bool : Bool → String
show_bool false = "false"
show_bool _ = "true"

summary_ok : Option String → Option ℕ → String
summary_ok (some outcome) count = format ("ok outcome=" ∷ outcome ∷ [])
summary_ok none (some count) = format ("ok count=" ∷ decimal count ∷ [])
summary_ok none none = "ok"

summary_by : Status → Response → String
summary_by Status.ok resp = summary_ok resp.outcome resp.count
summary_by Status.error resp = format (
    "error code="
    ∷ unwrap_or resp.error_code "?"
    ∷ " proves_nothing_submitted="
    ∷ show_bool (unwrap_or resp.proves_nothing_submitted false)
    ∷ [])
summary_by Status.ready resp = "ready"

unfoldable pub summary : Response → String
unfolding summary_by summary_ok show_bool
summary resp = summary_by resp.status resp

-- A response with no optional field, to be filled in by tests.
abbrev pub bare_response : Status → Response
bare_response status = record {
  v = protocol_version;
  job_id = "";
  op = "";
  status = status;
  error_code = none;
  message = none;
  proves_nothing_submitted = none;
  pong = none;
  authenticated = none;
  count = none;
  trainees = none;
  instructors = none;
  training_types = none;
  trainee = none;
  attempts = none;
  outcome = none;
  reference = none;
}
