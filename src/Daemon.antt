-- ===== src/Daemon.antt =====
-- rust/src/daemon.rs: what the bridge's threads share, and what each of them does to it.
pub mod Control
pub mod System
pub mod Token
pub mod Bytes
pub mod Http
pub mod Route
pub mod Start
pub mod Permits
pub mod Options
pub mod TokenFile
pub mod Settings
pub mod Connection
pub mod Spawn
use dssp_bot.Prelude.{
  ℕ, ◌+◌, ◌-◌, String, Bool, true, false, not, ◌&&◌, ◌||◌, Option, none, some, List, [], ◌∷◌,
  length, Result, ok, err, ◌==◌, ltb, str_eq, if◌then◌else◌,
}
use dssp_bot.Protocol.{FormOption}
use dssp_bot.Report.{Outcome, TrainingResult, BatchReport, count}
use dssp_bot.Checkpoint.{BatchCheckpoint, CheckpointStatus, finished, aborted}

-- The progress's `state`.
pub data Phase : Type 0 where
  idle initializing loading_trainee submitting retrying paused complete stopped : Phase

-- The object that `GET /status` answers.
pub record BatchProgress : Type 0 where
  pub state : Phase
  pub total : ℕ
  pub processed : ℕ
  pub successful : ℕ
  pub failed : ℕ
  pub skipped : ℕ
  pub indeterminate : ℕ
  pub remaining : ℕ
  pub pause_requested : Bool
  pub stop_requested : Bool
  pub current_trainee_name : Option String

unfoldable pub progress : Phase → ℕ → List TrainingResult → Option String → BatchProgress
progress state total results name = record {
  state = state;
  total = total;
  processed = length results;
  successful = count Outcome.success results;
  failed = count Outcome.failed results;
  skipped = count Outcome.skipped results;
  indeterminate = count Outcome.indeterminate results;
  remaining = total - length results;
  pause_requested = false;
  stop_requested = false;
  current_trainee_name = name;
}

pub record BatchControl : Type 0 where
  pub pause_requested : Bool
  pub stop_requested : Bool
  pub closed : Bool

abbrev pub default_control : BatchControl
default_control = record { pause_requested = false; stop_requested = false; closed = false }

-- `control` is the address of the batch's `BatchControl`.
pub record State : Type 0 where
  pub busy : Bool
  pub progress : BatchProgress
  pub report : Option BatchReport
  pub control : Option ℕ

-- What the mutex guards, and every `BatchControl` by its address; those below `allocated` are there.
pub record Shared : Type 0 where
  pub state : State
  pub allocated : ℕ
  pub controls : ℕ → BatchControl

abbrev pub new_state : State
new_state = record {
  busy = false;
  progress = progress idle 0 [] none;
  report = none;
  control = none;
}

abbrev pub set_control : ℕ → BatchControl → (ℕ → BatchControl) → ℕ → BatchControl
set_control id c controls other = if other == id then c else controls other

-- The body of a reply: the status, the form's options, a batch's identifier, an error's text, the report,
-- or the checkpoint.
pub data Body : Type 0 where
  options : List FormOption → List FormOption → Body
  status : BatchProgress → Body
  batch_id message : String → Body
  batch_report : Option BatchReport → Body
  batch_checkpoint : Option BatchCheckpoint → Body

abbrev pub Reply : Type 0
Reply = ℕ × Body

abbrev pub error : ℕ → String → Reply
error code text = (code, message text)

unfoldable pub acquire : State → Result (Unit {0}) × State
acquire s =
    if s.busy
    then (err "a batch or form-options worker is already running", s)
    else (ok tt, record s { busy = true })

-- The phases that the drop of a lease takes for an unfinished batch's.
unfoldable pub is_unfinished : Phase → Bool
is_unfinished initializing = true
is_unfinished submitting = true
is_unfinished loading_trainee = true
is_unfinished retrying = true
is_unfinished paused = true
is_unfinished _ = false

unfoldable pub clear_control : State → State
clear_control s =
    let p = record s.progress { pause_requested = false } in
    record s {
      control = none;
      progress =
          if is_unfinished p.state
          then record p { state = stopped; current_trainee_name = none }
          else p;
    }

unfoldable pub drop_control : State → State
drop_control s = clear_control s

unfoldable pub drop_busy : State → State
drop_busy s = record (clear_control s) { busy = false }

unfoldable pub phase_of : BatchCheckpoint → Phase
phase_of cp = phase_at cp.status cp.in_flight
  where
    phase_at : CheckpointStatus → Option String → Phase
    phase_at finished in_flight = complete
    phase_at aborted in_flight = stopped
    phase_at CheckpointStatus.paused in_flight = Phase.paused
    phase_at _ (some id) = submitting
    phase_at _ none = loading_trainee

-- `names.get(id)`, of a map collected from pairs: a later pair replaces an earlier one.
unfoldable pub get_name : List (String × String) → String → Option String
get_name [] id = none
get_name ((key, name) ∷ rest) id = elim (get_name rest id) [
  | some later ↦ some later
  | none ↦ if str_eq key id then some name else none
]

abbrev in_flight_name : List (String × String) → Option String → Option String
in_flight_name names none = none
in_flight_name names (some id) = get_name names id

abbrev is_over : Phase → Bool
is_over complete = true
is_over stopped = true
is_over _ = false

-- `Sink::write` behind the save of the checkpoint.
unfoldable pub write_saved : List (String × String) → BatchCheckpoint → State → State
unfolding phase_of
write_saved names cp s =
    let phase = phase_of cp in
    let fresh = progress phase cp.total cp.results (in_flight_name names cp.in_flight) in
    let kept = record fresh { stop_requested = s.progress.stop_requested } in
    if is_over phase
    then record s { progress = kept; control = none }
    else record s { progress = record kept { pause_requested = s.progress.pause_requested } }

unfoldable pub write :
    List (String × String) → BatchCheckpoint → Result (Unit {0}) → State → Result (Unit {0}) × State
write names cp (err e) s = (err e, s)
write names cp (ok u) s = (ok tt, write_saved names cp s)

-- A batch's first progress.
unfoldable pub initialize : ℕ → List TrainingResult → State → State
initialize wanted carried s = record s {
  progress = progress initializing (wanted + length carried) carried none;
  report = none;
}

-- The progress of a resume that has nothing to run.
unfoldable pub publish_carried : BatchReport → ℕ → State → State
publish_carried r owed s = record s {
  progress = progress (if ltb 0 owed then stopped else complete) r.total r.results none;
  report = some r;
}

-- The controller of a batch that starts, at a new address.
unfoldable pub launch : Shared → Shared
launch w = record {
  state = record w.state { control = some w.allocated };
  allocated = w.allocated + 1;
  controls = set_control w.allocated default_control w.controls;
}

-- `report.aborted |= owed > 0`
unfoldable pub with_owed : BatchReport → ℕ → BatchReport
with_owed r owed = record r { aborted = r.aborted || ltb 0 owed }

unfoldable pub finish_ok : BatchReport → ℕ → State → State
unfolding with_owed
finish_ok r owed s =
    let r' = with_owed r owed in
    let p =
      progress (if r'.aborted || ltb 0 owed then stopped else complete) r'.total r'.results none in
    record s {
      control = none;
      progress = record p { stop_requested = s.progress.stop_requested };
      report = some r';
    }

unfoldable pub finish_err : State → State
finish_err s = record s {
  control = none;
  progress = record s.progress {
    pause_requested = false;
    state = stopped;
    current_trainee_name = none;
  };
}
