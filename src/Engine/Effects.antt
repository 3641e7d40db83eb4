-- ===== src/Engine/Effects.antt =====
-- What rust/src/engine.rs does to the outside: every exchange is an event of a trace, newest first,
-- and the outside answers by any function of the trace so far. An action returns a value, the
-- source's `Err`, or one of three other endings: blocked in a wait, panicked, or out of the fuel
-- that the model gives to a loop.
use dssp_bot.Prelude.{
  ℕ, String, Bool, false, Option, List, [], ◌∷◌, Result, ok, err, format, if◌then◌else◌,
}
use dssp_bot.Protocol.{Response}
use dssp_bot.Protocol.Request.{Request}
use dssp_bot.Report.{TrainingResult}
use dssp_bot.Checkpoint.{BatchCheckpoint}
use dssp_bot.State.{AutomationState, StateMachine}
use dssp_bot.State

pub data Event : Type 0 where
  sent : Request → Result Response → Event
  wrote : BatchCheckpoint → Result (Unit {0}) → Event
  read_clock drew_id : String → Event
  read_stop read_pause woke : Bool → Event
  backed_off : ℕ → Event
  closed : Event

abbrev pub Trace : Type 0
Trace = List Event

-- The worker behind `Transport`, the sink behind `CheckpointWriter`, the clock and the identifiers;
-- the flags of `BatchControl`, which the daemon's other threads set; and Rust's `Debug`.
pub record Env : Type 0 where
  pub controlled : Bool
  pub send : Trace → Request → Result Response
  pub write : Trace → BatchCheckpoint → Result (Unit {0})
  pub clock : Trace → String
  pub fresh_id : Trace → String
  pub stop_requested : Trace → Bool
  pub pause_requested : Trace → Bool
  pub debug : Option String → String

-- `BatchEngine`'s mutable fields, and the trace.
pub record World : Type 0 where
  pub trace : Trace
  pub machine : StateMachine
  pub carried : List TrainingResult

pub data Ending {ℓ} (A : Type ℓ) : Type ℓ where
  done : A → Ending A
  failed : String → Ending A
  blocked panicked out_of_fuel : Ending A

abbrev pub Action {ℓ} : Type ℓ → Type ℓ
Action A = World → Ending A × World

module _ {ℓ} {A : Type ℓ} where
  unfoldable pub pure : A → Action A
  pure a w = (done a, w)

  unfoldable pub end : Ending A → Action A
  end r w = (r, w)

  -- An exchange: what the outside answers becomes an event.
  unfoldable pub exchange : (Trace → A) → (A → Event) → Action A
  exchange answer event w =
      let a = answer w.trace in (done a, record w { trace = event a ∷ w.trace })

module _ {ℓ κ} {A : Type ℓ} {B : Type κ} where
  abbrev pub continue : Ending A → (A → Action B) → Action B
  continue (done a) f w = f a w
  continue (failed e) f w = (failed e, w)
  continue blocked f w = (blocked, w)
  continue panicked f w = (panicked, w)
  continue out_of_fuel f w = (out_of_fuel, w)

  infixl 10 ◌>>=◌ ◌>>◌
  unfoldable pub ◌>>=◌ : Action A → (A → Action B) → Action B
  ◌>>=◌ m f w = let (r, w') = m w in continue r f w'

  abbrev pub ◌>>◌ : Action A → Action B → Action B
  m >> n = m >>= λ _. n

-- `result.map_err(|e| format!("{what}: {e}"))?`
unfoldable pub require : String → Result (Unit {0}) → Action (Unit {0})
require what (ok _) = pure tt
require what (err e) = end (failed (format (what ∷ ": " ∷ e ∷ [])))

unfoldable pub emit : Event → Action (Unit {0})
emit e w = (done tt, record w { trace = e ∷ w.trace })

-- `let _ = self.machine.transition_to(next)`: a refusal is dropped.
unfoldable pub try_transition : AutomationState → Action (Unit {0})
try_transition next w = (done tt, record w { machine = (State.transition_to w.machine next).1 })

-- `self.machine.transition_to(next)?`
abbrev pub raise_refusal : Result (Unit {0}) → Ending (Unit {0})
raise_refusal (ok _) = done tt
raise_refusal (err e) = failed e

unfoldable pub transition : AutomationState → Action (Unit {0})
transition next w =
    let (r, m) = State.transition_to w.machine next in (raise_refusal r, record w { machine = m })

unfoldable pub reset_machine : Action (Unit {0})
reset_machine w = (done tt, record w { machine = State.reset w.machine })

unfoldable pub machine_state : Action AutomationState
machine_state w = (done w.machine.current, w)

-- `std::mem::take(&mut self.carried)`
unfoldable pub take_carried : Action (List TrainingResult)
take_carried w = (done w.carried, record w { carried = [] })

module _ (env : Env) where
  unfoldable pub send : Request → Action (Result Response)
  send req = exchange (λ t. env.send t req) (sent req)

  unfoldable pub write : BatchCheckpoint → Action (Result (Unit {0}))
  write c = exchange (λ t. env.write t c) (wrote c)

  unfoldable pub now_ms : Action String
  now_ms = exchange env.clock read_clock

  unfoldable pub new_id : Action String
  new_id = exchange env.fresh_id drew_id

  -- `control.as_ref().is_some_and(|c| c.stop_requested.load(..))`
  unfoldable pub stop_requested : Action Bool
  stop_requested = if env.controlled then exchange env.stop_requested read_stop else pure false

  unfoldable pub pause_requested : Action Bool
  pause_requested = exchange env.pause_requested read_pause

  -- A wait on the condition variable returns with the flag as it then is.
  unfoldable pub wait_changed : Action Bool
  wait_changed = exchange env.pause_requested woke
