-- ===== src/State.antt =====
-- rust/src/state.rs: the automation state machine, with its transition table as the code builds it.
pub mod Reach
use dssp_bot.Prelude.{
  ℕ, String, Bool, List, [], ◌∷◌, ◌++◌, Result, ok, err, any, format, ◌==◌, if◌then◌else◌,
}

pub data AutomationState : Type 0 where
  idle initializing loading_trainee opening_form filling_form validating : AutomationState
  submitting verifying retrying paused stopped complete : AutomationState

-- The discriminants, in declaration order; the derived `PartialEq` compares them.
abbrev discriminant : AutomationState → ℕ
discriminant idle = 0
discriminant initializing = 1
discriminant loading_trainee = 2
discriminant opening_form = 3
discriminant filling_form = 4
discriminant validating = 5
discriminant submitting = 6
discriminant verifying = 7
discriminant retrying = 8
discriminant paused = 9
discriminant stopped = 10
discriminant complete = 11

abbrev pub state_eq : AutomationState → AutomationState → Bool
state_eq a b = discriminant a == discriminant b

abbrev contains : List AutomationState → AutomationState → Bool
contains states s = any (λ x. state_eq x s) states

abbrev pub active_states : List AutomationState
active_states =
    initializing ∷ loading_trainee ∷ opening_form ∷ filling_form ∷ validating ∷ submitting
    ∷ verifying ∷ retrying ∷ []

abbrev pub is_active : AutomationState → Bool
is_active state = contains active_states state

abbrev from_active : List AutomationState → List AutomationState
from_active next = next ++ (retrying ∷ loading_trainee ∷ paused ∷ stopped ∷ complete ∷ [])

abbrev allowed : AutomationState → List AutomationState
allowed idle = initializing ∷ []
allowed initializing = from_active []
allowed loading_trainee = from_active (opening_form ∷ [])
allowed opening_form = from_active (filling_form ∷ [])
allowed filling_form = from_active (validating ∷ [])
allowed validating = from_active (submitting ∷ [])
allowed submitting = from_active (verifying ∷ [])
allowed verifying = from_active (loading_trainee ∷ [])
allowed retrying =
    from_active (opening_form ∷ filling_form ∷ validating ∷ submitting ∷ verifying ∷ [])
allowed paused = loading_trainee ∷ stopped ∷ complete ∷ []
allowed stopped = idle ∷ []
allowed complete = idle ∷ []

unfoldable pub can_transition : AutomationState → AutomationState → Bool
can_transition src dst = contains (allowed src) dst

-- The derived `Debug`.
debug_state : AutomationState → String
debug_state idle = "Idle"
debug_state initializing = "Initializing"
debug_state loading_trainee = "LoadingTrainee"
debug_state opening_form = "OpeningForm"
debug_state filling_form = "FillingForm"
debug_state validating = "Validating"
debug_state submitting = "Submitting"
debug_state verifying = "Verifying"
debug_state retrying = "Retrying"
debug_state paused = "Paused"
debug_state stopped = "Stopped"
debug_state complete = "Complete"

pub record StateMachine : Type 0 where
  pub current : AutomationState

unfoldable pub new : StateMachine
new = record { current = idle }

-- The machine after the call, and the call's result.
unfoldable pub transition_to : StateMachine → AutomationState → Result (Unit {0}) × StateMachine
unfolding debug_state can_transition
transition_to m next =
    if can_transition m.current next then (ok tt, record m { current = next }) else (
      err (
          format (
            "illegal state transition: " ∷ debug_state m.current ∷ " -> " ∷ debug_state next ∷ [])),
      m,
    )

unfoldable pub reset : StateMachine → StateMachine
reset m = record m { current = idle }
