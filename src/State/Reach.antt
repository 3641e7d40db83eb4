-- ===== src/State/Reach.antt =====
-- The table of rust/src/state.rs as a graph, and any sequence of attempted transitions over it.
use mathlib.Core.List.{Memᴰ}
use dssp_bot.Prelude.{Bool, true, false, ◌≡◌, refl, sym, ◌⊎◌, inl, inr, List, [], ◌∷◌, arith, ok}
use dssp_bot.State.{
  AutomationState, idle, initializing, validating, submitting, retrying, paused, stopped,
  loading_trainee, complete, StateMachine, is_active, can_transition, transition_to, new,
}

-- The machines that a caller gets who attempts the transitions in turn and ignores their results.
unfoldable pub attempt : StateMachine → List AutomationState → StateMachine
attempt m [] = m
attempt m (s ∷ ss) = attempt (transition_to m s).1 ss

-- A transition is accepted exactly if the table allows it, and moves the machine to its target; a
-- refused one leaves the machine as it was.
pub transition_to_lem :
    (m : StateMachine) (s : AutomationState)
    → (((transition_to m s).0 ≡ ok tt)
        × (can_transition m.current s ≡ true)
        × ((transition_to m s).1.current ≡ s))
      ⊎ ((can_transition m.current s ≡ false) × ((transition_to m s).1 ≡ m))
unfolding transition_to
transition_to_lem m s = ground arith

-- `Submitting` is entered only from `Validating` or `Retrying`.
pub before-submitting :
    (s : AutomationState) → can_transition s submitting ≡ true → (s ≡ validating) ⊎ (s ≡ retrying)
unfolding can_transition
before-submitting s h = ground arith

-- From every active state the batch can retry, go on to a trainee, pause, stop and complete.
pub active_exits :
    (s : AutomationState)
    → is_active s ≡ true
    → (can_transition s retrying ≡ true)
      × (can_transition s loading_trainee ≡ true)
      × (can_transition s paused ≡ true)
      × (can_transition s stopped ≡ true)
      × (can_transition s complete ≡ true)
unfolding can_transition
active_exits s h = ground arith

is_fresh : AutomationState → Bool
is_fresh idle = true
is_fresh stopped = true
is_fresh complete = true
is_fresh _ = false

fresh_step :
    (m : StateMachine) (s : AutomationState)
    → is_fresh m.current ≡ true
    → (s ≡ initializing) ⊎ (is_fresh (transition_to m s).1.current ≡ true)
unfolding is_fresh transition_to
fresh_step m s h = ground arith

fresh_attempt :
    (m : StateMachine) (ss : List AutomationState)
    → is_fresh m.current ≡ true
    → is_active (attempt m ss).current ≡ true
    → Memᴰ initializing ss
unfolding attempt is_fresh
fresh_attempt m [] h a = ground arith
fresh_attempt m (s ∷ ss) h a = elim (fresh_step m s h) [
  | inl e ↦ Memᴰ.head (sym e)
  | inr f ↦ Memᴰ.tail (fresh_attempt (transition_to m s).1 ss f a)
]

-- Whatever transitions are attempted on a new machine, it is in an active state only if
-- `Initializing` was among them.
pub active_needs_initializing :
    (ss : List AutomationState) → is_active (attempt new ss).current ≡ true → Memᴰ initializing ss
unfolding new is_fresh
active_needs_initializing ss a = fresh_attempt new ss refl a
