-- ===== src/Daemon/System.antt =====
-- rust/src/daemon.rs: the threads that share the state, in any order of their steps.
pub mod Sound
pub mod Holder
pub mod Kept
pub mod Flags
pub mod Batch
use dssp_bot.Prelude.{
  ℕ, String, Bool, true, Option, none, some, List, [], ◌∷◌, ◌++◌, ◌≡◌, Result, ok,
}
use dssp_bot.Report.{TrainingResult, BatchReport}
use dssp_bot.Checkpoint.{BatchCheckpoint}
use dssp_bot.Daemon.{
  BatchControl, State, Shared, new_state, default_control, acquire, drop_control, drop_busy, write,
  initialize, publish_carried, launch, finish_ok, finish_err, set_control,
}
use dssp_bot.Daemon.Control.{control_captured}

-- Where a request or a batch thread stands that holds `Busy`: before its first progress; behind it;
-- with the controller of its batch; and with its worker being torn down.
pub data Lease : Type 0 where
  admitted initialized torn_down : Lease
  running : ℕ → Lease

abbrev pub on_state : (State → State) → Shared → Shared
on_state f w = record w { state = f w.state }

-- `control.closed.store(true, ..)`
abbrev pub close : ℕ → Shared → Shared
close id w = record w {
  controls = set_control id (record (w.controls id) { closed = true }) w.controls;
}

-- One step of a holder, and how it holds on.
pub data Move (w : Shared) : Lease → Shared → List Lease → Type 0 where
  refuses : Move w admitted (on_state drop_busy w) []
  carries_over :
      (r : BatchReport) (owed : ℕ)
      → Move w admitted (on_state (publish_carried r owed) w) (admitted ∷ [])
  initializes :
      (wanted : ℕ) (carried : List TrainingResult)
      → Move w admitted (on_state (initialize wanted carried) w) (initialized ∷ [])
  gives_up : Move w initialized (on_state drop_busy w) []
  launches : Move w initialized (launch w) (running w.allocated ∷ [])
  writes :
      {id : ℕ} (names : List (String × String)) (cp : BatchCheckpoint) (saved : Result (Unit {0}))
      → Move w (running id) (on_state (λ s. (write names cp saved s).1) w) (running id ∷ [])
  closes : {id : ℕ} → Move w (running id) (close id w) (running id ∷ [])
  finishes :
      {id : ℕ} (r : BatchReport) (owed : ℕ)
      → Move w (running id) (on_state (finish_ok r owed) w) (running id ∷ [])
  fails : {id : ℕ} → Move w (running id) (on_state finish_err w) (running id ∷ [])
  drops_control : {id : ℕ} → Move w (running id) (on_state drop_control w) (torn_down ∷ [])
  leaves : Move w torn_down (on_state drop_busy w) []

pub record System : Type 0 where
  pub shared : Shared
  pub leases : List Lease

-- `acquire` by a request; a step of a holder; or a command with a controller that it captured at any
-- time before.
pub data Step (s : System) : System → Type 0 where
  acquires :
      (acquire s.shared.state).0 ≡ ok tt
      → Step s (record {
        shared = on_state (λ state. (acquire state).1) s.shared;
        leases = admitted ∷ s.leases;
      })
  moves :
      {l : Lease} {w : Shared} {left : List Lease}
      → (before after : List Lease) → s.leases ≡ before ++ l ∷ after
      → Move s.shared l w left
      → Step s (record { shared = w; leases = before ++ (left ++ after) })
  commands :
      (id : ℕ) (pause : Option Bool)
      → Step s (record s { shared = (control_captured id pause s.shared).1 })

abbrev pub initial : System
initial = record {
  shared = record { state = new_state; allocated = 0; controls = λ id. default_control };
  leases = [];
}

pub data Reach (s : System) : System → Type 0 where
  start : Reach s s
  later : {t u : System} → Reach s t → Step t u → Reach s u
