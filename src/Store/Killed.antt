-- ===== src/Store/Killed.antt =====
-- A run of rust/src/engine.rs whose sink is the store of rust/src/store.rs, killed behind a
-- submission: what the disk holds, and what the next start of rust/src/recovery.rs makes of it.
use mathlib.Core.Path.{subst}
use dssp_bot.Prelude.{ℕ, false, ◌≡◌, ap, ◌∙◌, Option, none, some, List, [], ◌∷◌, Result, ok, err}
use dssp_bot.Protocol.{TraineeRef, SessionInput}
use dssp_bot.Report.{TrainingResult}
use dssp_bot.Checkpoint.{BatchCheckpoint}
use dssp_bot.Decision.{RetryPolicy}
use dssp_bot.Engine.Effects.{Env, Event, sent, wrote, Trace}
use dssp_bot.Engine.Safety.{AllEvents, AllEvents-map, durable}
use dssp_bot.Engine.Safety.Runs.{outcome}
use dssp_bot.Recovery.{tracked, guard}
use dssp_bot.Recovery.Gate.{is_err}
use dssp_bot.Recovery.Crash.{WhenSubmitted, RefusesNow, RefusesAt, crash_refused}
use dssp_bot.Store.{FilePath, Json, Disk, Calls, show_path, save}
use dssp_bot.Store.Steps.{Final}
use dssp_bot.Store.Slot.{IsFaithful, held, save_replaces}
use dssp_bot.Store.Start.{Refuses}

module _ (json : Json) (path : FilePath) (pid : ℕ) where
  -- `Sink::write` is `CheckpointStore::save`: each write of the trace, with its answer, is a save
  -- that took the disk of the time to the next, from any disk that the run found.
  abbrev pub Backs : Trace → Disk → Type 0
  Backs [] d = Unit
  Backs (wrote c r ∷ t) d =
      (d0 : Disk) × (calls : Calls) × ((save json path pid calls c d0).0 ≡ r)
      × ((save json path pid calls c d0).1.now ≡ d)
      × Backs t d0
  Backs (_ ∷ t) d = Backs t d

  -- The next plain start, over a disk that backs the trace, refuses.
  abbrev pub RefusesBehind : Event → Trace → Type 0
  RefusesBehind (sent req r) t =
      WhenSubmitted req.trainee ((d : Disk) → Backs (sent req r ∷ t) d → Refuses json path pid d)
  RefusesBehind _ t = Unit

module _ (json : Json) (faithful : IsFaithful json) (path : FilePath) (pid : ℕ) where
  -- What a save with this answer makes of the slot.
  abbrev Replaced : BatchCheckpoint → Disk → Result (Unit {0}) → Disk → Type 0
  Replaced c d0 r d =
      Final (λ d. held json path d ≡ ok (some (tracked c)))
        (λ d. held json path d ≡ held json path d0) r d

  saved_held :
      (r : Result (Unit {0})) (c : BatchCheckpoint) (d0 d : Disk) (last : BatchCheckpoint)
      (t : Trace)
      → Replaced c d0 r d
      → (durable t ≡ some last → held json path d0 ≡ ok (some (tracked last)))
      → durable (wrote c r ∷ t) ≡ some last
      → held json path d ≡ ok (some (tracked last))
  saved_held (ok u) c d0 d last t f ih e = cc
  saved_held (err x) c d0 d last t f ih e = f ∙ ih e

  -- The last checkpoint that could be written is what the disk holds.
  durable-held :
      (t : Trace) (d : Disk) (last : BatchCheckpoint)
      → Backs json path pid t d
      → durable t ≡ some last
      → held json path d ≡ ok (some (tracked last))
  durable-held [] d last b e = cc
  durable-held (wrote c r ∷ t) d last (d0, calls, answer, now, b) e =
      saved_held r c d0 d last t
        (subst (λ x. Replaced c d0 x d) answer
          (subst (Replaced c d0 (save json path pid calls c d0).0) now
            (save_replaces json faithful path pid calls c d0)))
        (durable-held t d0 last b) e
  durable-held (_ ∷ t) d last b e = durable-held t d last b e

  refusal_backed :
      (trainee : Option TraineeRef) (t : Trace)
      → WhenSubmitted trainee (RefusesNow (show_path path) t)
      → WhenSubmitted trainee ((d : Disk) → Backs json path pid t d → Refuses json path pid d)
  refusal_backed none t h = tt
  refusal_backed (some trainee) t (c, last, refuses) = λ d b.
      ap (λ x. is_err (guard (show_path path) false x).0) (durable-held t d c b last) ∙ refuses

  pub event_backed :
      (e : Event) (t : Trace) → RefusesAt (show_path path) e t → RefusesBehind json path pid e t
  event_backed (sent req r) t h = refusal_backed req.trainee (sent req r ∷ t) h
  event_backed _ t h = tt

  -- Whatever the outside does and whichever calls of the store fail, if the process dies behind a
  -- submission and before the next write, the next plain start loads a file that it refuses.
  pub kill_refused :
      (env : Env) (policy : RetryPolicy) (session : SessionInput) (wakeups : ℕ)
      (trainees : List TraineeRef) (carried : List TrainingResult)
      → AllEvents
          (RefusesBehind json path pid)
          (outcome env policy session wakeups trainees carried).1.trace
  kill_refused env policy session wakeups trainees carried =
      AllEvents-map _ _ event_backed _
        (crash_refused (show_path path) env policy session wakeups trainees carried)
