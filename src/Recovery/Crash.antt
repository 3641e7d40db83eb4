-- ===== src/Recovery/Crash.antt =====
-- A crash between a submission and the next write: what rust/src/engine.rs left on disk, and what
-- rust/src/recovery.rs makes of it.
use dssp_bot.Prelude.{
  ℕ, String, true, false, ◌∷◌, ap, ◌∙◌, ◌≡◌, refl, Option, none, some, List, arith, ok,
}
use dssp_bot.Protocol.{TraineeRef, SessionInput}
use dssp_bot.Report.{TrainingResult}
use dssp_bot.Checkpoint.{BatchCheckpoint, blocks_start}
use dssp_bot.Decision.{RetryPolicy}
use dssp_bot.Engine.Effects.{Env, Event, sent, Trace}
use dssp_bot.Engine.Safety.{AllEvents, AllEvents-map, WriteAhead, Window, durable, named}
use dssp_bot.Engine.Safety.Runs.{outcome, run-WriteAhead}
use dssp_bot.Recovery.{tracked, guard}
use dssp_bot.Recovery.Gate.{is_err, guard-plain, promoted-tracked}

-- The file on disk refuses a plain start.
abbrev pub RefusesNow : String → Trace → Type 0
RefusesNow path t =
    (c : BatchCheckpoint) × (durable t ≡ some c)
    × (is_err (guard path false (ok (some (tracked c)))).0 ≡ true)

abbrev pub WhenSubmitted : Option TraineeRef → Type 0 → Type 0
WhenSubmitted none P = Unit
WhenSubmitted (some trainee) P = P

abbrev pub RefusesAt : String → Event → Trace → Type 0
RefusesAt path (sent req r) t = WhenSubmitted req.trainee (RefusesNow path (sent req r ∷ t))
RefusesAt path _ t = Unit

in_flight_refused :
    (path : String) (c : BatchCheckpoint) {key : String}
    → c.in_flight ≡ some key
    → is_err (guard path false (ok (some (tracked c)))).0 ≡ true
unfolding blocks_start
in_flight_refused path c e =
    guard-plain path (tracked c) ∙ ap blocks_start (promoted-tracked c) ∙ ground arith

named_refused :
    (path : String) (o : Option BatchCheckpoint) {key : String}
    → named o ≡ some key
    → (c : BatchCheckpoint) × (o ≡ some c)
      × (is_err (guard path false (ok (some (tracked c)))).0 ≡ true)
named_refused path none e = cc
named_refused path (some c) e = (c, refl, in_flight_refused path c e)

Window-refused :
    (path : String) (trainee : Option TraineeRef) (t : Trace)
    → Window trainee t
    → WhenSubmitted trainee (RefusesNow path t)
Window-refused path none t h = tt
Window-refused path (some trainee) t h = named_refused path (durable t) h.1

pub ahead_refuses : (path : String) (e : Event) (t : Trace) → WriteAhead e t → RefusesAt path e t
ahead_refuses path (sent req r) t h = Window-refused path req.trainee t h
ahead_refuses path _ t h = tt

-- Whatever the outside does, if the process dies behind a submission and before the next checkpoint
-- write, the file on disk is one that a plain start refuses.
pub crash_refused :
    (path : String) (env : Env) (policy : RetryPolicy) (session : SessionInput) (wakeups : ℕ)
    (trainees : List TraineeRef) (carried : List TrainingResult)
    → AllEvents (RefusesAt path) (outcome env policy session wakeups trainees carried).1.trace
crash_refused path env policy session wakeups trainees carried =
    AllEvents-map _ _ (ahead_refuses path) _
      (run-WriteAhead env policy session wakeups trainees carried)
