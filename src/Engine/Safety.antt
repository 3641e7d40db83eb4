-- ===== src/Engine/Safety.antt =====
-- What every trace of rust/src/engine.rs satisfies, event by event.
pub mod Steady
pub mod Boundary
pub mod Attempts
pub mod Rounds
pub mod Closing
pub mod Queued
pub mod Runs
use dssp_bot.Prelude.{
  ℕ, String, Bool, true, false, ◌≡◌, Option, none, some, [], ◌∷◌, ok, err, Result,
}
use dssp_bot.Protocol.{TraineeRef, Response}
use dssp_bot.Checkpoint.{BatchCheckpoint}
use dssp_bot.Checkpoint.Partition.{placed}
use dssp_bot.Decision.Safety.{IsUnsent}
use dssp_bot.Engine.Effects.{Event, sent, wrote, Trace}
use dssp_bot.Engine.Roster.{queue_key}

-- Each event of a trace, judged with the trace before it.
abbrev pub AllEvents : (Event → Trace → Type 0) → Trace → Type 0
AllEvents C [] = Unit
AllEvents C (e ∷ t) = C e t × AllEvents C t

-- The file on disk: a write that failed left the one before it.
abbrev pub durable : Trace → Option BatchCheckpoint
durable [] = none
durable (wrote c (ok _) ∷ t) = some c
durable (_ ∷ t) = durable t

-- The last checkpoint that the sink was given, whether or not it could be written.
abbrev pub last_write : Trace → Option BatchCheckpoint
last_write [] = none
last_write (wrote c r ∷ t) = some c
last_write (_ ∷ t) = last_write t

-- The trainee that the file on disk names as in flight.
abbrev pub named : Option BatchCheckpoint → Option String
named none = none
named (some c) = c.in_flight

abbrev pub durable_in_flight : Trace → Option String
durable_in_flight t = named (durable t)

-- The reply to the last submission since the last write.
abbrev reply_of :
    Option TraineeRef → Result Response → Option (Result Response) → Option (Result Response)
reply_of none r before = before
reply_of (some _) r before = some r

abbrev pub last_reply : Trace → Option (Result Response)
last_reply [] = none
last_reply (wrote c r ∷ t) = none
last_reply (sent req r ∷ t) = reply_of req.trainee r (last_reply t)
last_reply (_ ∷ t) = last_reply t

-- A trainee is submitted only while the file on disk names it, by its queue key, as in flight.
abbrev pub Window : Option TraineeRef → Trace → Type 0
Window none t = Unit
Window (some trainee) t = (i : ℕ) × (durable_in_flight t ≡ some (queue_key trainee i))

abbrev pub WriteAhead : Event → Trace → Type 0
WriteAhead (sent req r) t = Window req.trainee t
WriteAhead _ t = Unit

-- A submission is repeated only behind a reply that proves that nothing was sent.
abbrev pub MayRepeat : Option (Result Response) → Type 0
MayRepeat none = Unit
MayRepeat (some (ok resp)) = IsUnsent resp
MayRepeat (some (err e)) = ⊥

abbrev WhenSubmitted : Option TraineeRef → Type 0 → Type 0
WhenSubmitted none P = Unit
WhenSubmitted (some _) P = P

abbrev pub SafeRepeat : Event → Trace → Type 0
SafeRepeat (sent req r) t = WhenSubmitted req.trainee (MayRepeat (last_reply t))
SafeRepeat _ t = Unit

-- Each checkpoint that is written, whether or not the write succeeds, places the whole batch.
abbrev pub Balanced : ℕ → Event → Trace → Type 0
Balanced total (wrote c r) t = (c.total ≡ total) × (placed c ≡ total)
Balanced total _ t = Unit

-- The size that checkpoints are judged by. Where `judged` is false they are not, since others than the
-- engine's are among them.
pub record Size : Type 0 where
  pub count : ℕ
  pub judged : Bool

abbrev pub Judged : Bool → Type 0 → Type 0
Judged true P = P
Judged false P = Unit

pub count_if : {P : Type 0} (b : Bool) → P → Judged b P
count_if true h = h
count_if false h = tt

pub record IsSound (total : Size) (e : Event) (t : Trace) : Type 0 where
  pub ahead : WriteAhead e t
  pub repeat : SafeRepeat e t
  pub balanced : Judged total.judged (Balanced total.count e t)

abbrev pub Sound : Size → Trace → Type 0
Sound total t = AllEvents (IsSound total) t

pub AllEvents-map :
    (C D : Event → Trace → Type 0)
    → ((e : Event) (t : Trace) → C e t → D e t)
    → (t : Trace) → AllEvents C t
    → AllEvents D t
AllEvents-map C D f [] h = tt
AllEvents-map C D f (e ∷ t) h = (f e t h.0, AllEvents-map C D f t h.1)
