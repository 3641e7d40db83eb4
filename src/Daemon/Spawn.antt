-- ===== src/Daemon/Spawn.antt =====
-- rust/src/daemon.rs: `start` as a whole, up to the thread of the batch.
pub mod Refines
use dssp_bot.Prelude.{
  ℕ, String, Bool, Option, none, some, List, [], ◌∷◌, length, Result, ok, err, format,
}
use dssp_bot.Protocol.{TraineeRef}
use dssp_bot.Report.{TrainingResult}
use dssp_bot.Recovery.{Guarded}
use dssp_bot.Command.Batch.{save_all}
use dssp_bot.Engine.Effects.{Env, Action, pure, end, panicked, ◌>>=◌, ◌>>◌, new_id}
use dssp_bot.Daemon.{
  State, Shared, Reply, error, batch_id, acquire, drop_control, drop_busy, initialize,
  publish_carried, launch,
}
use dssp_bot.Daemon.Http.{Checked, pass, fail}
use dssp_bot.Daemon.Start.{
  BatchRequest, Admission, refused, closes, admitted, panics, admit_batch, ask_worker,
}
use dssp_bot.Daemon.System.{on_state}

-- What the thread of a batch is given: the roster, the rows carried, and how many are owed.
abbrev pub Batch : Type 0
Batch = List TraineeRef × List TrainingResult × ℕ

-- What `start` leaves: its reply, what the threads share, and the batch whose thread it spawned.
pub record Started : Type 0 where
  pub reply : Reply
  pub shared : Shared
  pub batch : Option Batch

-- `Busy` is dropped with the reply.
abbrev pub dropped : Reply → Shared → Started
dropped reply w = record { reply = reply; shared = on_state drop_busy w; batch = none }

-- A thread that cannot be spawned drops its lease.
unfoldable pub spawn : Result (Unit {0}) → String → Batch → Shared → Started
spawn (ok u) id batch w = record {
  reply = (202, batch_id id);
  shared = launch w;
  batch = some batch;
}
spawn (err e) id batch w =
    dropped (error 500 (format ("batch thread: " ∷ e ∷ []))) (on_state drop_control (launch w))

unfoldable pub spawn_resolved :
    Result (Unit {0})
    → String
    → List TrainingResult
    → ℕ
    → Shared
    → Checked (List TraineeRef)
    → Started
unfolding spawn
spawn_resolved spawned id carried owed w (fail code text) = dropped (error code text) w
spawn_resolved spawned id carried owed w (pass roster) = spawn spawned id (roster, carried, owed) w

-- `is_blank` and `normalize` are the standard library's on texts; `made` is what the factory returned,
-- and `spawned` what the system does of the thread.
module _ (is_blank : String → Bool) (normalize : String → String) (env : Env)
    (made spawned : Result (Unit {0})) where
  unfoldable pub start_admitted : Admission → Shared → Action Started
  unfolding spawn_resolved
  start_admitted (refused code text) w = pure (dropped (error code text) w)
  start_admitted panics w = new_id env >>= λ id. end panicked
  start_admitted (closes report owed) w = do
    id ← new_id env
    pure (dropped (202, batch_id id) (on_state (publish_carried report owed) w))
  start_admitted (admitted wanted carried owed) w = do
    id ← new_id env
    resolved ← ask_worker normalize env wanted made
    pure (
        spawn_resolved spawned id carried owed (on_state (initialize (length wanted) carried) w)
          resolved)

  -- The gate's saves are made before its answer is looked at.
  unfoldable pub leased_start :
      Guarded → BatchRequest → Shared → Result (Unit {0}) × State → Action Started
  unfolding start_admitted save_all
  leased_start guarded req w (err e, s) =
      pure (record { reply = error 503 e; shared = w; batch = none })
  leased_start (answer, saves) req w (ok lease, s) =
      save_all env saves
      >> start_admitted (admit_batch is_blank req answer) (record w { state = s })

  -- `guarded` is what the start gate answers and saves.
  unfoldable pub start : Guarded → BatchRequest → Shared → Action Started
  unfolding leased_start
  start guarded req w = leased_start guarded req w (acquire w.state)
