-- ===== src/Tests/Stores.antt =====
-- The checkpoint file at concrete inputs.
use mathlib.Core.List.{Memᴰ}
use dssp_bot.Prelude.{String, true, false, ◌≡◌, refl, ◌⊎◌, Option, none, some, ok, err, decimal}
use dssp_bot.Checkpoint
use dssp_bot.Checkpoint.{BatchCheckpoint, CheckpointStatus, running, finished, interrupted}
use dssp_bot.Recovery
use dssp_bot.Recovery.{tracked}
use dssp_bot.Store
use dssp_bot.Store.{FilePath, show_path, Json, File, Disk, Calls, sync_target, save}
use dssp_bot.Store.Steps.{AllStates, Final}
use dssp_bot.Store.Atomic.{visible, IsEncoding, save_atomic}
use dssp_bot.Store.Power.{Survives, save-Survives}
use dssp_bot.Store.Slot.{held, save_replaces}
use dssp_bot.Store.Start.{Refuses, Starts, no_start, then_start, guard_disk, refusal_outlasts}
use dssp_bot.Tests.Codecs.{seen, codec, codec-IsFaithful, job_file, calm_calls, full_disk, holding}

-- Killed with its only trainee in flight.
save_full :
    (save codec job_file 42 full_disk seen (holding "older")).0
    ≡ err "jobs/dssp.checkpoint.json.42.tmp: No space left on device"
unfolding save Store.save_encoded Store.save_text Store.write_and_sync Store.and_then Store.attempt
    Store.clean_up Store.temp_path Store.show_path decimal
save_full = refl

save_atomic_example :
    let r = save codec job_file 42 calm_calls seen (holding "older") in
    AllStates (λ d. (visible d ≡ some "older") ⊎ IsEncoding codec seen (visible d)) r.1
    × Final (λ d. IsEncoding codec seen (visible d)) (λ d. visible d ≡ some "older") r.0 r.1.now
save_atomic_example = save_atomic codec job_file 42 calm_calls seen (holding "older")

save-Survives_example :
    let r = save codec job_file 42 calm_calls seen (holding "older") in
    AllStates
      (λ d.
        (x : Option String) → Survives d x → Survives (holding "older") x ⊎ IsEncoding codec seen x)
      r.1
    × Final
        (λ d. true ≡ true → (x : Option String) → Survives d x → IsEncoding codec seen x)
        (λ d. (x : Option String) → Survives d x → Survives (holding "older") x)
        r.0
        r.1.now
save-Survives_example = save-Survives codec job_file 42 calm_calls seen (holding "older")

save_replaces_example :
    let r = save codec job_file 42 full_disk seen (holding "older") in
    Final
      (λ d. held codec job_file d ≡ ok (some (tracked seen)))
      (λ d. held codec job_file d ≡ held codec job_file (holding "older"))
      r.0
      r.1.now
save_replaces_example =
    save_replaces codec codec-IsFaithful job_file 42 full_disk seen (holding "older")

-- A plain start over the lone checkpoint, whose save meets a full disk.
abbrev cluttered : Disk
cluttered = record (holding "lone") { temp = some (record { content = "lo"; synced = false }) }

refused_start : Starts codec job_file 42 (holding "lone") cluttered
unfolding guard_disk Store.Start.save_states Recovery.guard Recovery.reconcile Recovery.promoted
    Checkpoint.untracked_suspect Checkpoint.blocks_start Checkpoint.mark_interrupted
    Store.load_with_provenance Store.load_text Store.decoded save Store.save_encoded Store.save_text
    Store.write_and_sync Store.and_then Store.attempt Store.clean_up
refused_start = then_start no_start none (λ i. full_disk) (Memᴰ.head refl)

refusal_outlasts_example : Refuses codec job_file 42 cluttered
unfolding Recovery.guard Recovery.reconcile Recovery.promoted Checkpoint.untracked_suspect
    Checkpoint.blocks_start Checkpoint.mark_interrupted Store.load_with_provenance Store.load_text
    Store.decoded
refusal_outlasts_example =
    refusal_outlasts codec codec-IsFaithful job_file 42 (holding "lone") cluttered refl
      refused_start
