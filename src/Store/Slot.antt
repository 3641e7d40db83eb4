-- ===== src/Store/Slot.antt =====
-- The store of rust/src/store.rs refines a slot that holds one checkpoint: a save replaces it or leaves
-- it, and a load returns it.
use dssp_bot.Prelude.{ℕ, String, true, ◌≡◌, refl, ap, Option, none, some, Result, ok}
use dssp_bot.Checkpoint.{BatchCheckpoint}
use dssp_bot.Recovery.{StoredCheckpoint, tracked}
use dssp_bot.Store.{
  FilePath, Json, File, Disk, Calls, decoded, load_text, save, load_with_provenance,
}
use dssp_bot.Store.Steps.{Final, new_file, IsOld}
use dssp_bot.Store.Atomic.{Final-map, IsDone, save-Saves}

-- serde: what this build encodes has the `in_flight` key, and decodes to what was encoded.
abbrev pub IsFaithful : Json → Type 0
IsFaithful json =
    (c : BatchCheckpoint) (text : String)
    → json.to_text c ≡ ok text
    → (json.has_in_flight text ≡ ok true) × (json.from_text text ≡ ok c)

-- What the slot holds: a load whose read does not fail.
abbrev pub held : Json → FilePath → Disk → Result (Option StoredCheckpoint)
held json path d = load_with_provenance json path none d

module _ (json : Json) (faithful : IsFaithful json) (path : FilePath) where
  pub load_text-new :
      (c : BatchCheckpoint) (text : String) (slot : Option File)
      → json.to_text c ≡ ok text
      → slot ≡ some (new_file text)
      → load_text json path slot ≡ ok (some (tracked c))
  unfolding load_text decoded
  load_text-new c text slot e h =
      let (keyed, same) = faithful c text e in rw h (rw (keyed, same) refl)

  -- Where a save succeeds, the store holds the checkpoint, as a build that tracks its work wrote it;
  -- where it fails, the store holds what it held.
  pub save_replaces :
      (pid : ℕ) (calls : Calls) (c : BatchCheckpoint) (d0 : Disk)
      → let r = save json path pid calls c d0 in
        Final
          (λ d. held json path d ≡ ok (some (tracked c)))
          (λ d. held json path d ≡ held json path d0)
          r.0
          r.1.now
  unfolding load_with_provenance
  save_replaces pid calls c d0 =
      Final-map (IsDone json path pid calls c d0) (λ d. held json path d ≡ ok (some (tracked c)))
        (IsOld d0) (λ d. held json path d ≡ held json path d0) (save json path pid calls c d0).0
        (save json path pid calls c d0).1.now
        (λ (text, e, saved). load_text-new c text _ e saved.is_new.new_slot)
        (λ old. ap (load_text json path) old.same_slot) (save-Saves json path pid calls c d0).final
