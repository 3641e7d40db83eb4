-- ===== src/Store/Atomic.antt =====
-- A kill during a save of rust/src/store.rs: what the checkpoint's readers find.
use dssp_bot.Prelude.{
  ℕ, String, ◌≡◌, refl, ap, ◌⊎◌, inl, inr, Option, none, some, List, [], ◌∷◌, All, Result, ok, err,
}
use dssp_bot.Checkpoint.{BatchCheckpoint}
use dssp_bot.Store.{
  FilePath, Json, File, Disk, Calls, Progress, sync_target, save_text, save_encoded, save,
}
use dssp_bot.Store.Steps.{
  AllStates, Final, Passes, IsOld, IsNew, Between, IsSaved, save_text-Passes,
}

abbrev pub visible_file : Option File → Option String
visible_file none = none
visible_file (some f) = some f.content

-- What a reader finds under the checkpoint's name.
abbrev pub visible : Disk → Option String
visible d = visible_file d.slot

-- The whole text of the checkpoint.
abbrev pub IsEncoding : Json → BatchCheckpoint → Option String → Type 0
IsEncoding json c x = (text : String) × (json.to_text c ≡ ok text) × (x ≡ some text)

All-map : {I J : Disk → Type 0} (ds : List Disk) → ((d : Disk) → I d → J d) → All I ds → All J ds
All-map [] f h = tt
All-map (d ∷ ds) f h = (f d h.0, All-map ds f h.1)

pub AllStates-map :
    {I J : Disk → Type 0} (p : Progress) → ((d : Disk) → I d → J d) → AllStates I p → AllStates J p
AllStates-map p f h = (f p.now h.0, All-map p.before f h.1)

pub Final-map :
    (Q Q' E E' : Disk → Type 0) (r : Result (Unit {0})) (d : Disk)
    → (Q d → Q' d)
    → (E d → E' d)
    → Final Q E r d
    → Final Q' E' r d
Final-map Q Q' E E' (ok u) d f g h = f h
Final-map Q Q' E E' (err e) d f g h = g h

-- The save from the disk `d`, where the checkpoint has a text.
pub start-Passes :
    (path : FilePath) (pid : ℕ) (calls : Calls) (text : String) (d : Disk)
    → Passes
        (Between d text)
        (IsSaved d text (calls.dir_synced (sync_target path)))
        (IsOld d)
        (save_text calls path pid text (record { now = d; before = [] }))
start-Passes path pid calls text d =
    let old : IsOld d d = record { same_slot = refl; same_replaced = refl } in
    save_text-Passes d text calls path pid (record { now = d; before = [] }) (inl old, tt) old

module _ (json : Json) (path : FilePath) (pid : ℕ) (calls : Calls) (c : BatchCheckpoint)
    (d0 : Disk) where
  abbrev pub IsEither : Disk → Type 0
  IsEither d = IsOld d0 d ⊎ ((text : String) × (json.to_text c ≡ ok text) × IsNew d0 text d)

  abbrev pub IsDone : Disk → Type 0
  IsDone d =
      (text : String) × (json.to_text c ≡ ok text)
      × IsSaved d0 text (calls.dir_synced (sync_target path)) d

  pub record Saves (r : Result (Unit {0}) × Progress) : Type 0 where
    pub states : AllStates IsEither r.1
    pub final : Final IsDone (λ d. IsOld d0 d) r.0 r.1.now

  save_encoded-Saves :
      (encoded : Result String)
      → json.to_text c ≡ encoded
      → Saves (save_encoded calls path pid encoded d0)
  unfolding save_encoded
  save_encoded-Saves (err e) h =
      let old : IsOld d0 d0 = record { same_slot = refl; same_replaced = refl } in
      record { states = (inl old, tt); final = old }
  save_encoded-Saves (ok text) h =
      let passes = start-Passes path pid calls text d0 in
      record {
        states =
            AllStates-map _ (λ d b. elim b [ inl old ↦ inl old | inr new ↦ inr (text, h, new) ])
              passes.states;
        final =
            Final-map (IsSaved d0 text (calls.dir_synced (sync_target path))) IsDone (IsOld d0)
              (IsOld d0) (save_text calls path pid text (record { now = d0; before = [] })).0
              (save_text calls path pid text (record { now = d0; before = [] })).1.now
              (λ saved. (text, h, saved)) (λ old. old) passes.final;
      }

  pub save-Saves : Saves (save json path pid calls c d0)
  unfolding save
  save-Saves = save_encoded-Saves (json.to_text c) refl

  -- Whichever calls of a save fail and wherever a kill strikes, a reader finds what was there before
  -- or the whole text of the checkpoint. Where the save succeeds it finds the checkpoint's text, and
  -- where it fails what was there before.
  pub save_atomic :
      let r = save json path pid calls c d0 in
      AllStates (λ d. (visible d ≡ visible d0) ⊎ IsEncoding json c (visible d)) r.1
      × Final (λ d. IsEncoding json c (visible d)) (λ d. visible d ≡ visible d0) r.0 r.1.now
  save_atomic = (
    AllStates-map _
        (λ d b. elim b [
          | inl old ↦ inl (ap visible_file old.same_slot)
          | inr (text, e, new) ↦ inr (text, e, ap visible_file new.new_slot)
        ])
        save-Saves.states,
    Final-map IsDone (λ d. IsEncoding json c (visible d)) (IsOld d0) (λ d. visible d ≡ visible d0)
        (save json path pid calls c d0).0 (save json path pid calls c d0).1.now
        (λ (text, e, saved). (text, e, ap visible_file saved.is_new.new_slot))
        (λ old. ap visible_file old.same_slot) save-Saves.final,
  )
