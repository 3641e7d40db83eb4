-- ===== src/Store/Power.antt =====
-- A power loss during a save of rust/src/store.rs: what the next boot may find.
use mathlib.Core.Path.{subst}
use dssp_bot.Prelude.{ℕ, String, true, false, ◌≡◌, ◌⊎◌, inl, inr, Option, none, some, List, [], ◌∷◌}
use dssp_bot.Checkpoint.{BatchCheckpoint}
use dssp_bot.Store.{FilePath, Json, File, Disk, Calls, sync_target, save}
use dssp_bot.Store.Steps.{AllStates, Final, new_file, IsOld, IsNew}
use dssp_bot.Store.Atomic.{IsEncoding, AllStates-map, Final-map, IsDone, save-Saves}

-- What a directory entry may read as behind a power loss: a file that was never synced may hold
-- anything, and may be gone.
abbrev pub MayRead : Option File → Option String → Type 0
MayRead none x = x ≡ none
MayRead (some f) x = (x ≡ some f.content) ⊎ (f.synced ≡ false)

abbrev pub SomeMayRead : List (Option File) → Option String → Type 0
SomeMayRead [] x = ⊥
SomeMayRead (e ∷ es) x = MayRead e x ⊎ SomeMayRead es x

-- What the checkpoint's name may read as: the entry that it has, or one that was replaced since the
-- directory was last synced.
abbrev pub Survives : Disk → Option String → Type 0
Survives d x = SomeMayRead (d.slot ∷ d.replaced) x

new_file-read :
    (text : String) (x : Option String) → MayRead (some (new_file text)) x → x ≡ some text
new_file-read text x (inl e) = e
new_file-read text x (inr e) = cc

module _ (d0 : Disk) (text : String) where
  IsOld-Survives : (d : Disk) (x : Option String) → IsOld d0 d → Survives d x → Survives d0 x
  IsOld-Survives d x h s = rw (← h.same_slot, ← h.same_replaced) s

  behind_new :
      (rest : List (Option File)) (x : Option String)
      → (rest ≡ d0.slot ∷ d0.replaced) ⊎ (rest ≡ [])
      → SomeMayRead rest x
      → Survives d0 x
  behind_new rest x (inl e) s = subst (λ r. SomeMayRead r x) e s
  behind_new [] x (inr e) s = elim s [ ]
  behind_new (r ∷ rest) x (inr e) s = cc

  slot_read :
      (slot : Option File) (x : Option String)
      → slot ≡ some (new_file text)
      → MayRead slot x
      → x ≡ some text
  slot_read none x e s = cc
  slot_read (some f) x e s = new_file-read text x (subst (λ o. MayRead o x) e s)

  IsNew-Survives :
      (d : Disk) (x : Option String)
      → IsNew d0 text d
      → Survives d x
      → Survives d0 x ⊎ (x ≡ some text)
  IsNew-Survives d x h (inl s) = inr (slot_read d.slot x h.new_slot s)
  IsNew-Survives d x h (inr s) = inl (behind_new d.replaced x h.old_replaced s)

  settled_read :
      (d : Disk) (x : Option String)
      → IsNew d0 text d
      → (rest : List (Option File)) → rest ≡ []
      → MayRead d.slot x ⊎ SomeMayRead rest x
      → x ≡ some text
  settled_read d x h rest e (inl s) = slot_read d.slot x h.new_slot s
  settled_read d x h [] e (inr s) = elim s [ ]
  settled_read d x h (r ∷ rest) e (inr s) = cc

module _ (json : Json) (path : FilePath) (pid : ℕ) (calls : Calls) (c : BatchCheckpoint)
    (d0 : Disk) where
  -- Whichever calls of a save fail, a power loss at any point of it leaves what a power loss before
  -- it could have left, or the whole text of the checkpoint. Behind a save that succeeded and synced
  -- the directory, it leaves that text.
  pub save-Survives :
      let r = save json path pid calls c d0 in
      AllStates (λ d. (x : Option String) → Survives d x → Survives d0 x ⊎ IsEncoding json c x) r.1
      × Final
          (λ d.
            calls.dir_synced (sync_target path) ≡ true
            → (x : Option String) → Survives d x
            → IsEncoding json c x)
          (λ d. (x : Option String) → Survives d x → Survives d0 x)
          r.0
          r.1.now
  save-Survives =
      let saves = save-Saves json path pid calls c d0 in
      (
        AllStates-map _
            (λ d b x s. elim b [
              | inl old ↦ inl (IsOld-Survives d0 "" d x old s)
              | inr (text, e, new) ↦ elim (IsNew-Survives d0 text d x new s) [
                | inl before ↦ inl before
                | inr same ↦ inr (text, e, same)
              ]
            ])
            saves.states,
        Final-map (IsDone json path pid calls c d0)
            (λ d.
              calls.dir_synced (sync_target path) ≡ true
              → (x : Option String) → Survives d x
              → IsEncoding json c x)
            (IsOld d0) (λ d. (x : Option String) → Survives d x → Survives d0 x)
            (save json path pid calls c d0).0 (save json path pid calls c d0).1.now
            (λ (text, e, saved) synced x s.
              (text, e, settled_read d0 text _ x saved.is_new _ (saved.settled synced) s))
            (λ old x s. IsOld-Survives d0 "" _ x old s) saves.final,
      )
