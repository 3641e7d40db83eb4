-- ===== src/Store/Steps.antt =====
-- The disks that a save of rust/src/store.rs passes through, call by call.
use dssp_bot.Prelude.{
  ℕ, String, Bool, true, false, ◌≡◌, refl, ◌⊎◌, inl, inr, Option, none, some, [], ◌∷◌, All, Result,
  ok, err,
}
use dssp_bot.Store.{
  FilePath, File, Disk, Calls, Progress, attempt, and_then, unchanged, fill, sync_temp, rename_temp,
  remove_temp, sync_dir, sync_target, temp_path, write_and_sync, clean_up, save_text,
}

-- Of the disk now, and of each that a kill could have left.
abbrev pub AllStates : (Disk → Type 0) → Progress → Type 0
AllStates I p = I p.now × All I p.before

-- `Q` of the disk that a success leaves, `E` of the one that an error does.
abbrev pub Final : (Disk → Type 0) → (Disk → Type 0) → Result (Unit {0}) → Disk → Type 0
Final Q E (ok _) d = Q d
Final Q E (err _) d = E d

pub record Passes (I Q E : Disk → Type 0) (r : Result (Unit {0}) × Progress) : Type 0 where
  pub states : AllStates I r.1
  pub final : Final Q E r.0 r.1.now

module _ {I : Disk → Type 0} where
  Passes-attempt :
      {P Q E : Disk → Type 0} (o : Option String) (f g : Disk → Disk) (p : Progress)
      → AllStates I p
      → P p.now
      → ((d : Disk) → P d → I (f d) × Q (f d))
      → ((d : Disk) → P d → I (g d) × E (g d))
      → Passes I Q E (attempt o f g p)
  unfolding attempt
  Passes-attempt none f g p states h hf hg =
      let (i, q) = hf p.now h in record { states = (i, states); final = q }
  Passes-attempt (some e) f g p states h hf hg =
      let (i, q) = hg p.now h in record { states = (i, states); final = q }

  Passes-and_then :
      {R Q E : Disk → Type 0} (r : Result (Unit {0}) × Progress)
      (k : Progress → Result (Unit {0}) × Progress)
      → Passes I R E r
      → ((p : Progress) → AllStates I p → R p.now → Passes I Q E (k p))
      → Passes I Q E (and_then r k)
  unfolding and_then
  Passes-and_then (ok u, p) k h hk = hk p h.states h.final
  Passes-and_then (err e, p) k h hk = record { states = h.states; final = h.final }

  Passes-clean_up :
      {Q E E' : Disk → Type 0} (calls : Calls) (path : FilePath) (r : Result (Unit {0}) × Progress)
      → Passes I Q E r
      → ((d : Disk) → E d → I (remove_temp calls.removed d) × E' (remove_temp calls.removed d))
      → Passes I Q E' (clean_up calls path r)
  unfolding clean_up
  Passes-clean_up calls path (ok u, p) h hr = record { states = h.states; final = h.final }
  Passes-clean_up calls path (err e, p) h hr =
      let (i, e') = hr p.now h.final in record { states = (i, h.states); final = e' }

abbrev pub new_file : String → File
new_file text = record { content = text; synced = true }

module _ (d0 : Disk) where
  -- The checkpoint's name stands for what it did.
  pub record IsOld (d : Disk) : Type 0 where
    pub same_slot : d.slot ≡ d0.slot
    pub same_replaced : d.replaced ≡ d0.replaced

  fill-IsOld : (t : String) (d : Disk) → IsOld d → IsOld (fill t d)
  fill-IsOld t d h = record { same_slot = h.same_slot; same_replaced = h.same_replaced }

  remove_temp-IsOld : (b : Bool) (d : Disk) → IsOld d → IsOld (remove_temp b d)
  remove_temp-IsOld true d h = record { same_slot = h.same_slot; same_replaced = h.same_replaced }
  remove_temp-IsOld false d h = h

module _ (d0 : Disk) (text : String) where
  pub record IsReady (d : Disk) : Type 0 where
    pub is_old : IsOld d0 d
    pub written : d.temp ≡ some (new_file text)

  -- The checkpoint's name stands for the new file, all of which is on the disk.
  pub record IsNew (d : Disk) : Type 0 where
    pub new_slot : d.slot ≡ some (new_file text)
    pub old_replaced : (d.replaced ≡ d0.slot ∷ d0.replaced) ⊎ (d.replaced ≡ [])

  abbrev pub Between : Disk → Type 0
  Between d = IsOld d0 d ⊎ IsNew d

  record IsFilled (content : String) (synced : Bool) (d : Disk) : Type 0 where
    is_old : IsOld d0 d
    filled : d.temp ≡ some (record { content = content; synced = synced })

  sync_temp-IsReady : (d : Disk) → IsFilled text false d → IsReady (sync_temp d)
  sync_temp-IsReady d h = record {
    is_old = record { same_slot = h.is_old.same_slot; same_replaced = h.is_old.same_replaced };
    written = rw h.filled;
  }

  write_and_sync-Passes :
      (calls : Calls) (p : Progress)
      → AllStates Between p
      → IsOld d0 p.now
      → Passes Between IsReady (IsOld d0) (write_and_sync calls text p)
  unfolding write_and_sync
  write_and_sync-Passes calls p states old =
      Passes-and_then {R = IsOld d0} _ _
        (Passes-attempt calls.create (fill "") unchanged p states old
          (λ d h. (inl (fill-IsOld d0 "" d h), fill-IsOld d0 "" d h)) (λ d h. (inl h, h)))
        (λ p1 states1 old1.
          Passes-and_then {R = IsFilled text false} _ _
            (Passes-attempt calls.write (fill text) (fill calls.torn) p1 states1 old1
              (λ d h. (
                inl (fill-IsOld d0 text d h),
                record { is_old = fill-IsOld d0 text d h; filled = refl },
              ))
              (λ d h. (inl (fill-IsOld d0 calls.torn d h), fill-IsOld d0 calls.torn d h)))
            (λ p2 states2 filled.
              Passes-attempt calls.sync sync_temp unchanged p2 states2 filled
                (λ d h. (inl (sync_temp-IsReady d h).is_old, sync_temp-IsReady d h))
                (λ d h. (inl h.is_old, h.is_old))))

  rename_temp-IsNew : (d : Disk) → IsReady d → IsNew (rename_temp d)
  rename_temp-IsNew d h = record {
    new_slot = h.written;
    old_replaced = inl (cc (h.is_old.same_slot, h.is_old.same_replaced));
  }

  -- Where the directory was synced, nothing can bring the old file back.
  pub record IsSaved (synced : Bool) (d : Disk) : Type 0 where
    pub is_new : IsNew d
    pub settled : synced ≡ true → d.replaced ≡ []

  sync_dir-IsSaved : (b : Bool) (d : Disk) → IsNew d → IsSaved b (sync_dir b d)
  sync_dir-IsSaved true d h = record {
    is_new = record { new_slot = h.new_slot; old_replaced = inr refl };
    settled = λ e. refl;
  }
  sync_dir-IsSaved false d h = record { is_new = h; settled = λ e. cc }

  -- Whichever calls fail, each disk on the way is the old one or the new one; a success leaves the
  -- new one, and an error the old one.
  pub save_text-Passes :
      (calls : Calls) (path : FilePath) (pid : ℕ) (p : Progress)
      → AllStates Between p
      → IsOld d0 p.now
      → Passes Between
          (IsSaved (calls.dir_synced (sync_target path)))
          (IsOld d0)
          (save_text calls path pid text p)
  unfolding save_text
  save_text-Passes calls path pid p states old =
      Passes-and_then {R = IsReady} _ _
        (Passes-clean_up calls (temp_path path pid) _ (write_and_sync-Passes calls p states old)
          (λ d h. (inl (remove_temp-IsOld d0 _ d h), remove_temp-IsOld d0 _ d h)))
        (λ p1 states1 ready.
          Passes-and_then {R = IsNew} _ _
            (Passes-clean_up {E = IsOld d0} calls path _
              (Passes-attempt calls.rename rename_temp unchanged p1 states1 ready
                (λ d h. (inr (rename_temp-IsNew d h), rename_temp-IsNew d h))
                (λ d h. (inl h.is_old, h.is_old)))
              (λ d h. (inl (remove_temp-IsOld d0 _ d h), remove_temp-IsOld d0 _ d h)))
            (λ p2 states2 new.
              let saved = sync_dir-IsSaved (calls.dir_synced (sync_target path)) p2.now new in
              record { states = (inr saved.is_new, states2); final = saved }))
