-- ===== src/Store/Start.antt =====
-- Plain starts of rust/src/recovery.rs over the store of rust/src/store.rs: which disks a start may
-- leave, whatever its calls meet and wherever a kill strikes it.
use mathlib.Core.List.{Memᴰ}
use mathlib.Core.Path.{subst}
use dssp_bot.Prelude.{
  ℕ, suc, String, Bool, true, false, ◌≡◌, refl, sym, ap, ◌∙◌, ◌⊎◌, inl, inr, Option, none, some,
  List, [], ◌∷◌, ◌++◌, All, Result, ok, err,
}
use dssp_bot.Checkpoint.{BatchCheckpoint}
use dssp_bot.Recovery.{StoredCheckpoint, Start, tracked, guard}
use dssp_bot.Recovery.Gate.{is_err, stored_after, guard-plain_saves, refusal_lasts}
use dssp_bot.Store.{FilePath, Json, Disk, Calls, show_path, load_text, save, load_with_provenance}
use dssp_bot.Store.Steps.{AllStates}
use dssp_bot.Store.Atomic.{AllStates-map, save-Saves}
use dssp_bot.Store.Slot.{IsFaithful, held, load_text-new}

module _ (json : Json) (path : FilePath) (pid : ℕ) where
  -- The disks that the saves of a start pass through, the newest first; `calls` by number. A failed
  -- save is only reported.
  unfoldable pub save_states : (ℕ → Calls) → ℕ → List BatchCheckpoint → Disk → List Disk
  save_states calls i [] d = d ∷ []
  save_states calls i (c ∷ cs) d =
      let p = (save json path pid (calls i) c d).1 in
      save_states calls (suc i) cs p.now ++ (p.now ∷ p.before)

  -- A start over the disk: its answer, and the disks it passes through, the newest first.
  unfoldable pub guard_disk : Option String → (ℕ → Calls) → Bool → Disk → Result Start × List Disk
  unfolding save_states
  guard_disk read_error calls resuming d =
      let (start, saves) =
        guard (show_path path) resuming (load_with_provenance json path read_error d) in
      (start, save_states calls 0 saves d)

  -- Whether a plain start refuses the disk.
  abbrev pub Refuses : Disk → Type 0
  Refuses d = is_err (guard (show_path path) false (held json path d)).0 ≡ true

  -- Plain starts, one behind another, each run to its end or killed at any disk it passes through.
  pub data Starts (d : Disk) : Disk → Type 0 where
    no_start : Starts d d
    then_start :
        {before after : Disk}
        → Starts d before
        → (read_error : Option String) (calls : ℕ → Calls)
        → Memᴰ after (guard_disk read_error calls false before).1
        → Starts d after

All-Memᴰ : {A : Type 0} (P : A → Type 0) (x : A) (xs : List A) → All P xs → Memᴰ x xs → P x
All-Memᴰ P x [] h m = elim m [ ]
All-Memᴰ P x (y ∷ ys) h (Memᴰ.head e) = subst P (sym e) h.0
All-Memᴰ P x (y ∷ ys) h (Memᴰ.tail m) = All-Memᴰ P x ys h.1 m

All-append : {A : Type 0} (P : A → Type 0) (xs ys : List A) → All P xs → All P ys → All P (xs ++ ys)
All-append P [] ys h k = k
All-append P (x ∷ xs) ys h k = (h.0, All-append P xs ys h.1 k)

module _ (json : Json) (faithful : IsFaithful json) (path : FilePath) (pid : ℕ) where
  abbrev answer : Result (Option StoredCheckpoint) → Bool
  answer x = is_err (guard (show_path path) false x).0

  -- What a save passes through holds what was there or the checkpoint.
  save_holds :
      (calls : Calls) (c : BatchCheckpoint) (d0 : Disk)
      → AllStates
          (λ d. (held json path d ≡ held json path d0) ⊎ (held json path d ≡ ok (some (tracked c))))
          (save json path pid calls c d0).1
  unfolding load_with_provenance
  save_holds calls c d0 =
      AllStates-map _
        (λ d b. elim b [
          | inl old ↦ inl (ap (load_text json path) old.same_slot)
          | inr (text, e, new) ↦ inr (load_text-new json faithful path c text _ e new.new_slot)
        ])
        (save-Saves json path pid calls c d0).states

  saved_Refuses :
      (calls : ℕ → Calls) (d0 : Disk) (c : BatchCheckpoint)
      → Refuses json path pid d0
      → is_err (guard (show_path path) false (ok (some (tracked c)))).0 ≡ true
      → All (Refuses json path pid) (save_states json path pid calls 0 (c ∷ []) d0)
  unfolding save_states
  saved_Refuses calls d0 c before after =
      let states =
        AllStates-map (save json path pid (calls 0) c d0).1
          (λ d h. elim h [ inl e ↦ ap answer e ∙ before | inr e ↦ ap answer e ∙ after ])
          (save_holds (calls 0) c d0) in
      (states.0, states)

  states_Refuse :
      (calls : ℕ → Calls) (d : Disk) (loaded : Result (Option StoredCheckpoint))
      → held json path d ≡ loaded
      → is_err (guard (show_path path) false loaded).0 ≡ true
      → All
          (Refuses json path pid)
          (save_states json path pid calls 0 (guard (show_path path) false loaded).1 d)
  unfolding guard save_states stored_after
  states_Refuse calls d (err e) same h = (ap answer same ∙ h, tt)
  states_Refuse calls d (ok none) same h = cc
  states_Refuse calls d (ok (some loaded)) same h =
      elim (guard-plain_saves (show_path path) loaded) [
        | inl e ↦ rw e (ap answer same ∙ h, tt)
        | inr e ↦ rw e (
            saved_Refuses calls d _ (ap answer same ∙ h) (
              subst
                (λ saves.
                  is_err (guard (show_path path) false (ok (some (stored_after loaded saves)))).0
                  ≡ true)
                e (refusal_lasts (show_path path) loaded h)))
      ]

  start_Refuses :
      (read_error : Option String) (calls : ℕ → Calls) (d : Disk)
      → Refuses json path pid d
      → All (Refuses json path pid) (guard_disk json path pid read_error calls false d).1
  unfolding guard_disk load_with_provenance
  start_Refuses none calls d h = states_Refuse calls d (held json path d) refl h
  start_Refuses (some e) calls d h = unfold guard save_states in (h, tt)

  -- However many plain starts follow one that the disk makes refuse, and whichever of their calls
  -- fail or are cut short by a kill, the disk that they leave makes a plain start refuse.
  pub refusal_outlasts :
      (d d' : Disk) → Refuses json path pid d → Starts json path pid d d' → Refuses json path pid d'
  refusal_outlasts d d' h no_start = h
  refusal_outlasts d d' h (then_start {before} s read_error calls m) =
      All-Memᴰ (Refuses json path pid) d' _
        (start_Refuses read_error calls before (refusal_outlasts d before h s)) m
