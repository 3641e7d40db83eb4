-- ===== src/Store/Closed.antt =====
-- The close-out of rust/src/recovery.rs over the store of rust/src/store.rs, whose saves may fail.
use dssp_bot.Prelude.{
  ℕ, suc, Bool, true, false, ◌≡◌, refl, sym, ap, ◌∙◌, inl, inr, some, List, [], ◌∷◌, Result, ok,
  err,
}
use dssp_bot.Report.{TrainingResult}
use dssp_bot.Checkpoint.{BatchCheckpoint, mark_interrupted}
use dssp_bot.Recovery.{tracked, resume, guard}
use dssp_bot.Recovery.Gate.{is_err}
use dssp_bot.Recovery.Resume.{plan_of}
use dssp_bot.Recovery.CloseOut.{closing, closing_saves, closing_opens, interrupted_same}
use dssp_bot.Store.{FilePath, Json, Disk, Calls, show_path, save}
use dssp_bot.Store.Steps.{Final}
use dssp_bot.Store.Slot.{IsFaithful, held, save_replaces}

module _ (json : Json) (path : FilePath) where
  -- Whether a plain start refuses the disk.
  abbrev pub refuses : Disk → Bool
  refuses d = is_err (guard (show_path path) false (held json path d)).0

module _ (json : Json) (path : FilePath) (pid : ℕ) where
  -- The saves of a start, one behind another: what the last of them answers, and the disk behind it. A
  -- failed save is only reported.
  unfoldable pub save_each :
      (ℕ → Calls) → ℕ → Result (Unit {0}) → List BatchCheckpoint → Disk → Result (Unit {0}) × Disk
  save_each calls i last [] d = (last, d)
  save_each calls i last (c ∷ cs) d =
      let (r, states) = save json path pid (calls i) c d in save_each calls (suc i) r cs states.now

  abbrev refuses_file : BatchCheckpoint → Bool
  refuses_file c = is_err (guard (show_path path) false (ok (some (tracked c)))).0

  module _ (faithful : IsFaithful json) where
    Final-answer :
        (r : Result (Unit {0})) (c : BatchCheckpoint) (d d' : Disk)
        → Final
            (λ x. held json path x ≡ ok (some (tracked c)))
            (λ x. held json path x ≡ held json path d)
            r
            d'
        → Final
            (λ x. refuses json path x ≡ refuses_file c)
            (λ x. refuses json path x ≡ refuses json path d)
            r
            d'
    Final-answer (ok u) c d d' h = ap (λ x. is_err (guard (show_path path) false x).0) h
    Final-answer (err e) c d d' h = ap (λ x. is_err (guard (show_path path) false x).0) h

    save_answer :
        (calls : Calls) (c : BatchCheckpoint) (d : Disk)
        → let (r, states) = save json path pid calls c d in
          Final
            (λ x. refuses json path x ≡ refuses_file c)
            (λ x. refuses json path x ≡ refuses json path d)
            r
            states.now
    save_answer calls c d =
        Final-answer (save json path pid calls c d).0 c d (save json path pid calls c d).1.now
          (save_replaces json faithful path pid calls c d)

    either_way :
        (r : Result (Unit {0})) (a b : Bool) (d' : Disk)
        → Final (λ x. refuses json path x ≡ a) (λ x. refuses json path x ≡ b) r d'
        → a ≡ b
        → refuses json path d' ≡ b
    either_way (ok u) a b d' h e = h ∙ e
    either_way (err x) a b d' h e = h

    closed_answer :
        (r : Result (Unit {0})) (c : BatchCheckpoint) (d1 d d' : Disk)
        → Final
            (λ x. refuses json path x ≡ refuses_file c)
            (λ x. refuses json path x ≡ refuses json path d1)
            r
            d'
        → refuses_file c ≡ false
        → refuses json path d1 ≡ refuses json path d
        → Final
            (λ x. refuses json path x ≡ false)
            (λ x. refuses json path x ≡ refuses json path d)
            r
            d'
    closed_answer (ok u) c d1 d d' h opens same = h ∙ opens
    closed_answer (err x) c d1 d d' h opens same = h ∙ same

    -- Whichever of its calls fail, of an acknowledged start over a file that tracks its work, with
    -- nothing left to run and no answer owed: where its last save succeeds, that of the closed file, a
    -- plain start goes over the disk that it leaves; where that save fails, a plain start refuses that
    -- disk exactly if it refused the disk before.
    pub close_out :
        (calls : ℕ → Calls) (d : Disk) (c : BatchCheckpoint) (rows : List TrainingResult)
        → held json path d ≡ ok (some (tracked c))
        → plan_of (guard (show_path path) true (held json path d)).0 ≡ some (resume [] rows 0)
        → let (r, d') =
            save_each calls 0 (ok tt) (guard (show_path path) true (held json path d)).1 d in
          Final
            (λ x. refuses json path x ≡ false)
            (λ x. refuses json path x ≡ refuses json path d)
            r
            d'
    unfolding save_each
    close_out calls d c rows file plan =
        let (owed, written) = closing_saves (show_path path) c rows (rw file at plan) in
        let opens = closing_opens (show_path path) c owed in
        let saves = ap (λ x. (guard (show_path path) true x).1) file in
        elim written [
          | inl e ↦
              rw (saves ∙ e)
                (closed_answer _ (closing c) d d _ (save_answer (calls 0) (closing c) d) opens refl)
          | inr e ↦
              let c' = (mark_interrupted c).1 in
              let (r1, states) = save json path pid (calls 0) c' d in
              let same : refuses_file c' ≡ refuses json path d =
                interrupted_same (show_path path) c
                ∙ sym (ap (λ x. is_err (guard (show_path path) false x).0) file) in
              rw (saves ∙ e) (
                closed_answer _ (closing c) _ d _ (save_answer (calls 1) (closing c) _) opens (
                  either_way _ (refuses_file c') (refuses json path d) _
                    (save_answer (calls 0) c' d) same))
        ]
