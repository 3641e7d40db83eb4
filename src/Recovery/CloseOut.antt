-- ===== src/Recovery/CloseOut.antt =====
-- The resume of rust/src/recovery.rs that has nothing left to run: it closes the file out.
use dssp_bot.Prelude.{
  String, Bool, true, false, ◌≡◌, ◌⊎◌, sym, refl, ap, ◌∙◌, some, List, [], ◌∷◌, arith, ok, length,
  filter, any,
}
use dssp_bot.Report.{Outcome, TrainingResult}
use dssp_bot.Checkpoint.{
  finished, BatchCheckpoint, is_outcome, mark_interrupted, unreconciled, unaccounted, blocks_start,
  untracked_suspect,
}
use dssp_bot.Checkpoint.Gate.{blocks_start-mark_interrupted}
use dssp_bot.Checkpoint.Partition.{length-unreconciled}
use dssp_bot.Recovery.{tracked, resume, resume_owed, resume_start, promoted, reconcile, guard}
use dssp_bot.Recovery.Gate.{is_err, guard-plain, promoted-tracked}
use dssp_bot.Recovery.Resume.{plan_of}

any-filter :
    (p : TrainingResult → Bool) (rs : List TrainingResult)
    → length (filter p rs) ≡ 0
    → any p rs ≡ false
any-filter p [] h = refl
any-filter p (r ∷ rs) h = ground (arith, any-filter p rs)

-- A closed file with nothing unconfirmed and nothing missing lets every start through.
finished_open :
    (c : BatchCheckpoint)
    → length (unreconciled c).indeterminate ≡ 0
    → unaccounted c ≡ 0
    → blocks_start (record c { status = finished }) ≡ false
unfolding blocks_start unaccounted
finished_open c u m =
    ground (arith, length-unreconciled c, any-filter (is_outcome Outcome.indeterminate) c.results)

owed_parts :
    (c : BatchCheckpoint)
    → resume_owed c true ≡ 0
    → (length (unreconciled c).indeterminate ≡ 0) × (unaccounted c ≡ 0)
unfolding resume_owed
owed_parts c h = omega arith

-- A start that has nothing left to run and owes nothing, and the file that it closes.
abbrev pub closing : BatchCheckpoint → BatchCheckpoint
closing c = record (mark_interrupted c).1 { status = finished }

-- What it writes: the closed file, behind the interrupted one or alone.
pub closing_saves :
    (path : String) (c : BatchCheckpoint) (rows : List TrainingResult)
    → plan_of (guard path true (ok (some (tracked c)))).0 ≡ some (resume [] rows 0)
    → let (start, saves) = guard path true (ok (some (tracked c))) in
      (resume_owed (mark_interrupted c).1 true ≡ 0)
      × ((saves ≡ closing c ∷ []) ⊎ (saves ≡ (mark_interrupted c).1 ∷ closing c ∷ []))
unfolding guard reconcile resume_start promoted untracked_suspect plan_of
closing_saves path c rows e = (ground arith, ground arith)

-- A plain start goes over the closed file.
pub closing_opens :
    (path : String) (c : BatchCheckpoint)
    → resume_owed (mark_interrupted c).1 true ≡ 0
    → is_err (guard path false (ok (some (tracked (closing c))))).0 ≡ false
closing_opens path c owed =
    let c' = (mark_interrupted c).1 in
    guard-plain path _
    ∙ ap blocks_start (promoted-tracked _)
    ∙ finished_open c' (owed_parts c' owed).0 (owed_parts c' owed).1

-- A plain start answers the interrupted file as it answers the file.
pub interrupted_same :
    (path : String) (c : BatchCheckpoint)
    → is_err (guard path false (ok (some (tracked (mark_interrupted c).1)))).0
      ≡ is_err (guard path false (ok (some (tracked c)))).0
interrupted_same path c =
    guard-plain path _
    ∙ ap blocks_start (promoted-tracked _)
    ∙ blocks_start-mark_interrupted c
    ∙ sym (guard-plain path (tracked c) ∙ ap blocks_start (promoted-tracked c))
