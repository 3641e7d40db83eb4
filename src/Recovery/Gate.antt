-- ===== src/Recovery/Gate.antt =====
-- The plain start of rust/src/recovery.rs: which files it goes over, and that a refusal lasts.
use text.Mathlib.TextPositions.{eq_refl}
use dssp_bot.Prelude.{
  sym, ap, ◌∙◌, String, Bool, true, false, ◌≡◌, refl, ◌⊎◌, none, some, List, [], ◌∷◌, arith, Result,
  ok, err, any, All, inl, inr,
}
use dssp_bot.Report.{Outcome}
use dssp_bot.Checkpoint.{
  finished, BatchCheckpoint, is_outcome, unaccounted, blocks_start, mark_interrupted,
  untracked_suspect, promote_suspect,
}
use dssp_bot.Checkpoint.Gate.{IsSkipped, open_gate, blocks_start-mark_interrupted}
use dssp_bot.Recovery.{StoredCheckpoint, Start, tracked, promoted, reconcile, guard}

abbrev pub is_err : Result Start → Bool
is_err (ok s) = false
is_err (err e) = true

-- The file once the saves were made: each is written by this build, with the `in_flight` key.
unfoldable pub stored_after : StoredCheckpoint → List BatchCheckpoint → StoredCheckpoint
stored_after loaded [] = loaded
stored_after loaded (c ∷ cs) = stored_after (tracked c) cs

pub guard-plain :
    (path : String) (loaded : StoredCheckpoint)
    → is_err (guard path false (ok (some loaded))).0 ≡ blocks_start (promoted loaded)
unfolding guard reconcile
guard-plain path loaded = ground arith

-- Where the promoted file does not block, nothing was promoted.
promoted-open :
    (loaded : StoredCheckpoint) (ids : List String)
    → loaded.checkpoint.pending ≡ ids
    → blocks_start (promoted loaded) ≡ false
    → (promoted loaded ≡ loaded.checkpoint) × ((loaded.tracks_in_flight ≡ true) ⊎ (ids ≡ []))
unfolding promoted untracked_suspect promote_suspect blocks_start
promoted-open loaded [] p b = ground arith
promoted-open loaded (x ∷ xs) p b = ground (arith, eq_refl x)

-- A plain start over a file goes ahead only where the file has nothing in flight or unconfirmed and
-- accounts for its total, where its batch recorded its finish or every row was skipped, and where
-- the file could name a trainee in flight or has an empty queue.
pub plain_start_safe :
    (path : String) (loaded : StoredCheckpoint)
    → is_err (guard path false (ok (some loaded))).0 ≡ false
    → let c = loaded.checkpoint in
      (c.in_flight ≡ none)
      × (unaccounted c ≡ 0)
      × (any (is_outcome Outcome.indeterminate) c.results ≡ false)
      × ((c.status ≡ finished) ⊎ All IsSkipped c.results)
      × ((loaded.tracks_in_flight ≡ true) ⊎ (c.pending ≡ []))
plain_start_safe path loaded h =
    let unblocked = sym (guard-plain path loaded) ∙ h in
    let (same, queue) = promoted-open loaded loaded.checkpoint.pending refl unblocked in
    let (a, b, c, d) = open_gate loaded.checkpoint (sym (ap blocks_start same) ∙ unblocked) in
    (a, b, c, d, queue)

-- What a plain start writes: the promoted file, marked as interrupted, or nothing.
pub guard-plain_saves :
    (path : String) (loaded : StoredCheckpoint)
    → let previous = (mark_interrupted (promoted loaded)).1 in
      ((guard path false (ok (some loaded))).1 ≡ [])
      ⊎ ((guard path false (ok (some loaded))).1 ≡ previous ∷ [])
unfolding guard reconcile
guard-plain_saves path loaded = ground arith

pub promoted-tracked : (c : BatchCheckpoint) → promoted (tracked c) ≡ c
unfolding promoted untracked_suspect
promoted-tracked c = refl

-- A plain start that refuses a file refuses the file that it leaves.
pub refusal_lasts :
    (path : String) (loaded : StoredCheckpoint)
    → let first = guard path false (ok (some loaded)) in
      is_err first.0 ≡ true
      → is_err (guard path false (ok (some (stored_after loaded first.1)))).0 ≡ true
refusal_lasts path loaded h = elim (guard-plain_saves path loaded) [
  | inl e ↦ rw e (unfold stored_after in h)
  | inr e ↦ rw e (
      unfold stored_after in
      guard-plain path _
      ∙ ap blocks_start (promoted-tracked _)
      ∙ blocks_start-mark_interrupted (promoted loaded)
      ∙ sym (guard-plain path loaded)
      ∙ h)
]
