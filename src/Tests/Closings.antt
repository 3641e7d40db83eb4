-- ===== src/Tests/Closings.antt =====
-- A batch that is closed out, at a concrete input.
use mathlib.Core.Path.{subst}
use text.Mathlib.TextEquality.{eq_iff}
use dssp_bot.Prelude.{
  String, Bool, true, false, ◌≡◌, refl, sym, ap, ◌&&◌, ◌==◌, Option, none, some, List, [], ◌∷◌,
  Result, ok, err, str_eq, if◌then◌else◌,
}
use dssp_bot.Report.{Outcome, TrainingResult}
use dssp_bot.Checkpoint
use dssp_bot.Checkpoint.{BatchCheckpoint, CheckpointStatus, running, finished}
use dssp_bot.Recovery
use dssp_bot.Recovery.{guard}
use dssp_bot.Recovery.Resume.{plan_of}
use dssp_bot.Store
use dssp_bot.Store.{Json, Disk, show_path}
use dssp_bot.Store.Steps.{Final}
use dssp_bot.Store.Slot.{IsFaithful, held}
use dssp_bot.Store.Closed.{save_each, refuses, close_out}
use dssp_bot.Tests.Codecs.{
  and_split, count_only, empty_only, is_empty_list, job_file, calm_calls, holding,
}

abbrev confirmed : TrainingResult
confirmed = record {
  trainee_id = "7";
  trainee_name = "A";
  outcome = Outcome.success;
  attempts = 1;
  error_code = none;
  message = none;
}

-- The process died behind its last row.
abbrev settled : BatchCheckpoint
settled = record {
  status = running;
  started_at = "1";
  updated_at = "2";
  total = 1;
  results = confirmed ∷ [];
  pending = [];
  in_flight = none;
}

abbrev closed : BatchCheckpoint
closed = record settled { status = finished }

abbrev is_none : Option String → Bool
is_none none = true
is_none (some s) = false

none_only : (o : Option String) → is_none o ≡ true → o ≡ none
none_only none h = refl
none_only (some s) h = cc

abbrev is_success : Outcome → Bool
is_success Outcome.success = true
is_success _ = false

success_only : (o : Outcome) → is_success o ≡ true → o ≡ Outcome.success
success_only Outcome.success h = refl
success_only _ h = cc

abbrev is_finished : CheckpointStatus → Bool
is_finished finished = true
is_finished _ = false

finished_only : (s : CheckpointStatus) → is_finished s ≡ true → s ≡ finished
finished_only finished h = refl
finished_only _ h = cc

abbrev is_confirmed : TrainingResult → Bool
is_confirmed r =
    str_eq r.trainee_id "7"
    && (str_eq r.trainee_name "A"
        && (is_success r.outcome
            && (r.attempts == 1 && (is_none r.error_code && is_none r.message))))

confirmed_only : (r : TrainingResult) → is_confirmed r ≡ true → r ≡ confirmed
confirmed_only r h =
    let (h1, r1) = and_split {a = str_eq r.trainee_id "7"} h in
    let (h2, r2) = and_split {a = str_eq r.trainee_name "A"} r1 in
    let (h3, r3) = and_split {a = is_success r.outcome} r2 in
    let (h4, r4) = and_split {a = r.attempts == 1} r3 in
    let (h5, h6) = and_split {a = is_none r.error_code} r4 in
    let e1 = (eq_iff r.trainee_id "7").0 h1 in
    let e2 = (eq_iff r.trainee_name "A").0 h2 in
    let e3 = success_only r.outcome h3 in
    let e4 = count_only r.attempts h4 in
    let e5 = none_only r.error_code h5 in
    let e6 = none_only r.message h6 in
    λ i. record {
      trainee_id = e1 i;
      trainee_name = e2 i;
      outcome = e3 i;
      attempts = e4 i;
      error_code = e5 i;
      message = e6 i;
    }

abbrev is_rows : List TrainingResult → Bool
is_rows [] = false
is_rows (r ∷ rs) = is_confirmed r && is_empty_list rs

rows_only : (rs : List TrainingResult) → is_rows rs ≡ true → rs ≡ confirmed ∷ []
rows_only [] h = cc
rows_only (r ∷ rs) h =
    let (h1, h2) = and_split {a = is_confirmed r} h in
    let e1 = confirmed_only r h1 in let e2 = empty_only rs h2 in λ i. e1 i ∷ e2 i

abbrev is_closed : BatchCheckpoint → Bool
is_closed c =
    is_finished c.status
    && (str_eq c.started_at "1"
        && (str_eq c.updated_at "2"
            && (c.total == 1
                && (is_rows c.results && (is_empty_list c.pending && is_none c.in_flight)))))

closed_only : (c : BatchCheckpoint) → is_closed c ≡ true → c ≡ closed
closed_only c h =
    let (h1, r1) = and_split {a = is_finished c.status} h in
    let (h2, r2) = and_split {a = str_eq c.started_at "1"} r1 in
    let (h3, r3) = and_split {a = str_eq c.updated_at "2"} r2 in
    let (h4, r4) = and_split {a = c.total == 1} r3 in
    let (h5, r5) = and_split {a = is_rows c.results} r4 in
    let (h6, h7) = and_split {a = is_empty_list c.pending} r5 in
    let e1 = finished_only c.status h1 in
    let e2 = (eq_iff c.started_at "1").0 h2 in
    let e3 = (eq_iff c.updated_at "2").0 h3 in
    let e4 = count_only c.total h4 in
    let e5 = rows_only c.results h5 in
    let e6 = empty_only c.pending h6 in
    let e7 = none_only c.in_flight h7 in
    λ i. record {
      status = e1 i;
      started_at = e2 i;
      updated_at = e3 i;
      total = e4 i;
      results = e5 i;
      pending = e6 i;
      in_flight = e7 i;
    }

-- It writes `closed` alone, and reads `settled` too.
abbrev closing_codec : Json
closing_codec = record {
  to_text = λ c. if is_closed c then ok "closed" else err "not this one";
  has_in_flight = λ t. ok true;
  from_text = λ t.
      if str_eq t "closed"
      then ok closed
      else if str_eq t "settled"
      then ok settled
      else err "not this text";
}

closing_codec-IsFaithful : IsFaithful closing_codec
closing_codec-IsFaithful c text h = coded (is_closed c) refl h
  where
    coded :
        (b : Bool)
        → is_closed c ≡ b
        → ◌≡◌ {A = Result String} (if b then ok "closed" else err "not this one") (ok text)
        → (closing_codec.has_in_flight text ≡ ok true) × (closing_codec.from_text text ≡ ok c)
    coded true e h =
        let same : "closed" ≡ text = cc in
        (refl, subst (λ t. closing_codec.from_text t ≡ ok c) same (ap ok (sym (closed_only c e))))
    coded false e h = cc

-- The first save fails, and the last succeeds.
closed_slot :
    let (r, d) =
      save_each closing_codec job_file 42
        (λ i. calm_calls)
        0
        (ok tt)
        (guard (show_path job_file) true (held closing_codec job_file (holding "settled"))).1
        (holding "settled") in
    (r ≡ ok tt)
    × (refuses closing_codec job_file (holding "settled") ≡ true)
    × (refuses closing_codec job_file d ≡ false)
unfolding save_each guard Recovery.reconcile Recovery.promoted Recovery.resume_start
    Recovery.resume_roster Recovery.resume_owed Recovery.resume_carried Recovery.restore_suspect
    Recovery.carried Recovery.continuable Checkpoint.untracked_suspect Checkpoint.blocks_start
    Checkpoint.mark_interrupted Checkpoint.never_attempted Checkpoint.unreconciled
    Checkpoint.unaccounted Checkpoint.in_flight_record Store.load_with_provenance Store.load_text
    Store.decoded Store.save Store.save_encoded Store.save_text Store.write_and_sync Store.and_then
    Store.attempt
closed_slot = (refl, refl, refl)

close_out_example :
    let (r, d) =
      save_each closing_codec job_file 42
        (λ i. calm_calls)
        0
        (ok tt)
        (guard (show_path job_file) true (held closing_codec job_file (holding "settled"))).1
        (holding "settled") in
    Final
      (λ x. refuses closing_codec job_file x ≡ false)
      (λ x. refuses closing_codec job_file x ≡ refuses closing_codec job_file (holding "settled"))
      r
      d
unfolding plan_of guard Recovery.reconcile Recovery.promoted Recovery.resume_start
    Recovery.resume_roster Recovery.resume_owed Recovery.resume_carried Recovery.restore_suspect
    Recovery.carried Recovery.continuable Checkpoint.untracked_suspect Checkpoint.blocks_start
    Checkpoint.mark_interrupted Checkpoint.never_attempted Checkpoint.unreconciled
    Checkpoint.unaccounted Checkpoint.in_flight_record Store.load_with_provenance Store.load_text
    Store.decoded
close_out_example =
    close_out closing_codec job_file 42 closing_codec-IsFaithful (λ i. calm_calls)
      (holding "settled") settled (confirmed ∷ []) refl refl
