-- ===== src/Tests/Codecs.antt =====
-- A store at concrete inputs: two checkpoints, their texts, and the disks that hold them.
use mathlib.Core.Path.{subst}
use text.Mathlib.TextEquality.{eq_iff}
use dssp_bot.Prelude.{
  ℕ, String, Bool, true, false, ◌≡◌, refl, sym, ap, ◌&&◌, ◌==◌, Option, none, some, List, [], ◌∷◌,
  Result, ok, err, str_eq, if◌then◌else◌, arith,
}
use dssp_bot.Checkpoint.{BatchCheckpoint, CheckpointStatus, running, interrupted}
use dssp_bot.Store.{FilePath, Json, Disk, Calls}
use dssp_bot.Store.Slot.{IsFaithful}

abbrev pub lone : BatchCheckpoint
lone = record {
  status = running;
  started_at = "0";
  updated_at = "0";
  total = 1;
  results = [];
  pending = [];
  in_flight = some "7";
}

-- What a start makes of it.
abbrev pub seen : BatchCheckpoint
seen = record lone { status = interrupted }

abbrev pub is_interrupted : CheckpointStatus → Bool
is_interrupted interrupted = true
is_interrupted _ = false

abbrev pub is_empty_list : {A : Type 0} → List A → Bool
is_empty_list [] = true
is_empty_list (x ∷ xs) = false

abbrev pub is_seven : Option String → Bool
is_seven none = false
is_seven (some key) = str_eq key "7"

abbrev pub is_running : CheckpointStatus → Bool
is_running running = true
is_running _ = false

-- One of the two, by a test of the status.
abbrev pub is_file : (CheckpointStatus → Bool) → BatchCheckpoint → Bool
is_file has_status c =
    has_status c.status
    && (str_eq c.started_at "0"
        && (str_eq c.updated_at "0"
            && (c.total == 1
                && (is_empty_list c.results && (is_empty_list c.pending && is_seven c.in_flight)))))

pub and_split : {a b : Bool} → (a && b) ≡ true → (a ≡ true) × (b ≡ true)
and_split {a = a} {b} h = ground arith

pub count_only : (n : ℕ) → (n == 1) ≡ true → n ≡ 1
count_only n h = ground arith

pub interrupted_only : (s : CheckpointStatus) → is_interrupted s ≡ true → s ≡ interrupted
interrupted_only interrupted h = refl
interrupted_only _ h = cc

pub running_only : (s : CheckpointStatus) → is_running s ≡ true → s ≡ running
running_only running h = refl
running_only _ h = cc

pub empty_only : {A : Type 0} → (xs : List A) → is_empty_list xs ≡ true → xs ≡ []
empty_only [] h = refl
empty_only (x ∷ xs) h = cc

pub seven_only : (o : Option String) → is_seven o ≡ true → o ≡ some "7"
seven_only none h = cc
seven_only (some key) h = ap some ((eq_iff key "7").0 h)

pub file_only :
    (has_status : CheckpointStatus → Bool) (status : CheckpointStatus)
    → ((s : CheckpointStatus) → has_status s ≡ true → s ≡ status)
    → (c : BatchCheckpoint) → is_file has_status c ≡ true
    → c ≡ record lone { status = status }
file_only has_status status only c h =
    let (h1, r1) = and_split {a = has_status c.status} h in
    let (h2, r2) = and_split {a = str_eq c.started_at "0"} r1 in
    let (h3, r3) = and_split {a = str_eq c.updated_at "0"} r2 in
    let (h4, r4) = and_split {a = c.total == 1} r3 in
    let (h5, r5) = and_split {a = is_empty_list c.results} r4 in
    let (h6, h7) = and_split {a = is_empty_list c.pending} r5 in
    let e1 = only c.status h1 in
    let e2 = (eq_iff c.started_at "0").0 h2 in
    let e3 = (eq_iff c.updated_at "0").0 h3 in
    let e4 = count_only c.total h4 in
    let e5 = empty_only c.results h5 in
    let e6 = empty_only c.pending h6 in
    let e7 = seven_only c.in_flight h7 in
    λ i. record {
      status = e1 i;
      started_at = e2 i;
      updated_at = e3 i;
      total = e4 i;
      results = e5 i;
      pending = e6 i;
      in_flight = e7 i;
    }

-- It writes and reads these two alone.
abbrev pub written : Bool → Bool → Result String
written seen lone = if seen then ok "seen" else if lone then ok "lone" else err "neither of them"

abbrev pub codec : Json
codec = record {
  to_text = λ c. written (is_file is_interrupted c) (is_file is_running c);
  has_in_flight = λ t. ok true;
  from_text = λ t.
      if str_eq t "seen" then ok seen else if str_eq t "lone" then ok lone else err "not this text";
}

pub codec-IsFaithful : IsFaithful codec
codec-IsFaithful c text h = coded (is_file is_interrupted c) (is_file is_running c) refl refl h
  where
    coded :
        (a b : Bool)
        → is_file is_interrupted c ≡ a
        → is_file is_running c ≡ b
        → written a b ≡ ok text
        → (codec.has_in_flight text ≡ ok true) × (codec.from_text text ≡ ok c)
    coded true b e k h =
        let same : "seen" ≡ text = cc in
        (
          refl,
          subst (λ t. codec.from_text t ≡ ok c) same
              (ap ok (sym (file_only is_interrupted interrupted interrupted_only c e))),
        )
    coded false true e k h =
        let same : "lone" ≡ text = cc in
        (
          refl,
          subst (λ t. codec.from_text t ≡ ok c) same
              (ap ok (sym (file_only is_running running running_only c k))),
        )
    coded false false e k h = cc

abbrev pub job_file : FilePath
job_file = record { dir = "jobs/"; name = "dssp.checkpoint.json" }

-- Every call succeeds.
abbrev pub calm_calls : Calls
calm_calls = record {
  create = none;
  write = none;
  torn = "";
  sync = none;
  rename = none;
  removed = true;
  dir_synced = λ dir. true;
}

-- The disk fills up in the middle of the text, and the temporary file cannot be removed.
abbrev pub full_disk : Calls
full_disk = record calm_calls {
  write = some "No space left on device";
  torn = "lo";
  removed = false;
}

abbrev pub holding : String → Disk
holding text = record {
  slot = some (record { content = text; synced = true });
  temp = none;
  replaced = [];
}
