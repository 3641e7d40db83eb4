-- ===== src/Daemon/Start/Admitted.antt =====
-- rust/src/daemon.rs, `start`: what an admitted batch is, and that admission never panics.
use mathlib.Core.Path.{subst}
use dssp_bot.Prelude.{
  ℕ, String, Bool, true, false, not, ◌&&◌, ◌||◌, ◌≡◌, ◌≢◌, ◌↔◌, refl, sym, Option, none, some, List,
  [], ◌∷◌, Result, ok, err, any, is_empty, is_some, if◌then◌else◌, arith, All,
}
use dssp_bot.Protocol.{TraineeRef, SessionInput}
use dssp_bot.Report.{TrainingResult}
use dssp_bot.Checkpoint.{BatchCheckpoint}
use dssp_bot.Recovery
use dssp_bot.Recovery.{StoredCheckpoint, Plan, Start, fresh, resume, guard}
use dssp_bot.Daemon.Start.{
  BatchRequest, Admission, refused, admitted, closes, panics, lacks_key, is_incomplete, close_batch,
  admit_roster, admit_plan, admit_batch,
}

-- A resume has a predecessor.
abbrev has_previous : Option BatchCheckpoint → Plan → Bool
has_previous previous fresh = true
has_previous previous (resume roster carried owed) = is_some previous

abbrev preceded : Result Start → Bool
preceded (err e) = true
preceded (ok start) = has_previous start.previous start.plan

reconcile-preceded :
    (path : String) (resuming : Bool) (stored : StoredCheckpoint)
    → preceded (Recovery.reconcile path resuming stored).0 ≡ true
unfolding Recovery.reconcile Recovery.resume_start
reconcile-preceded path true stored = refl
reconcile-preceded path false stored = ground arith

guard-preceded :
    (path : String) (resuming : Bool) (loaded : Result (Option StoredCheckpoint))
    → preceded (guard path resuming loaded).0 ≡ true
unfolding guard
guard-preceded path resuming (err e) = refl
guard-preceded path resuming (ok none) = refl
guard-preceded path resuming (ok (some stored)) = reconcile-preceded path resuming stored

-- The trainees that the start leaves to submit: the request's, or those of a resume.
abbrev pub wanted_of : BatchRequest → Plan → List TraineeRef
wanted_of req fresh = req.trainees
wanted_of req (resume roster carried owed) = roster

-- The rows that the start carries over, and how many of them a human owes an answer for.
abbrev pub carried_of : Plan → List TrainingResult
carried_of fresh = []
carried_of (resume roster carried owed) = carried

abbrev pub owed_of : Plan → ℕ
owed_of fresh = 0
owed_of (resume roster carried owed) = owed

module _ (is_blank : String → Bool) where
  -- The trainee's id, or where it has none its name, has a text.
  abbrev pub IsKeyed : Option String → Option String → Type 0
  IsKeyed (some id) name = is_blank id ≡ false
  IsKeyed none (some name) = is_blank name ≡ false
  IsKeyed none none = ⊥

  -- Somebody is to be submitted, everybody has a key, and every field of the session a text.
  pub record IsComplete (wanted : List TraineeRef) (session : SessionInput) : Type 0 where
    pub somebody : wanted ≢ []
    pub keys : All (λ t. IsKeyed t.id t.name) wanted
    pub date : is_blank session.training_date ≡ false
    pub instructor : is_blank session.instructor ≡ false
    pub training : is_blank session.training_type ≡ false

  neither : (a b : Bool) → (a || b) ≡ false → (a ≡ false) × (b ≡ false)
  neither a b h = ground arith

  lacks_key-IsKeyed :
      (id name : Option String)
      → (lacks_key is_blank (record { id = id; name = name }) ≡ false) ↔ IsKeyed id name
  unfolding lacks_key
  lacks_key-IsKeyed (some id) name = ((λ h. h), (λ h. h))
  lacks_key-IsKeyed none (some name) = ((λ h. h), (λ h. h))
  lacks_key-IsKeyed none none = ((λ h. cc), (λ h. absurd h))

  keyed :
      (wanted : List TraineeRef)
      → (any (lacks_key is_blank) wanted ≡ false) ↔ All (λ t. IsKeyed t.id t.name) wanted
  keyed [] = ((λ h. tt), (λ h. refl))
  keyed (t ∷ wanted) =
      let (one, back) = lacks_key-IsKeyed t.id t.name in
      let (others, others_back) = keyed wanted in
      (
        (λ h.
            let (h1, h2) = neither (lacks_key is_blank t) (any (lacks_key is_blank) wanted) h in
            (one h1, others h2)),
        (λ h. rw (back h.0) (others_back h.1)),
      )

  complete :
      (wanted : List TraineeRef) (session : SessionInput)
      → wanted ≢ []
      → is_incomplete is_blank wanted session ≡ false
      → IsComplete wanted session
  unfolding is_incomplete
  complete wanted session filled h =
      let (some_key, h1) = neither (any (lacks_key is_blank) wanted) _ h in
      let (date, h2) = neither (is_blank session.training_date) _ h1 in
      let (instructor, training) = neither (is_blank session.instructor) _ h2 in
      record {
        somebody = filled;
        keys = (keyed wanted).0 some_key;
        date = date;
        instructor = instructor;
        training = training;
      }

  not-incomplete :
      (wanted : List TraineeRef) (session : SessionInput)
      → IsComplete wanted session
      → is_incomplete is_blank wanted session ≡ false
  unfolding is_incomplete
  not-incomplete wanted session h =
      rw ((keyed wanted).1 h.keys, h.date, h.instructor, h.training) refl

  -- What each answer of admission says of a start with this plan.
  abbrev pub Judges : BatchRequest → Plan → Admission → Type 0
  Judges req plan (admitted wanted carried owed) =
      (wanted ≡ wanted_of req plan)
      × (carried ≡ carried_of plan)
      × (owed ≡ owed_of plan)
      × IsComplete wanted req.session
  Judges req plan (refused code text) =
      (code ≡ 422) × (¬ IsComplete (wanted_of req plan) req.session)
  Judges req plan (closes report owed) = (wanted_of req plan ≡ []) × (owed ≡ owed_of plan)
  Judges req plan panics = ⊥

  -- The gate's refusal is passed on as 409; else the answer is admission's.
  abbrev pub Answers : BatchRequest → Result Start → Admission → Type 0
  Answers req (err refusal) a = a ≡ refused 409 refusal
  Answers req (ok start) a = Judges req start.plan a

  roster_Judges :
      (req : BatchRequest) (plan : Plan) (resumed : Bool) (previous : Option BatchCheckpoint)
      (wanted : List TraineeRef) (carried : List TrainingResult) (owed : ℕ)
      → (resumed ≡ true → is_some previous ≡ true)
      → wanted ≡ wanted_of req plan
      → carried ≡ carried_of plan
      → owed ≡ owed_of plan
      → Judges req plan (admit_roster is_blank req resumed previous wanted carried owed)
  unfolding admit_roster
  roster_Judges req plan resumed previous wanted carried owed h same rows answers =
      tested resumed (is_empty wanted) (is_incomplete is_blank wanted req.session) wanted same refl
        refl previous h
    where
      refuses :
          (wanted : List TraineeRef)
          → wanted ≡ wanted_of req plan
          → is_incomplete is_blank wanted req.session ≡ true
          → ¬ IsComplete (wanted_of req plan) req.session
      refuses wanted same k h =
          let no =
            not-incomplete wanted req.session
              (subst (λ ws. IsComplete ws req.session) (sym same) h) in
          cc

      tested :
          (r b c : Bool) (wanted : List TraineeRef)
          → wanted ≡ wanted_of req plan
          → is_empty wanted ≡ b
          → is_incomplete is_blank wanted req.session ≡ c
          → (previous : Option BatchCheckpoint) → (r ≡ true → is_some previous ≡ true)
          → Judges req plan (
              if b && not r
              then refused 422 "trainees is empty"
              else if c
              then refused 422 "trainees need an id/name and session fields must not be empty"
              else if b
              then close_batch is_blank carried owed previous
              else admitted wanted carried owed)
      tested false true c [] same e k previous h = (refl, λ z. z.somebody (sym same))
      tested true true true [] same e k previous h = (refl, refuses [] same k)
      tested true true false [] same e k none h = let no_one : false ≡ true = h refl in cc
      tested true true false [] same e k (some p) h = (sym same, answers)
      tested r true c (t ∷ ts) same e k previous h = cc
      tested r false c [] same e k previous h = cc
      tested r false true (t ∷ ts) same e k previous h = (refl, refuses (t ∷ ts) same k)
      tested r false false (t ∷ ts) same e k previous h =
          (same, rows, answers, complete (t ∷ ts) req.session (λ z. cc) k)

  plan_Judges :
      (req : BatchRequest) (previous : Option BatchCheckpoint) (plan : Plan)
      → has_previous previous plan ≡ true
      → Judges req plan (admit_plan is_blank req previous plan)
  unfolding admit_plan
  plan_Judges req previous fresh h =
      roster_Judges req fresh false previous req.trainees [] 0 (λ e. cc) refl refl refl
  plan_Judges req previous (resume roster carried owed) h =
      roster_Judges req (resume roster carried owed) true previous roster carried owed (λ e. h) refl
        refl refl

  batch_Answers :
      (req : BatchRequest) (start : Result Start)
      → preceded start ≡ true
      → Answers req start (admit_batch is_blank req start)
  unfolding admit_batch
  batch_Answers req (err refusal) h = refl
  batch_Answers req (ok start) h = plan_Judges req start.previous start.plan h

  -- Whatever the store holds: where the start gate refuses, so does admission, by 409 and with the
  -- gate's text. Else a batch is admitted only for the trainees that the plan leaves to submit, the
  -- request's own or those of the resume, with the rows that the plan carries over and as many owed, and
  -- only where they are somebody, each has an id or else a name that has a text, and the date, the
  -- instructor and the training type have one; it is refused only where that does not hold, by 422, and
  -- closed at once only where nobody is left. It never
  -- panics.
  pub admit_batch-Answers :
      (path : String) (loaded : Result (Option StoredCheckpoint)) (req : BatchRequest)
      → let start = (guard path req.resume loaded).0 in
        Answers req start (admit_batch is_blank req start)
  admit_batch-Answers path loaded req =
      batch_Answers req (guard path req.resume loaded).0 (guard-preceded path req.resume loaded)

  Answers-safe :
      (req : BatchRequest) (start : Result Start) (a : Admission) → Answers req start a → a ≢ panics
  Answers-safe req (err refusal) a h e = cc
  Answers-safe req (ok start) a h e = subst (Judges req start.plan) e h

  pub admit_batch-safe :
      (path : String) (loaded : Result (Option StoredCheckpoint)) (req : BatchRequest)
      → admit_batch is_blank req (guard path req.resume loaded).0 ≢ panics
  admit_batch-safe path loaded req =
      Answers-safe req (guard path req.resume loaded).0 _ (admit_batch-Answers path loaded req)
