-- ===== src/Engine/Safety/Queued.antt =====
-- The position that a run of rust/src/engine.rs starts from: every trainee queued under a key.
use dssp_bot.Prelude.{
  ℕ, Bool, Bool-cases, inl, inr, ◌+◌, String, ◌≡◌, refl, sym, ap, ◌∙◌, none, List, [], ◌∷◌, ◌++◌,
  arith, length, map, length-map, append_assoc, append-nil, any, All,
}
use dssp_bot.Protocol.{TraineeRef}
use dssp_bot.Report.{TrainingResult}
use dssp_bot.Queue
use dssp_bot.Queue.{QueueTask, TaskQueue}
use dssp_bot.Engine.Roster.{QueueKey, key_namespace, key_eq, dedupe_from, dedupe}
use dssp_bot.Engine.Loop.{enqueue_all}
use dssp_bot.Engine.Safety.{Size}
use dssp_bot.Engine.Safety.Boundary.{Fits}
use dssp_bot.Engine.Safety.Rounds.{IsKeyed}

abbrev pub task_of : String × TraineeRef → QueueTask TraineeRef
task_of (key, trainee) = record { id = key; payload = trainee }

pub dedupe_from-IsKeyed :
    (i : ℕ) (seen : List QueueKey) (trainees : List TraineeRef)
    → All IsKeyed (map task_of (dedupe_from i seen trainees))
unfolding dedupe_from
dedupe_from-IsKeyed i seen [] = tt
dedupe_from-IsKeyed i seen (t ∷ ts) =
    let again = dedupe_from-IsKeyed (i + 1) seen ts in
    let fresh = dedupe_from-IsKeyed (i + 1) (key_namespace t i ∷ seen) ts in
    elim (Bool-cases (any (λ k. key_eq k (key_namespace t i)) seen)) [
      | inl e ↦ rw e again
      | inr e ↦ rw e ((i, refl), fresh)
    ]

pub tasks-enqueue_all :
    (l : List (String × TraineeRef)) (q : TaskQueue TraineeRef)
    → (enqueue_all l q).tasks ≡ q.tasks ++ map task_of l
unfolding enqueue_all Queue.enqueue
tasks-enqueue_all [] q = sym (append-nil _)
tasks-enqueue_all ((key, trainee) ∷ l) q =
    tasks-enqueue_all l (Queue.enqueue q key trainee)
    ∙ append_assoc q.tasks (task_of (key, trainee) ∷ []) (map task_of l)

-- The trainees that a run is asked for, and the rows that it carries.
abbrev pub batch_size : List TraineeRef → List TrainingResult → ℕ
batch_size trainees carried = length (dedupe trainees) + length carried

-- The size of a batch, by which its checkpoints are judged or not.
abbrev pub size_of : Bool → List TraineeRef → List TrainingResult → Size
size_of judged trainees carried = record { count = batch_size trainees carried; judged = judged }

pub first_position-Fits :
    (judged : Bool) (trainees : List TraineeRef) (carried results : List TrainingResult)
    (started_at : String)
    → results ≡ carried
    → Fits
        (size_of judged trainees carried)
        (record {
          started_at = started_at;
          total = length (dedupe trainees) + length results;
          results = results;
          queue = enqueue_all (dedupe trainees) Queue.new;
        })
        none
first_position-Fits judged trainees carried results started_at e = record {
  same_total = omega (arith, ap length e);
  all_placed = omega (
    arith,
    ap length e,
    ap length (tasks-enqueue_all (dedupe trainees) Queue.new),
    length-map task_of (dedupe trainees),
  );
}

pub first_position-AllKeyed :
    (trainees : List TraineeRef) → All IsKeyed (enqueue_all (dedupe trainees) Queue.new).tasks
unfolding dedupe
first_position-AllKeyed trainees =
    rw (tasks-enqueue_all (dedupe_from 0 [] trainees) Queue.new) (dedupe_from-IsKeyed 0 [] trainees)
