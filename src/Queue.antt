-- ===== src/Queue.antt =====
-- rust/src/queue.rs: the FIFO queue of a batch, front first.
pub mod Laws
use dssp_bot.Prelude.{ℕ, String, Bool, Option, none, some, List, [], ◌∷◌, ◌++◌, map}
use dssp_bot.Prelude

pub record QueueTask {ℓ} (T : Type ℓ) : Type ℓ where
  pub id : String
  pub payload : T

pub record TaskQueue {ℓ} (T : Type ℓ) : Type ℓ where
  pub tasks : List (QueueTask T)

module _ {ℓ} {T : Type ℓ} where
  abbrev pub new : TaskQueue T
  new = record { tasks = [] }

  unfoldable pub enqueue : TaskQueue T → String → T → TaskQueue T
  enqueue q id payload = record { tasks = q.tasks ++ (record { id = id; payload = payload } ∷ []) }

  pop_front : List (QueueTask T) → Option (QueueTask T) × TaskQueue T
  pop_front [] = (none, new)
  pop_front (t ∷ ts) = (some t, record { tasks = ts })

  -- The task, and the queue that is left.
  unfoldable pub dequeue : TaskQueue T → Option (QueueTask T) × TaskQueue T
  unfolding pop_front
  dequeue q = pop_front q.tasks

  unfoldable pub put_back : TaskQueue T → QueueTask T → TaskQueue T
  put_back q task = record { tasks = task ∷ q.tasks }

  unfoldable pub peek : TaskQueue T → Option (QueueTask T)
  peek q = Prelude.head? q.tasks

  unfoldable pub ids : TaskQueue T → List String
  ids q = map (λ t. t.id) q.tasks

  unfoldable pub len : TaskQueue T → ℕ
  len q = Prelude.length q.tasks

  unfoldable pub is_empty : TaskQueue T → Bool
  is_empty q = Prelude.is_empty q.tasks

  abbrev pub clear : TaskQueue T → TaskQueue T
  clear q = record q { tasks = [] }
