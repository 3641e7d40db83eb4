-- ===== src/Queue/Laws.antt =====
-- The queue of rust/src/queue.rs keeps the order in which a batch was queued.
use dssp_bot.Prelude.{
  ℕ, zero, suc, String, ◌≡◌, refl, sym, ap, ◌∙◌, some, List, [], ◌∷◌, ◌++◌, arith, map_append,
  append-nil, append_assoc, length, to_list,
}
use dssp_bot.Queue.{QueueTask, TaskQueue, new, enqueue, dequeue, put_back, ids}

module _ {ℓ} {T : Type ℓ} where
  pub ids-enqueue :
      (q : TaskQueue T) (id : String) (payload : T)
      → ids (enqueue q id payload) ≡ ids q ++ (id ∷ [])
  unfolding ids enqueue
  ids-enqueue q id payload = map_append (λ t. t.id) q.tasks _

  -- Where a dequeue returns a task, that is the head of the queue, and putting it back restores the
  -- queue.
  pub put_back-dequeue :
      (q : TaskQueue T) {t : QueueTask T}
      → (dequeue q).0 ≡ some t
      → (put_back (dequeue q).1 t ≡ q) × (ids q ≡ t.id ∷ ids (dequeue q).1)
  unfolding put_back dequeue ids
  put_back-dequeue q h = ground arith

  -- The loop that queues a batch.
  pub enqueue_all : TaskQueue T → List (QueueTask T) → TaskQueue T
  enqueue_all q [] = q
  enqueue_all q (t ∷ ts) = enqueue_all (enqueue q t.id t.payload) ts

  pub tasks-enqueue_all :
      (q : TaskQueue T) (ts : List (QueueTask T)) → (enqueue_all q ts).tasks ≡ q.tasks ++ ts
  unfolding enqueue_all enqueue
  tasks-enqueue_all q [] = sym (append-nil _)
  tasks-enqueue_all q (t ∷ ts) =
      tasks-enqueue_all (enqueue q t.id t.payload) ts ∙ append_assoc q.tasks (t ∷ []) ts

  -- The tasks that a number of dequeues takes out, in order.
  pub dequeue_times : ℕ → TaskQueue T → List (QueueTask T)
  dequeue_times zero q = []
  dequeue_times (suc n) q =
      let rest = dequeue_times n (dequeue q).1 in to_list (dequeue q).0 ++ rest

  dequeue_times-tasks :
      (ts : List (QueueTask T)) → dequeue_times (length ts) (record { tasks = ts }) ≡ ts
  unfolding dequeue_times dequeue
  dequeue_times-tasks [] = refl
  dequeue_times-tasks (t ∷ ts) = ap (λ l. t ∷ l) (dequeue_times-tasks ts)

  -- Tasks come out of a new queue in the order in which they went in.
  pub dequeue_times-enqueue_all :
      (ts : List (QueueTask T)) → dequeue_times (length ts) (enqueue_all new ts) ≡ ts
  dequeue_times-enqueue_all ts =
      ap (λ l. dequeue_times (length ts) (record { tasks = l })) (tasks-enqueue_all new ts)
      ∙ dequeue_times-tasks ts
