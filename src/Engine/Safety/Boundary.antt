-- ===== src/Engine/Safety/Boundary.antt =====
-- The boundary between two trainees, rust/src/engine.rs: every write there places the whole batch,
-- and nothing is submitted.
use dssp_bot.Prelude.{
  ℕ, ◌+◌, String, true, false, not, ◌≡◌, refl, Option, none, some, ◌∷◌, arith, Result, ok, err,
  is_some, length, length-map,
}
use dssp_bot.Protocol.{TraineeRef}
use dssp_bot.Queue
use dssp_bot.Queue.{QueueTask}
use dssp_bot.Checkpoint.{CheckpointStatus, as_number, aborted, running, paused}
use dssp_bot.Checkpoint.Partition.{placed}
use dssp_bot.State.{loading_trainee}
use dssp_bot.State
use dssp_bot.Engine.Effects.{Trace, Env, wrote, write}
use dssp_bot.Engine.Logic.{
  Ensures, Ensures-pure, Ensures-if, Ensures-exchange, Ensures-bind, Keeps, On, require-Keeps,
  transition-Keeps, Ensures-weaken,
}
use dssp_bot.Engine.Control.{
  Position, snapshot, save_checkpoint, stop_checkpoint, control_boundary, stop_here, resume_here,
  pause_here,
}
use dssp_bot.Engine.Safety.{
  Size, count_if, Sound, durable_in_flight, last_reply, last_write, MayRepeat,
}
use dssp_bot.Engine.Safety.Steady.{
  IsSteady, now_ms-Keeps, stop_requested_Keeps, pause_requested_Keeps, wait_resumed-Keeps,
}

-- The batch's rows, its queue and the trainee in flight are together the whole batch.
pub record Fits (total : Size) (p : Position) (in_flight : Option String) : Type 0 where
  pub same_total : p.total ≡ total.count
  pub all_placed :
      length p.results + length p.queue.tasks + as_number (is_some in_flight) ≡ total.count

module _ (total : Size) where
  pub Sound-steady : IsSteady (Sound total)
  Sound-steady = record {
    at_clock =
        λ t s h. (record { ahead = tt; repeat = tt; balanced = count_if total.judged tt }, h);
    at_id = λ t s h. (record { ahead = tt; repeat = tt; balanced = count_if total.judged tt }, h);
    at_stop = λ t b h. (record { ahead = tt; repeat = tt; balanced = count_if total.judged tt }, h);
    at_pause =
        λ t b h. (record { ahead = tt; repeat = tt; balanced = count_if total.judged tt }, h);
    at_wake = λ t b h. (record { ahead = tt; repeat = tt; balanced = count_if total.judged tt }, h);
    at_back_off =
        λ t n h. (record { ahead = tt; repeat = tt; balanced = count_if total.judged tt }, h);
    at_close = λ t h. (record { ahead = tt; repeat = tt; balanced = count_if total.judged tt }, h);
  }

  -- Where a trainee may be submitted: the file names it, and no reply that leaves it open is behind.
  pub record MaySend (key : String) (t : Trace) : Type 0 where
    pub sound : Sound total t
    pub in_window : durable_in_flight t ≡ some key
    pub not_open : MayRepeat (last_reply t)

  pub MaySend-steady : (key : String) → IsSteady (MaySend key)
  MaySend-steady key =
      let st = Sound-steady in
      record {
        at_clock = λ t s h. record {
          sound = st.at_clock t s h.sound;
          in_window = h.in_window;
          not_open = h.not_open;
        };
        at_id = λ t s h. record {
          sound = st.at_id t s h.sound;
          in_window = h.in_window;
          not_open = h.not_open;
        };
        at_stop = λ t b h. record {
          sound = st.at_stop t b h.sound;
          in_window = h.in_window;
          not_open = h.not_open;
        };
        at_pause = λ t b h. record {
          sound = st.at_pause t b h.sound;
          in_window = h.in_window;
          not_open = h.not_open;
        };
        at_wake = λ t b h. record {
          sound = st.at_wake t b h.sound;
          in_window = h.in_window;
          not_open = h.not_open;
        };
        at_back_off = λ t n h. record {
          sound = st.at_back_off t n h.sound;
          in_window = h.in_window;
          not_open = h.not_open;
        };
        at_close = λ t h. record {
          sound = st.at_close t h.sound;
          in_window = h.in_window;
          not_open = h.not_open;
        };
      }

  -- After a write: the trace is sound, and what a successful one put in flight is on disk.
  pub record Saved (status : CheckpointStatus) (p : Position) (in_flight : Option String)
      (r : Result (Unit {0})) (t : Trace) : Type 0 where
    pub sound : Sound total t
    pub latest : (now : String) × (last_write t ≡ some (snapshot status p in_flight now))
    pub on_disk : r ≡ ok tt → durable_in_flight t ≡ in_flight
    pub no_reply : last_reply t ≡ none

  placed-snapshot :
      (status : CheckpointStatus) (p : Position) (in_flight : Option String) (now : String)
      → Fits total p in_flight
      → placed (snapshot status p in_flight now) ≡ total.count
  unfolding Queue.ids
  placed-snapshot status p in_flight now fits =
      omega (arith, fits, length-map (λ (t : QueueTask TraineeRef). t.id) p.queue.tasks)

  Saved-write :
      (status : CheckpointStatus) (p : Position) (in_flight : Option String) (now : String)
      → Fits total p in_flight
      → (t : Trace) (r : Result (Unit {0})) → Sound total t
      → Saved status p in_flight r (wrote (snapshot status p in_flight now) r ∷ t)
  Saved-write status p in_flight now fits t (ok u) h = record {
    sound = (
      record {
        ahead = tt;
        repeat = tt;
        balanced =
            count_if total.judged (fits.same_total, placed-snapshot status p in_flight now fits);
      },
      h,
    );
    latest = (now, refl);
    on_disk = λ _. refl;
    no_reply = refl;
  }
  Saved-write status p in_flight now fits t (err e) h = record {
    sound = (
      record {
        ahead = tt;
        repeat = tt;
        balanced =
            count_if total.judged (fits.same_total, placed-snapshot status p in_flight now fits);
      },
      h,
    );
    latest = (now, refl);
    on_disk = λ bad. cc;
    no_reply = refl;
  }

  module _ (env : Env) where
    pub save_checkpoint_Ensures :
        (status : CheckpointStatus) (p : Position) (in_flight : Option String)
        → Fits total p in_flight
        → Ensures
            (On (Sound total))
            (save_checkpoint env status p in_flight)
            (λ r w. Saved status p in_flight r w.trace)
            (On (Sound total))
    unfolding save_checkpoint write
    save_checkpoint_Ensures status p in_flight fits =
        Ensures-bind _ _ (now_ms-Keeps Sound-steady env) (λ now.
          Ensures-exchange _ _ (λ w r h. Saved-write status p in_flight now fits w.trace r h))

    pub save_checkpoint-Keeps :
        (status : CheckpointStatus) (p : Position) (in_flight : Option String)
        → Fits total p in_flight
        → Keeps (On (Sound total)) (save_checkpoint env status p in_flight)
    save_checkpoint-Keeps status p in_flight fits =
        Ensures-weaken (save_checkpoint_Ensures status p in_flight fits) (λ w h. h)
          (λ r w h. h.sound)

    pub stop_checkpoint-Keeps :
        (p : Position) → Fits total p none → Keeps (On (Sound total)) (stop_checkpoint env p)
    unfolding stop_checkpoint
    stop_checkpoint-Keeps p fits =
        Ensures-bind _ _ (save_checkpoint-Keeps aborted p none fits)
          (λ r. require-Keeps (Sound total) _ r)

    stop_here-Keeps :
        (p : Position) → Fits total p none → Keeps (On (Sound total)) (stop_here env p)
    unfolding stop_here
    stop_here-Keeps p fits =
        Ensures-bind _ _ (stop_checkpoint-Keeps p fits) (λ _. Ensures-pure true (λ w h. h))

    resume_here-Keeps :
        (p : Position) → Fits total p none → Keeps (On (Sound total)) (resume_here env p)
    unfolding resume_here
    resume_here-Keeps p fits = Ensures-bind _ _ (save_checkpoint-Keeps running p none fits) (λ r.
        Ensures-bind _ _ (require-Keeps (Sound total) _ r) (λ _.
          Ensures-bind _ _ (transition-Keeps (Sound total) loading_trainee)
            (λ _. Ensures-pure false (λ w h. h))))

    pause_here-Keeps :
        (wakeups : ℕ) (p : Position)
        → Fits total p none
        → Keeps (On (Sound total)) (pause_here env wakeups p)
    unfolding pause_here
    pause_here-Keeps wakeups p fits =
        Ensures-bind _ _ (save_checkpoint-Keeps paused p none fits) (λ r.
          Ensures-bind _ _ (require-Keeps (Sound total) _ r) (λ _.
            Ensures-bind _ _ (transition-Keeps (Sound total) State.paused) (λ _.
              Ensures-bind _ _ (wait_resumed-Keeps Sound-steady env wakeups true) (λ _.
                Ensures-bind _ _ (stop_requested_Keeps Sound-steady env) (λ stop.
                  Ensures-if stop _ _ (λ _. stop_here-Keeps p fits)
                    (λ _. resume_here-Keeps p fits))))))

    pub control_boundary-Keeps :
        (wakeups : ℕ) (p : Position)
        → Fits total p none
        → Keeps (On (Sound total)) (control_boundary env wakeups p)
    unfolding control_boundary
    control_boundary-Keeps wakeups p fits =
        Ensures-if (not env.controlled) _ _ (λ _. Ensures-pure false (λ w h. h))
          (λ _. Ensures-bind _ _ (stop_requested_Keeps Sound-steady env) (λ stop.
            Ensures-if stop _ _ (λ _. stop_here-Keeps p fits)
              (λ _. Ensures-bind _ _ (pause_requested_Keeps Sound-steady env) (λ requested.
                Ensures-if (not requested) _ _ (λ _. Ensures-pure false (λ w h. h))
                  (λ _. pause_here-Keeps wakeups p fits)))))
