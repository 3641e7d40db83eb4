-- ===== src/Engine/Safety/Closing.antt =====
-- The end of a run, rust/src/engine.rs `run`: a late stop, the terminal write and the report.
use dssp_bot.Prelude.{
  ℕ, String, Bool, true, false, not, ◌&&◌, ◌≡◌, refl, ap, none, some, [], arith, Result, length,
  map, if◌then◌else◌,
}
use dssp_bot.Protocol.{SessionInput}
use dssp_bot.Report.{BatchReport, build}
use dssp_bot.Queue
use dssp_bot.Queue.{QueueTask, TaskQueue}
use dssp_bot.Checkpoint.{finished, aborted, BatchCheckpoint}
use dssp_bot.Decision.{RetryPolicy}
use dssp_bot.State.{stopped, complete, state_eq}
use dssp_bot.Engine.Effects.{Env, Trace, pure, emit, closed, now_ms, machine_state}
use dssp_bot.Engine.Logic.{
  Ensures, Ensures-pure, Ensures-if, Ensures-bind, Ensures-exchange, Ensures-given,
  Ensures_of_Keeps, Keeps, On, require-Keeps, try_transition-Keeps,
}
use dssp_bot.Engine.Control.{Position, snapshot}
use dssp_bot.Engine.Attempt.{operator_stop}
use dssp_bot.Engine.Run.{terminal, terminal_status, late_stop, complete_unless_stopped, finish}
use dssp_bot.Engine.Safety.{Size, Sound, last_write}
use dssp_bot.Engine.Safety.Boundary.{
  Sound-steady, Saved, save_checkpoint_Ensures, stop_checkpoint-Keeps,
}
use dssp_bot.Engine.Safety.Steady.{stop_requested_Keeps}
use dssp_bot.Engine.Safety.Rounds.{Ended, leave_Ensures}

-- The last checkpoint given to the sink is the one that closes the reported batch.
pub record IsClosed (report : BatchReport) (t : Trace) : Type 0 where
  pub checkpoint : BatchCheckpoint
  pub is_last : last_write t ≡ some checkpoint
  pub same_status : checkpoint.status ≡ (if report.aborted then aborted else finished)
  pub same_results : checkpoint.results ≡ report.results
  pub drained : checkpoint.pending ≡ []
  pub nothing_in_flight : checkpoint.in_flight ≡ none

pub record Reported (total : Size) (report : BatchReport) (t : Trace) : Type 0 where
  pub sound : Sound total t
  pub whole : report.total ≡ total.count
  pub is_closed : IsClosed report t

terminal_status_lem : (b : Bool) → terminal_status b ≡ (if b then aborted else finished)
terminal_status_lem true = refl
terminal_status_lem false = refl

reported :
    (total : Size) (p : Position) (was_aborted : Bool) (finished_at : String)
    (r : Result (Unit {0})) (t : Trace)
    → Ended total p
    → Saved total (terminal_status was_aborted) p none r t
    → Reported total (build p.results p.started_at finished_at was_aborted) t
unfolding build Queue.ids
reported total p was_aborted finished_at r t ended h = record {
  sound = h.sound;
  whole = omega (arith, ended.fits, ap length ended.drained);
  is_closed = record {
    checkpoint = snapshot (terminal_status was_aborted) p none h.latest.0;
    is_last = h.latest.1;
    same_status = terminal_status_lem was_aborted;
    same_results = refl;
    drained = ap (map (λ task. task.id)) ended.drained;
    nothing_in_flight = refl;
  };
}

module _ (total : Size) (env : Env) (policy : RetryPolicy) (session : SessionInput)
    (wakeups : ℕ) where
  late_stop_Ensures :
      (stop : Bool) (r : Position × Bool)
      → Ended total r.0
      → Ensures
          (On (Sound total))
          (late_stop env policy session wakeups stop r)
          (λ r w. Ended total r.0 × Sound total w.trace)
          (On (Sound total))
  unfolding late_stop
  late_stop_Ensures stop (p, was_aborted) ended =
      Ensures-if (stop && not was_aborted) _ _
        (λ _.
          Ensures-bind _ _ (stop_checkpoint-Keeps total env p ended.fits)
            (λ _. leave_Ensures total env policy session wakeups p operator_stop ended.fits))
        (λ _. Ensures-pure _ (λ w h. (ended, h)))

  closing_clock_Ensures :
      (was_aborted : Bool) (p : Position) (r : Result (Unit {0}))
      → Ensures
          (On (Saved total (terminal_status was_aborted) p none r))
          (now_ms env)
          (λ _ w. Saved total (terminal_status was_aborted) p none r w.trace)
          (On (Sound total))
  unfolding now_ms
  closing_clock_Ensures was_aborted p r = Ensures-exchange _ _ (λ w a h. record {
    sound = (Sound-steady total).at_clock w.trace a h.sound;
    latest = h.latest;
    on_disk = h.on_disk;
    no_reply = h.no_reply;
  })

  terminal_Ensures :
      (stop : Bool) (p : Position) (was_aborted : Bool)
      → Ended total p
      → Ensures
          (On (Sound total))
          (terminal env policy session wakeups stop p was_aborted)
          (λ report w. Reported total report w.trace)
          (On (Sound total))
  unfolding terminal
  terminal_Ensures stop p was_aborted ended =
      Ensures-bind _ _
        (save_checkpoint_Ensures total env (terminal_status was_aborted) p none ended.fits)
        (λ r.
          Ensures-bind _ _
            (Ensures_of_Keeps
              (Ensures-if stop _ _
                (λ _. require-Keeps (Saved total (terminal_status was_aborted) p none r) _ r)
                (λ _. Ensures-pure tt (λ w h. h)))
              (λ w h. h.sound))
            (λ _. Ensures-bind _ _ (closing_clock_Ensures was_aborted p r) (λ finished_at.
              Ensures-pure _ (λ w h. reported total p was_aborted finished_at r w.trace ended h))))

  complete_unless_stopped-Keeps :
      Keeps (On (Sound total)) (complete_unless_stopped env policy session wakeups)
  unfolding complete_unless_stopped machine_state
  complete_unless_stopped-Keeps =
      Ensures-bind {R = λ _ w. Sound total w.trace} _ _ (record { at = λ w h. h })
        (λ state.
          Ensures-if (state_eq state stopped) _ _ (λ _. Ensures-pure tt (λ w h. h))
            (λ _. try_transition-Keeps (Sound total) complete))

  close_Keeps : Keeps (On (Sound total)) (if env.controlled then emit closed else pure tt)
  unfolding emit
  close_Keeps =
      Ensures-if env.controlled _ _
        (λ _. record { at = λ w h. (Sound-steady total).at_close w.trace h })
        (λ _. Ensures-pure tt (λ w h. h))

  pub finish_Ensures :
      (r : Position × Bool)
      → Ended total r.0
      → Ensures
          (On (Sound total))
          (finish env policy session wakeups r)
          (λ report w. Reported total report w.trace)
          (On (Sound total))
  unfolding finish
  finish_Ensures r ended = Ensures-bind _ _ (stop_requested_Keeps (Sound-steady total) env) (λ stop.
      Ensures-bind _ _ (late_stop_Ensures stop r ended) (λ closing. Ensures-given _ (λ ended'.
        Ensures-bind _ _ close_Keeps (λ _.
          Ensures-bind _ _ complete_unless_stopped-Keeps
            (λ _. terminal_Ensures stop closing.0 closing.1 ended')))))
