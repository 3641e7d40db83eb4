-- ===== src/Engine/Safety/Attempts.antt =====
-- One trainee's submissions, rust/src/engine.rs `process_trainee`: each is made inside the window that
-- the checkpoint opened, and is repeated only behind a reply that proves that nothing was sent.
use dssp_bot.Prelude.{ℕ, zero, suc, ◌+◌, String, ◌≡◌, refl, Option, none, some, Result, ok, err}
use dssp_bot.Protocol.{TraineeRef, SessionInput, Response}
use dssp_bot.Protocol.Request
use dssp_bot.Report.{TrainingResult}
use dssp_bot.Decision.{RetryPolicy, Settle, success, failed, indeterminate, settle_submit}
use dssp_bot.Decision.Safety.{IsUnsent, settle-retry}
use dssp_bot.State.{loading_trainee, submitting, verifying, retrying}
use dssp_bot.Engine.Effects.{Env, Trace, Action, emit, send}
use dssp_bot.Engine.Logic.{
  Ensures, Ensures-pure, Ensures-out_of_fuel, Ensures-if, Ensures-exchange, Ensures-bind,
  Ensures-weaken, Ensures_of_Keeps, Keeps, On, try_transition-Keeps,
}
use dssp_bot.Engine.Roster.{queue_key}
use dssp_bot.Engine.Attempt.{
  Verdict, settled, again, judge, back_off, follow, conclude, attempt_loop, process_trainee,
}
use dssp_bot.Engine.Safety.{Size, count_if, Sound, durable_in_flight, last_reply}
use dssp_bot.Engine.Safety.Boundary.{MaySend, MaySend-steady}
use dssp_bot.Engine.Safety.Steady.{stop_requested_Keeps, new_id-Keeps}

judge-again :
    (policy : RetryPolicy) (trainee : TraineeRef) (debug : Option String → String) (resp : Response)
    (n : ℕ) (s : Settle) {result : TrainingResult}
    → settle_submit debug resp ≡ s
    → judge policy trainee resp n s ≡ again result
    → IsUnsent resp
unfolding judge
judge-again policy trainee debug resp n success e h = cc
judge-again policy trainee debug resp n (failed code message) e h = cc
judge-again policy trainee debug resp n (indeterminate message) e h = cc
judge-again policy trainee debug resp n (Settle.retry code message) e h = settle-retry debug resp e

module _ (total : Size) (env : Env) (policy : RetryPolicy) (session : SessionInput)
    (trainee : TraineeRef) (i : ℕ) where
  -- Behind a submission: the window is still open, and the reply is the last.
  record Answered (r : Result Response) (t : Trace) : Type 0 where
    sound : Sound total t
    in_window : durable_in_flight t ≡ some (queue_key trainee i)
    replied : last_reply t ≡ some r

  abbrev CanSend : Trace → Type 0
  CanSend = MaySend total (queue_key trainee i)

  send_Ensures :
      (job_id : String)
      → Ensures
          (On CanSend)
          (send env (Request.submit_training job_id trainee session))
          (λ r w. Answered r w.trace)
          (On (Sound total))
  unfolding send
  send_Ensures job_id = Ensures-exchange _ _ (λ w r h. record {
    sound = (
      record { ahead = (i, h.in_window); repeat = h.not_open; balanced = count_if total.judged tt },
      h.sound,
    );
    in_window = h.in_window;
    replied = refl;
  })

  back_off-Keeps : (n : ℕ) → Keeps (On CanSend) (back_off env policy session trainee n)
  unfolding back_off emit
  back_off-Keeps n = record { at = λ w h. (MaySend-steady total _).at_back_off w.trace _ h }

  -- Where the loop is entered: the window is open, and nothing has been sent, or provably nothing.
  abbrev Rounds : (ℕ → Option TrainingResult → Action TrainingResult) → Type 0
  Rounds next =
      (n : ℕ) (r : Option TrainingResult)
      → Ensures (On CanSend) (next n r) (λ _ w. Sound total w.trace) (On (Sound total))

  reopened : (resp : Response) (t : Trace) → IsUnsent resp → Answered (ok resp) t → CanSend t
  reopened resp t unsent h = record {
    sound = h.sound;
    in_window = h.in_window;
    not_open = rw h.replied unsent;
  }

  follow_Ensures :
      (next : ℕ → Option TrainingResult → Action TrainingResult) (n : ℕ) (resp : Response)
      (v : Verdict)
      → Rounds next
      → ((result : TrainingResult) → v ≡ again result → IsUnsent resp)
      → Ensures
          (λ w. Answered (ok resp) w.trace)
          (follow env policy session trainee next n v)
          (λ _ w. Sound total w.trace)
          (On (Sound total))
  unfolding follow
  follow_Ensures next n resp (settled result) rounds unsent =
      Ensures-bind {R = λ _ w. Sound total w.trace} _ _
        (Ensures-weaken (try_transition-Keeps (Sound total) verifying) (λ w h. h.sound)
          (λ _ w h. h))
        (λ _. Ensures-pure result (λ w h. h))
  follow_Ensures next n resp (again result) rounds unsent =
      Ensures-bind {R = λ _ w. CanSend w.trace} _ _
        (Ensures-weaken (Ensures_of_Keeps (try_transition-Keeps CanSend retrying) (λ w h. h.sound))
          (λ w h. reopened resp w.trace (unsent result refl) h) (λ _ w h. h))
        (λ _.
          Ensures-bind _ _ (Ensures_of_Keeps (back_off-Keeps n) (λ w h. h.sound))
            (λ _. rounds n (some result)))

  conclude_Ensures :
      (next : ℕ → Option TrainingResult → Action TrainingResult) (n : ℕ) (r : Result Response)
      → Rounds next
      → Ensures
          (λ w. Answered r w.trace)
          (conclude env policy session trainee next n r)
          (λ _ w. Sound total w.trace)
          (On (Sound total))
  unfolding conclude
  conclude_Ensures next n (err e) rounds = Ensures-pure _ (λ w h. h.sound)
  conclude_Ensures next n (ok resp) rounds =
      follow_Ensures next n resp _ rounds
        (λ result e. judge-again policy trainee env.debug resp n _ refl e)

  attempt_loop_Ensures :
      (job_id : String) (rounds : ℕ)
      → Rounds (attempt_loop env policy session trainee job_id rounds)
  unfolding attempt_loop
  attempt_loop_Ensures job_id zero n r = Ensures-out_of_fuel (λ w h. h.sound)
  attempt_loop_Ensures job_id (suc rounds) n r =
      Ensures-bind _ _
        (Ensures_of_Keeps (stop_requested_Keeps (MaySend-steady total _) env) (λ w h. h.sound))
        (λ stop.
          Ensures-if stop _ _ (λ _. Ensures-pure _ (λ w h. h.sound))
            (λ _.
              Ensures-bind _ _
                (Ensures_of_Keeps (try_transition-Keeps CanSend submitting) (λ w h. h.sound))
                (λ _. Ensures-bind _ _ (send_Ensures job_id) (λ reply.
                  conclude_Ensures _ (n + 1) reply (attempt_loop_Ensures job_id rounds)))))

  -- From an open window, whatever the worker replies, processing a trainee keeps the trace sound.
  pub process_trainee_Ensures :
      Ensures
        (On CanSend)
        (process_trainee env policy session trainee)
        (λ _ w. Sound total w.trace)
        (On (Sound total))
  unfolding process_trainee
  process_trainee_Ensures =
      Ensures-bind _ _
        (Ensures_of_Keeps (try_transition-Keeps CanSend loading_trainee) (λ w h. h.sound))
        (λ _.
          Ensures-bind _ _
            (Ensures_of_Keeps (new_id-Keeps (MaySend-steady total _) env) (λ w h. h.sound))
            (λ job_id. attempt_loop_Ensures job_id (suc policy.max_attempts) 0 none))
