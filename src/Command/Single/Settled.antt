-- ===== src/Command/Single/Settled.antt =====
-- rust/src/main.rs, `run_single`: how it ends, and what it may have submitted.
use dssp_bot.Prelude.{
  ℕ, zero, suc, ◌+◌, ◌≤◌, String, ◌≡◌, refl, sym, ap, ◌∙◌, Option, none, some, [], ◌∷◌, Result, ok,
  err, leb, arith,
}
use dssp_bot.Protocol.{TraineeRef, SessionInput, Response}
use dssp_bot.Protocol.Request
use dssp_bot.State.{StateMachine}
use dssp_bot.Decision.{Decision, accept, reject, halt, retry, decide_submit}
use dssp_bot.Decision.Safety.{IsUnsent}
use dssp_bot.Engine.Effects.{
  Env, Ending, done, failed, blocked, panicked, out_of_fuel, sent, Trace, World, Action, send,
  new_id, emit,
}
use dssp_bot.Engine.Safety.{AllEvents, SafeRepeat, MayRepeat, last_reply}
use dssp_bot.Engine.Termination.{
  EndsWell, Ends, Ends-pure, Ends-exchange, Ends-bind, Ends-weaken, Ends-if,
}
use dssp_bot.Command.Single.{
  Answer, single_delay, follow_decision, conclude_single, single_loop, submit_single, ensured,
  run_single,
}

abbrev count_submission : Option TraineeRef → ℕ
count_submission none = 0
count_submission (some _) = 1

abbrev pub submissions : Trace → ℕ
submissions [] = 0
submissions (sent req r ∷ t) = count_submission req.trainee + submissions t
submissions (_ ∷ t) = submissions t

-- The exit code that the last reply to a submission asks for.
abbrev decided_code : Decision → ℕ
decided_code (accept s) = 0
decided_code (reject s) = 4
decided_code (halt s) = 3
decided_code (retry s) = 4

abbrev pub code_of : (Option String → String) → Option (Result Response) → ℕ
code_of debug none = 1
code_of debug (some (err e)) = 3
code_of debug (some (ok resp)) = decided_code (decide_submit debug resp)

-- What always holds of a run that has ended with this answer.
pub record IsSettled (debug : Option String → String) (answer : Answer) (t : Trace) : Type 0 where
  pub safe : AllEvents SafeRepeat t
  pub few : submissions t ≤ 3
  pub explained : answer.1 ≡ code_of debug (last_reply t)

decide-retry :
    (debug : Option String → String) (resp : Response) {s : String}
    → decide_submit debug resp ≡ retry s
    → IsUnsent resp
unfolding decide_submit
decide-retry debug resp h = ground arith

-- It returns, and never ends otherwise.
abbrev Returns : {A : Type 0} → (Trace → Type 0) → Action A → (A → Trace → Type 0) → Type 0
Returns P m Q = Ends ⊥ ⊥ (λ w. P w.trace) m (λ a w. Q a w.trace)

-- Behind `n` submissions, another may be made.
record Sendable (n : ℕ) (t : Trace) : Type 0 where
  safe : AllEvents SafeRepeat t
  may : MayRepeat (last_reply t)
  count : submissions t ≡ n

record Answered (n : ℕ) (r : Result Response) (t : Trace) : Type 0 where
  safe : AllEvents SafeRepeat t
  replied : last_reply t ≡ some r
  count : submissions t ≡ n

module _ (env : Env) (session : SessionInput) (trainee : TraineeRef) where
  settles :
      (n : ℕ) (r : Result Response) (answer : Answer) (t : Trace)
      → n ≤ 3
      → answer.1 ≡ code_of env.debug (some r)
      → Answered n r t
      → IsSettled env.debug answer t
  settles n r answer t few e h = record {
    safe = h.safe;
    few = omega (arith, h.count);
    explained = e ∙ ap (code_of env.debug) (sym h.replied);
  }

  send-Returns :
      (job_id : String) (n : ℕ)
      → Returns
          (Sendable n)
          (send env (Request.submit_training job_id trainee session))
          (λ r t. Answered (n + 1) r t)
  unfolding send
  send-Returns job_id n =
      Ends-exchange _ _
        (λ w h. record { safe = (h.may, h.safe); replied = refl; count = omega (arith, h.count) })

  delay-Returns :
      (n attempt : ℕ) (resp : Response)
      → IsUnsent resp
      → Returns
          (Answered n (ok resp))
          (single_delay env session trainee attempt)
          (λ _ t. Sendable n t)
  unfolding single_delay emit
  delay-Returns n attempt resp unsent = record {
    at = λ w h. record { safe = (tt, h.safe); may = rw h.replied unsent; count = h.count };
  }

  follow-Returns :
      (next : ℕ → Action Answer) (n : ℕ) (resp : Response) (d : Decision)
      → n ≤ 3
      → decide_submit env.debug resp ≡ d
      → (n + 1 ≤ 3 → Returns (Sendable n) (next n) (IsSettled env.debug))
      → Returns
          (Answered n (ok resp))
          (follow_decision env session trainee next n d)
          (IsSettled env.debug)
  unfolding follow_decision
  follow-Returns next n resp (accept s) few e go =
      Ends-pure _ (λ w h. settles n (ok resp) _ w.trace few (ap decided_code (sym e)) h)
  follow-Returns next n resp (reject s) few e go =
      Ends-pure _ (λ w h. settles n (ok resp) _ w.trace few (ap decided_code (sym e)) h)
  follow-Returns next n resp (halt s) few e go =
      Ends-pure _ (λ w h. settles n (ok resp) _ w.trace few (ap decided_code (sym e)) h)
  follow-Returns next n resp (retry s) few e go =
      Ends-if (leb 3 n) _ _
        (λ b. Ends-pure _ (λ w h. settles n (ok resp) _ w.trace few (ap decided_code (sym e)) h))
        (λ b.
          Ends-bind {R = λ _ w. Sendable n w.trace} _ _
            (delay-Returns n n resp (decide-retry env.debug resp e)) (λ _. go (ground (arith, b))))

  conclude-Returns :
      (next : ℕ → Action Answer) (n : ℕ)
      → n ≤ 3
      → (n + 1 ≤ 3 → Returns (Sendable n) (next n) (IsSettled env.debug))
      → (r : Result Response)
      → Returns (Answered n r) (conclude_single env session trainee next n r) (IsSettled env.debug)
  unfolding conclude_single
  conclude-Returns next n few go (err e) =
      Ends-pure _ (λ w h. settles n (err e) _ w.trace few refl h)
  conclude-Returns next n few go (ok resp) =
      follow-Returns next n resp (decide_submit env.debug resp) few refl go

  loop-Returns :
      (job_id : String) (rounds n : ℕ)
      → 1 ≤ rounds
      → rounds + n ≡ 3
      → Returns (Sendable n) (single_loop env session trainee job_id rounds n) (IsSettled env.debug)
  unfolding single_loop
  loop-Returns job_id zero n some_left e = absurd (omega arith)
  loop-Returns job_id (suc rounds) n some_left e =
      Ends-bind {R = λ r w. Answered (n + 1) r w.trace} _ _ (send-Returns job_id n) (
        conclude-Returns (single_loop env session trainee job_id rounds) (n + 1) (omega (arith, e))
          (λ more. loop-Returns job_id rounds (n + 1) (omega (arith, e, more)) (omega (arith, e))))

  -- Nothing has been submitted.
  record Unsent (t : Trace) : Type 0 where
    quiet : AllEvents SafeRepeat t
    no_reply : last_reply t ≡ none
    no_submission : submissions t ≡ 0

  new_id-Returns : Returns Unsent (new_id env) (λ _ t. Unsent t)
  unfolding new_id
  new_id-Returns = Ends-exchange _ _ (λ w h. record {
    quiet = (tt, h.quiet);
    no_reply = h.no_reply;
    no_submission = h.no_submission;
  })

  ask-Returns :
      (req : Request.Request) → req.trainee ≡ none → Returns Unsent (send env req) (λ _ t. Unsent t)
  unfolding send
  ask-Returns req e = Ends-exchange _ _ (λ w h. record {
    quiet = (rw e tt, h.quiet);
    no_reply = rw e h.no_reply;
    no_submission = rw e (omega (arith, h.no_submission));
  })

  Unsent-IsSettled : (line : Option String) (t : Trace) → Unsent t → IsSettled env.debug (line, 1) t
  Unsent-IsSettled line t h = record {
    safe = h.quiet;
    few = omega (arith, h.no_submission);
    explained = sym (ap (code_of env.debug) h.no_reply);
  }

  submit-Returns : Returns Unsent (submit_single env session trainee) (IsSettled env.debug)
  unfolding submit_single
  submit-Returns = Ends-bind {R = λ _ w. Unsent w.trace} _ _ new_id-Returns (λ options_id.
      Ends-bind {R = λ _ w. Unsent w.trace} _ _ (ask-Returns _ refl) (λ options.
        Ends-bind {R = λ _ w. Unsent w.trace} _ _ new_id-Returns (λ job_id.
          Ends-weaken (loop-Returns job_id 3 0 (omega arith) refl)
            (λ w h. record { safe = h.quiet; may = rw h.no_reply tt; count = h.no_submission }))))

  run-Returns :
      (connected : Result (Unit {0}))
      → Returns Unsent (run_single env session trainee connected) (IsSettled env.debug)
  unfolding run_single
  run-Returns (err e) = Ends-pure _ (λ w h. Unsent-IsSettled none w.trace h)
  run-Returns (ok worker) = Ends-bind {R = λ _ w. Unsent w.trace} _ _ new_id-Returns (λ id.
      Ends-bind {R = λ _ w. Unsent w.trace} _ _ (ask-Returns _ refl) (λ reply.
        Ends-if (ensured reply) _ _ (λ b. submit-Returns)
          (λ b. Ends-pure _ (λ w h. Unsent-IsSettled none w.trace h))))

returned :
    {A : Type 0} (Q : A → World → Type 0) (r : Ending A) (w : World)
    → EndsWell ⊥ ⊥ Q r w
    → (a : A) × (r ≡ done a) × Q a w
returned Q (done a) w h = (a, refl, h)
returned Q (failed e) w h = elim h [ ]
returned Q blocked w h = elim h [ ]
returned Q panicked w h = elim h [ ]
returned Q out_of_fuel w h = elim h [ ]

-- Whatever the worker answers, a single run returns an exit code. It submits its trainee three times
-- at most, and again only behind a reply that proves that nothing was sent. Its code is 1 where it
-- submitted nothing, and else the one that the last reply asks for: 3 where the exchange broke or the
-- reply is halted on, 0 where it is accepted, and 4 where it is rejected or was the last retry.
pub run_single-IsSettled :
    (env : Env) (session : SessionInput) (trainee : TraineeRef) (connected : Result (Unit {0}))
    (machine : StateMachine)
    → let (r, w) =
        run_single env session trainee connected
          (record { trace = []; machine = machine; carried = [] }) in
      (answer : Answer) × (r ≡ done answer) × IsSettled env.debug answer w.trace
run_single-IsSettled env session trainee connected machine =
    returned (λ a w. IsSettled env.debug a w.trace) _ _
      ((run-Returns env session trainee connected).at
        (record { trace = []; machine = machine; carried = [] })
        (record { quiet = tt; no_reply = refl; no_submission = refl }))
