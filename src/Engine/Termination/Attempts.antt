-- ===== src/Engine/Termination/Attempts.antt =====
-- rust/src/engine.rs `process_trainee` returns a result: the retry policy bounds its rounds.
use dssp_bot.Prelude.{
  ℕ, zero, suc, ◌+◌, ◌≤◌, ◌<◌, String, ◌≡◌, refl, Option, none, arith, Result, ok, err,
}
use dssp_bot.Protocol.{TraineeRef, SessionInput, Response}
use dssp_bot.Protocol.Request
use dssp_bot.Report.{TrainingResult}
use dssp_bot.Decision.{RetryPolicy, Settle, success, failed, indeterminate}
use dssp_bot.State.{loading_trainee, submitting, verifying, retrying}
use dssp_bot.Engine.Effects.{Env, Action, send, new_id}
use dssp_bot.Engine.Attempt.{
  Verdict, settled, again, judge, back_off, follow, conclude, attempt_loop, process_trainee,
}
use dssp_bot.Engine.Termination.{
  Ends-pure, Ends-exchange, Ends-bind, Finishes, try_transition-Finishes, emit-Finishes,
  Within-stop,
}

-- Another attempt is made only below the policy's limit.
judge-again :
    (policy : RetryPolicy) (trainee : TraineeRef) (resp : Response) (n : ℕ) (s : Settle)
    {result : TrainingResult}
    → judge policy trainee resp n s ≡ again result
    → n < policy.max_attempts
unfolding judge
judge-again policy trainee resp n success h = cc
judge-again policy trainee resp n (failed code message) h = cc
judge-again policy trainee resp n (indeterminate message) h = cc
judge-again policy trainee resp n (Settle.retry code message) h = ground arith

module _ (env : Env) where
  pub send-Finishes : (req : Request.Request) → Finishes env (send env req)
  unfolding send
  send-Finishes req = Ends-exchange _ _ (λ w h. tt)

  pub new_id-Finishes : Finishes env (new_id env)
  unfolding new_id
  new_id-Finishes = Ends-exchange _ _ (λ w h. tt)

module _ (env : Env) (policy : RetryPolicy) (session : SessionInput) (trainee : TraineeRef) where
  -- Rounds that are enough behind `n` attempts.
  abbrev Enough : ℕ → ℕ → Type 0
  Enough rounds n = (1 ≤ rounds) × (policy.max_attempts + 1 ≤ n + rounds)

  follow-Finishes :
      (next : ℕ → Option TrainingResult → Action TrainingResult) (n : ℕ) (v : Verdict)
      → ((result : TrainingResult) → v ≡ again result → Finishes env (next n (Option.some result)))
      → Finishes env (follow env policy session trainee next n v)
  unfolding follow back_off
  follow-Finishes next n (settled result) go =
      Ends-bind _ _ (try_transition-Finishes env verifying) (λ _. Ends-pure result (λ w h. tt))
  follow-Finishes next n (again result) go =
      Ends-bind _ _ (try_transition-Finishes env retrying)
        (λ _. Ends-bind _ _ (emit-Finishes env _) (λ _. go result refl))

  conclude-Finishes :
      (next : ℕ → Option TrainingResult → Action TrainingResult) (n : ℕ) (r : Result Response)
      → (n < policy.max_attempts → (result : Option TrainingResult) → Finishes env (next n result))
      → Finishes env (conclude env policy session trainee next n r)
  unfolding conclude
  conclude-Finishes next n (err e) go = Ends-pure _ (λ w h. tt)
  conclude-Finishes next n (ok resp) go =
      follow-Finishes next n _ (λ result e. go (judge-again policy trainee resp n _ e) _)

  attempt_loop-Finishes :
      (job_id : String) (rounds n : ℕ) (r : Option TrainingResult)
      → Enough rounds n
      → Finishes env (attempt_loop env policy session trainee job_id rounds n r)
  unfolding attempt_loop
  attempt_loop-Finishes job_id zero n r enough =
      let none_left : ⊥ = omega arith in elim none_left [ ]
  attempt_loop-Finishes job_id (suc rounds) n r enough =
      Within-stop env _ _ (λ _. Ends-pure _ (λ w h. tt))
        (Ends-bind _ _ (try_transition-Finishes env submitting) (λ _.
          Ends-bind _ _ (send-Finishes env _) (λ reply.
            conclude-Finishes _ (n + 1) reply (λ below result.
              attempt_loop-Finishes job_id rounds (n + 1) result (omega arith, omega arith)))))

  pub process_trainee-Finishes : Finishes env (process_trainee env policy session trainee)
  unfolding process_trainee
  process_trainee-Finishes = Ends-bind _ _ (try_transition-Finishes env loading_trainee) (λ _.
      Ends-bind _ _ (new_id-Finishes env) (λ job_id.
        attempt_loop-Finishes job_id (suc policy.max_attempts) 0 none (omega arith, omega arith)))
