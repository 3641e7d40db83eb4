-- ===== src/Worker/Shutdown/Bounded.antt =====
-- rust/src/worker.rs: how long a shutdown takes, and what it leaves of the child.
use dssp_bot.Prelude.{
  ℕ, zero, suc, ◌+◌, ◌-◌, ◌*◌, ◌/◌, ◌≤◌, min, Bool, true, false, ◌||◌, Option, none, some, is_some,
  String, List, [], ◌∷◌, ◌++◌, ◌≡◌, ◌≢◌, refl, ◌⊎◌, inl, inr, Result, ok, err, ◌==◌, Bool-cases,
  or_else, any, arith,
}
use mathlib.Core.Path.{subst}
use native.Mathlib.Decide.{dec_le}
use dssp_bot.Worker.{WorkerClient, invalidate}
use dssp_bot.Worker.Shutdown.{
  Poll, exited, running, poll_failed, Call, try_wait, kill, wait, sleep, Child, pause, Ended, left,
  broke, unfinished, behind, wait_round, wait_loop, reap_killed, reap, grace, rounds_of, end_child,
  shutdown,
}

-- The polls, and the time that the sleeps are asked for in all.
abbrev pub polls : List Call → ℕ
polls [] = 0
polls (try_wait ∷ calls) = suc (polls calls)
polls (_ ∷ calls) = polls calls

abbrev pub slept : List Call → ℕ
slept [] = 0
slept (sleep n ∷ calls) = n + slept calls
slept (_ ∷ calls) = slept calls

abbrev pub is_kill : Call → Bool
is_kill kill = true
is_kill _ = false

abbrev pub is_wait : Call → Bool
is_wait wait = true
is_wait _ = false

-- `thread::sleep`: a sleep lasts as long as it is asked for, at least.
abbrev pub Sleeps : Child → ℕ → Type 0
Sleeps child timeout =
    (n : ℕ) → child.elapsed n + min (timeout - child.elapsed n) pause ≤ child.elapsed (suc n)

-- What holds of the loop from a round on, `spent` being the time behind it.
abbrev Waits : ℕ → ℕ → ℕ → Ended × List Call → Type 0
Waits timeout rounds spent (e, calls) =
    (e ≢ unfinished)
    × (polls calls ≤ rounds)
    × (slept calls ≤ timeout - spent)
    × (any is_kill calls ≡ false)
    × (any is_wait calls ≡ false)

ended-Waits :
    (timeout rounds spent : ℕ) (e : Ended)
    → e ≢ unfinished
    → Waits timeout (suc rounds) spent (e, try_wait ∷ [])
ended-Waits timeout rounds spent e h = (h, omega arith, omega arith, refl, refl)

slept-Waits :
    (timeout rounds spent next : ℕ) (later : Ended × List Call)
    → spent + min (timeout - spent) pause ≤ next
    → Waits timeout rounds next later
    → Waits timeout
        (suc rounds)
        spent
        (behind (try_wait ∷ sleep (min (timeout - spent) pause) ∷ []) later)
slept-Waits timeout rounds spent next (e, calls) s (over, few, short, kept, free) =
    (over, omega (arith, few), omega (arith, short, s), kept, free)

round-Waits :
    (timeout rounds spent next : ℕ) (p : Poll) (later : Ended × List Call)
    → spent + min (timeout - spent) pause ≤ next
    → ((timeout ≤ spent) ⊎ Waits timeout rounds next later)
    → Waits timeout (suc rounds) spent (wait_round (timeout - spent) p later)
unfolding wait_round
round-Waits timeout rounds spent next exited later s h =
    ended-Waits timeout rounds spent left (λ e. cc)
round-Waits timeout rounds spent next (poll_failed p) later s h =
    ended-Waits timeout rounds spent broke (λ e. cc)
round-Waits timeout rounds spent next running later s (inl past) =
    let e : (timeout - spent == 0) ≡ true = ground arith in
    rw e (ended-Waits timeout rounds spent broke (λ e. cc))
round-Waits timeout rounds spent next running later s (inr h) =
    elim (Bool-cases (timeout - spent == 0)) [
      | inl e ↦ rw e (ended-Waits timeout rounds spent broke (λ e. cc))
      | inr e ↦ rw e (slept-Waits timeout rounds spent next later s h)
    ]

-- The rounds that are left are enough for what is left of the timeout.
loop-Waits :
    (child : Child) (timeout k round : ℕ)
    → Sleeps child timeout
    → timeout ≤ child.elapsed round + k * pause
    → Waits timeout (suc k) (child.elapsed round) (wait_loop child timeout (suc k) round)
unfolding wait_loop
loop-Waits child timeout zero round s h =
    round-Waits timeout 0 (child.elapsed round) (child.elapsed (suc round)) (child.polled round)
      (wait_loop child timeout zero (suc round)) (s round) (inl (omega arith))
loop-Waits child timeout (suc k) round s h =
    round-Waits timeout (suc k) (child.elapsed round) (child.elapsed (suc round))
      (child.polled round) (wait_loop child timeout (suc k) (suc round)) (s round)
      (elim (dec_le timeout (child.elapsed round)) [
        | yes past ↦ inl past
        | no more ↦ inr (loop-Waits child timeout k (suc round) s (omega (arith, s round)))
      ])

polls-append : (xs ys : List Call) → polls (xs ++ ys) ≡ polls xs + polls ys
polls-append [] ys = omega arith
polls-append (try_wait ∷ xs) ys = omega (arith, polls-append xs ys)
polls-append (kill ∷ xs) ys = polls-append xs ys
polls-append (wait ∷ xs) ys = polls-append xs ys
polls-append (sleep n ∷ xs) ys = polls-append xs ys

slept-append : (xs ys : List Call) → slept (xs ++ ys) ≡ slept xs + slept ys
slept-append [] ys = omega arith
slept-append (try_wait ∷ xs) ys = slept-append xs ys
slept-append (kill ∷ xs) ys = slept-append xs ys
slept-append (wait ∷ xs) ys = slept-append xs ys
slept-append (sleep n ∷ xs) ys = omega (arith, slept-append xs ys)

any-append : (p : Call → Bool) (xs ys : List Call) → any p (xs ++ ys) ≡ (any p xs || any p ys)
any-append p [] ys = refl
any-append p (x ∷ xs) ys = ground (arith, any-append p xs ys)

-- What follows the wait: a kill, unless the child has left.
abbrev Reaps : Child → Bool × List Call → Type 0
Reaps child (reaped, calls) =
    (polls calls ≤ 1)
    × (slept calls ≡ 0)
    × ((reaped ≡ true) ⊎ (any is_kill calls ≡ true))
    × (any is_wait calls ≡ true → child.killed ≡ ok tt)

reap_killed-Reaps :
    (child : Child) (r : Result (Unit {0})) → child.killed ≡ r → Reaps child (reap_killed child r)
unfolding reap_killed
reap_killed-Reaps child (ok u) e = (omega arith, refl, inr refl, λ w. e)
reap_killed-Reaps child (err m) e = (omega arith, refl, inr refl, λ w. cc)

reap-Reaps : (child : Child) (e : Ended) → e ≢ unfinished → Reaps child (reap child e)
unfolding reap
reap-Reaps child left h = (omega arith, refl, inl refl, λ w. cc)
reap-Reaps child broke h = reap_killed-Reaps child child.killed refl
reap-Reaps child unfinished h = absurd (h refl)

-- What a shutdown leaves, and what it did.
abbrev pub Ends : Child → ℕ → WorkerClient × List Call → Type 0
Ends child timeout (client, calls) =
    (polls calls ≤ timeout / pause + 3)
    × (slept calls ≤ timeout)
    × ((client.reaped ≡ true) ⊎ (any is_kill calls ≡ true))
    × (any is_wait calls ≡ true → child.killed ≡ ok tt)

joined-Ends :
    (child : Child) (client : WorkerClient) (timeout rounds spent : ℕ) (e : Ended)
    (calls : List Call)
    → rounds ≡ timeout / pause + 2
    → Waits timeout rounds spent (e, calls)
    → Ends child timeout (record client { reaped = (reap child e).0 }, calls ++ (reap child e).1)
joined-Ends child client timeout rounds spent e calls enough (over, few, short, kept, free) =
    let (once, none_slept, gone, ok_wait) = reap-Reaps child e over in
    let killed = (reap child e).1 in
    (
      omega (arith, polls-append calls killed),
      omega (arith, slept-append calls killed),
      elim gone [ inl r ↦ inl r | inr k ↦ inr (rw (any-append is_kill calls killed, kept) k) ],
      λ w. ok_wait (ground (arith, any-append is_wait calls killed)),
    )

end_child-Ends :
    (child : Child) (client : WorkerClient)
    → Sleeps child (grace client)
    → Ends child (grace client) (end_child child client)
unfolding end_child
end_child-Ends child client s =
    let timeout = grace client in
    let (e, calls) = wait_loop child timeout (rounds_of timeout) 0 in
    joined-Ends child client timeout (rounds_of timeout) (child.elapsed 0)
      (wait_loop child timeout (rounds_of timeout) 0).0
      (wait_loop child timeout (rounds_of timeout) 0).1 refl
      (subst (λ (n : ℕ). Waits timeout n (child.elapsed 0) (wait_loop child timeout n 0))
        {x = suc (timeout / pause + 1)} (omega arith)
        (loop-Waits child timeout (timeout / pause + 1) 0 s (omega arith)))

-- The client is latched.
abbrev pub IsLatched : WorkerClient → Type 0
IsLatched client = is_some client.unusable ≡ true

invalidate-IsLatched :
    (reason : String) (client : WorkerClient) → IsLatched (invalidate reason client)
unfolding invalidate
invalidate-IsLatched reason client = latched client.unusable
  where
    latched : (u : Option String) → is_some (or_else u (some reason)) ≡ true
    latched none = refl
    latched (some r) = refl

end_child-IsLatched :
    (child : Child) (client : WorkerClient)
    → IsLatched client
    → IsLatched (end_child child client).0
unfolding end_child
end_child-IsLatched child client h = h

-- Where a sleep lasts as long as it is asked for, the shutdown of a worker that is not reaped comes to
-- an end: it polls the child a time for each ten milliseconds of the timeout and three more at most,
-- and asks to sleep for the timeout at most in all. The child is reaped or was sent a kill, a wait
-- without a bound is made only where the kill succeeded, and the client is marked as unusable.
pub shutdown_ends :
    (child : Child) (client : WorkerClient)
    → Sleeps child (grace client)
    → client.reaped ≡ false
    → Ends child (grace client) (shutdown child client) × IsLatched (shutdown child client).0
unfolding shutdown
shutdown_ends child client s fresh =
    let client' = invalidate "worker shut down" client in
    let same : client'.reaped ≡ false = unfold invalidate in fresh in
    let s' : Sleeps child (grace client') = unfold invalidate in s in
    rw same (
      (unfold invalidate in end_child-Ends child client' s'),
      end_child-IsLatched child client' (invalidate-IsLatched "worker shut down" client),
    )
