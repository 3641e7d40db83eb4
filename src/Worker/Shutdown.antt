-- ===== src/Worker/Shutdown.antt =====
-- rust/src/worker.rs: `shutdown`, a bounded wait for the child to leave, and a kill behind it.
pub mod Bounded
use dssp_bot.Prelude.{
  ℕ, zero, suc, ◌+◌, ◌-◌, ◌*◌, ◌/◌, min, String, Bool, true, false, List, [], ◌∷◌, ◌++◌, Result, ok,
  err, ◌==◌, if◌then◌else◌,
}
use dssp_bot.Worker.{WorkerClient, invalidate}

-- What `try_wait` returns.
pub data Poll : Type 0 where
  exited running : Poll
  poll_failed : String → Poll

-- The calls that a shutdown makes of the system; a sleep with the time that it is asked for.
pub data Call : Type 0 where
  try_wait kill wait : Call
  sleep : ℕ → Call

-- What the system answers. The loop's rounds are counted from 0: what `try_wait` returns in a round,
-- and the nanoseconds since the start that the clock shows behind it. `last` is the poll behind a kill
-- that failed.
pub record Child : Type 0 where
  pub polled : ℕ → Poll
  pub elapsed : ℕ → ℕ
  pub killed : Result (Unit {0})
  pub waited : Result (Unit {0})
  pub last : Poll

-- Ten milliseconds.
abbrev pub pause : ℕ
pause = 10 * 1000000

-- How the loop ends; `unfinished` where the rounds that the model gives it run out.
pub data Ended : Type 0 where
  left broke unfinished : Ended

abbrev pub behind : List Call → Ended × List Call → Ended × List Call
behind calls (e, later) = (e, calls ++ later)

-- A round, with what the rounds behind it do.
unfoldable pub wait_round : ℕ → Poll → Ended × List Call → Ended × List Call
wait_round remaining exited later = (left, try_wait ∷ [])
wait_round remaining (poll_failed e) later = (broke, try_wait ∷ [])
wait_round remaining running later =
    if remaining == 0
    then (broke, try_wait ∷ [])
    else behind (try_wait ∷ sleep (min remaining pause) ∷ []) later

unfoldable pub wait_loop : Child → ℕ → ℕ → ℕ → Ended × List Call
unfolding wait_round
wait_loop child timeout zero round = (unfinished, [])
wait_loop child timeout (suc rounds) round =
    wait_round (timeout - child.elapsed round) (child.polled round)
      (wait_loop child timeout rounds (suc round))

abbrev pub is_ok : Result (Unit {0}) → Bool
is_ok (ok u) = true
is_ok (err e) = false

abbrev pub has_exited : Poll → Bool
has_exited exited = true
has_exited _ = false

-- Behind a kill: whether the child is reaped. A live child is not waited for.
unfoldable pub reap_killed : Child → Result (Unit {0}) → Bool × List Call
reap_killed child (ok u) = (is_ok child.waited, kill ∷ wait ∷ [])
reap_killed child (err e) = (has_exited child.last, kill ∷ try_wait ∷ [])

unfoldable pub reap : Child → Ended → Bool × List Call
unfolding reap_killed
reap child left = (true, [])
reap child broke = reap_killed child child.killed
reap child unfinished = (false, [])

-- The timeout in nanoseconds, and the rounds that the wait is given.
abbrev pub grace : WorkerClient → ℕ
grace client = client.timeouts.shutdown * 1000000

abbrev pub rounds_of : ℕ → ℕ
rounds_of timeout = timeout / pause + 2

unfoldable pub end_child : Child → WorkerClient → WorkerClient × List Call
unfolding wait_loop reap
end_child child client =
    let (ended, waited) = wait_loop child (grace client) (rounds_of (grace client)) 0 in
    let (reaped, killed) = reap child ended in (record client { reaped = reaped }, waited ++ killed)

-- The client behind a shutdown, and the calls that it made.
unfoldable pub shutdown : Child → WorkerClient → WorkerClient × List Call
unfolding end_child
shutdown child client =
    let client' = invalidate "worker shut down" client in
    if client'.reaped then (client', []) else end_child child client'
