-- ===== src/Tests/Workers.antt =====
-- The worker's client at concrete inputs.
use dssp_bot.Prelude.{true, refl, some, [], ◌∷◌, ◌≡◌, ◌*◌, ok, err, All, arith}
use dssp_bot.Daemon.Bytes.{codes, from_digits}
use dssp_bot.Worker.Shutdown.{Poll, Call, Child, pause, grace, shutdown}
use dssp_bot.Worker.Shutdown.Bounded.{Sleeps, Ends, IsLatched, shutdown_ends}
use dssp_bot.Worker.Settings.{invalid, parse_timeout}
use dssp_bot.Protocol.{Status, Response, bare_response}
use dssp_bot.Protocol.Request
use dssp_bot.Worker
use dssp_bot.Worker.{Outside, WorkerClient, Timeouts, spawned, line, timed_out, send}
use dssp_bot.Worker.Replies.{IsReplyTo, send-IsReplyTo}
use dssp_bot.Worker.Latch.{IsFailed, exchange_all, send_latches}

abbrev timeouts : Timeouts
timeouts = record { ready = 10000; response = 360000; shutdown = 2000 }

abbrev pong : Response
pong = record (bare_response Status.ok) { job_id = "j"; op = "ping"; pong = some true }

-- A worker that answers each line with `pong`, and one that says nothing.
abbrev answering : Outside
answering = record {
  to_json = λ req. ok "request";
  from_json = λ l. ok pong;
  flushed = ok tt;
  received = line "pong";
  trim = λ s. s;
  debug = λ s. s;
}

abbrev silent : Outside
silent = record answering { received = timed_out }

send-IsReplyTo_example : IsReplyTo (Request.ping "j") pong
unfolding send Worker.send_if Worker.settle_client Worker.settle_status Worker.check_usable
    Worker.usable_by Worker.send_request Worker.send_line Worker.answer Worker.write_line
    Worker.read_response Worker.received_line Worker.decode Worker.versioned Worker.check_version
    Worker.check_reply Worker.check_echo Worker.check_trainee
send-IsReplyTo_example = send-IsReplyTo answering (Request.ping "j") (spawned timeouts) refl

send_latches_example : All IsFailed (
    exchange_all
      ((answering, Request.ping "j") ∷ [])
      (send silent (Request.ping "j") (spawned timeouts)).1)
unfolding send Worker.send_if Worker.settle_client Worker.settle_status Worker.check_usable
    Worker.usable_by Worker.send_request Worker.send_line Worker.answer Worker.write_line
    Worker.read_response Worker.received_line Worker.decode Worker.versioned Worker.check_version
    Worker.check_reply Worker.check_echo Worker.check_trainee
send_latches_example =
    send_latches silent (Request.ping "j") (spawned timeouts) ((answering, Request.ping "j") ∷ [])
      tt

-- A child that never leaves, over a clock that moves by ten milliseconds in each round.
abbrev stubborn : Child
stubborn = record {
  polled = λ n. Poll.running;
  elapsed = λ n. n * pause;
  killed = ok tt;
  waited = ok tt;
  last = Poll.running;
}

stubborn-Sleeps : Sleeps stubborn (grace (spawned timeouts))
stubborn-Sleeps n = omega arith

shutdown_ends_example :
    Ends stubborn (grace (spawned timeouts)) (shutdown stubborn (spawned timeouts))
    × IsLatched (shutdown stubborn (spawned timeouts)).0
shutdown_ends_example = shutdown_ends stubborn (spawned timeouts) stubborn-Sleeps refl

-- With a grace of 20 milliseconds.
brief_calls :
    (shutdown stubborn (spawned (record timeouts { shutdown = 20 }))).1
    ≡ Call.try_wait
      ∷ Call.sleep pause
      ∷ Call.try_wait
      ∷ Call.sleep pause
      ∷ Call.try_wait
      ∷ Call.kill
      ∷ Call.wait
      ∷ []
unfolding shutdown Worker.invalidate
brief_calls = refl

small_read : parse_timeout (λ ms. true) "T" (codes "360000") ≡ ok 360000
unfolding parse_timeout from_digits
small_read = refl

huge_refused : parse_timeout (λ ms. true) "T" (codes "18446744073709551616") ≡ err (invalid "T")
unfolding parse_timeout from_digits
huge_refused = refl
