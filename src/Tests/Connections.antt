-- ===== src/Tests/Connections.antt =====
-- A connection of the bridge at concrete inputs.
use dssp_bot.Prelude.{false, ℕ, ◌≡◌, refl, ◌++◌, ◌⊎◌, none, List, [], ◌∷◌, ok, decimal, arith}
use dssp_bot.Daemon.{batch_id, launch}
use dssp_bot.Daemon.Control
use dssp_bot.Daemon.Token
use dssp_bot.Daemon.Route
use dssp_bot.Daemon.Bytes
use dssp_bot.Daemon.Http
use dssp_bot.Daemon.Bytes.{codes, bytes_eq}
use dssp_bot.Daemon.Http.{Stream, bytes}
use dssp_bot.Daemon.Connection.{Meets, response, connection}
use dssp_bot.Daemon.Connection.Guarded.{Serves, Refuses, connection-Guards}
use dssp_bot.Daemon.Connection.Printed.{IsReplyHead, response_reads_back}
use dssp_bot.Engine.Effects.{World, pure, ◌>>=◌}
use dssp_bot.Tests.Batches.{calm}
use dssp_bot.Daemon.System.{Reach, initial}
use dssp_bot.Daemon.Spawn.{start}
use dssp_bot.Daemon.Spawn.Refines.{Returns, after, start-Reach}
use dssp_bot.Recovery.{guard}
use dssp_bot.State
use dssp_bot.Tests.Daemons.{config, launched, stopping, one_trainee, is_nothing}

-- An empty store, a worker that answers and a thread that starts; a request for one trainee for every
-- body, and the text `{}` for every reply.
abbrev meets : Meets
meets = record {
  is_empty_object = λ text. bytes_eq text (codes "{}");
  batch_of = λ text. ok one_trainee;
  to_vec = λ body. codes "{}";
  stored = ok none;
  env = calm;
  made = ok tt;
  spawned = ok tt;
  is_blank = is_nothing;
  normalize = λ name. name;
}

-- A stop with the token, in two pieces.
abbrev signed : Stream
signed =
    bytes
      (codes "POST /batch/stop HTTP/1.1\r\nHost: 127.0.0.1:8765\r\nAuthorization: Bearer a1\r\n")
    ∷ bytes (codes "Content-Type: application/json\r\nContent-Length: 2\r\n\r\n{}")
    ∷ []

signed_answered :
    connection meets config signed launched.shared
    ≡ pure (
      codes
          "HTTP/1.1 200 OK\r\nContent-Type: application/json\r\nContent-Length: 2\r\nConnection: close\r\nCache-Control: no-store\r\n\r\n{}",
      stopping.shared,
    )
unfolding connection pure ◌>>=◌ decimal Http.read_request Bytes.ends_with Bytes.is_utf8
    Bytes.split_on Bytes.split_lines Bytes.http_token Bytes.split_once Http.get Http.is_host
    Bytes.trim Bytes.from_digits Route.admit Token.equal_token Route.answer_control
    Control.apply_control Control.control_captured launch
signed_answered = refl

-- A world that nothing has happened in.
abbrev awake : World
awake = record { trace = []; machine = State.new; carried = [] }

connection-Guards_example :
    let out = connection meets config signed launched.shared in
    Serves meets config signed launched.shared out ⊎ Refuses meets config signed launched.shared out
connection-Guards_example = connection-Guards meets config signed launched.shared

response_reads_back_example :
    (head : List ℕ) × (response meets (202, batch_id "b1") ≡ head ++ codes "{}")
    × IsReplyHead head 202 2
response_reads_back_example = response_reads_back meets 202 (batch_id "b1") (omega arith)

start-Reach_example :
    Returns
      (λ out. Reach initial (after out 0 []))
      (start is_nothing
        (λ name. name)
        calm
        (ok tt)
        (ok tt)
        (guard "dssp.checkpoint.json" false (ok none))
        one_trainee
        initial.shared
        awake)
start-Reach_example =
    start-Reach is_nothing (λ name. name) calm (ok tt) (ok tt) initial "dssp.checkpoint.json"
      (ok none) one_trainee awake
