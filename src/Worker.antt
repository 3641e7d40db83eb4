-- ===== src/Worker.antt =====
-- rust/src/worker.rs: one request and one response at a time over the worker's pipes, and a client that
-- is never used again behind a fault.
pub mod Replies
pub mod Latch
pub mod Shutdown
pub mod Settings
use dssp_bot.Prelude.{
  ℕ, String, Bool, true, false, not, Option, none, some, List, [], ◌∷◌, Result, ok, err, str_eq,
  ◌==◌, or_else, format, decimal, if◌then◌else◌,
}
use dssp_bot.Protocol.{Op, TraineeRef, TraineeResolved, Status, Response, protocol_version}
use dssp_bot.Protocol.Request.{Request}

-- What `recv_timeout` returns: a line, the reader's error, a timeout, or a reader that is gone.
pub data Received : Type 0 where
  line read_error : String → Received
  timed_out disconnected : Received

-- The outside of one exchange: serde's encoding and decoding, whether the line could be written, and
-- what the reader thread delivered; the line is decoded, and quoted in an error, with its ends
-- trimmed, and `debug` is Rust's.
pub record Outside : Type 0 where
  pub to_json : Request → Result String
  pub from_json : String → Result Response
  pub flushed : Result (Unit {0})
  pub received : Received
  pub trim : String → String
  pub debug : String → String

pub record Timeouts : Type 0 where
  pub ready : ℕ
  pub response : ℕ
  pub shutdown : ℕ

-- The lines written to the worker's stdin, the newest first, while it is open; and whether the channel
-- of the reader is. Shutdown has the child.
pub record WorkerClient : Type 0 where
  pub timeouts : Timeouts
  pub stdin : Option (List String)
  pub responses : Bool
  pub unusable : Option String
  pub reaped : Bool

-- Behind a successful spawn.
abbrev pub spawned : Timeouts → WorkerClient
spawned timeouts = record {
  timeouts = timeouts;
  stdin = some [];
  responses = true;
  unusable = none;
  reaped = false;
}

-- `?` on a `Result`.
abbrev pub and_then : {A B : Type 0} → Result A → (A → Result B) → Result B
and_then (ok a) f = f a
and_then (err e) f = err e

abbrev pub map_err : {A : Type 0} → (String → String) → Result A → Result A
map_err f (ok a) = ok a
map_err f (err e) = err (f e)

unfoldable pub check_version : Response → Result (Unit {0})
check_version resp =
    if resp.v == protocol_version
    then ok tt
    else err (
        format (
          "protocol version mismatch: the worker speaks v"
          ∷ decimal resp.v
          ∷ ", this build speaks v"
          ∷ decimal protocol_version
          ∷ " — refusing to act on fields that may not mean the same thing"
          ∷ []))

unfoldable pub received_line : Received → ℕ → String → Result String
received_line (line l) timeout phase = ok l
received_line (read_error e) timeout phase = err e
received_line timed_out timeout phase =
    err (format (phase ∷ " timed out after " ∷ decimal timeout ∷ " ms" ∷ []))
received_line disconnected timeout phase = err "worker response reader disconnected"

unfoldable pub versioned : Response → Result Response
versioned resp = and_then (check_version resp) (λ _. ok resp)

unfoldable pub decode : Outside → String → Result Response
decode out l =
    and_then
      (map_err (λ e. format ("invalid protocol line (" ∷ e ∷ "): " ∷ out.debug (out.trim l) ∷ []))
        (out.from_json (out.trim l)))
      versioned

unfoldable pub read_response : Outside → WorkerClient → ℕ → String → Result Response
unfolding received_line
read_response out client timeout phase =
    if not client.responses
    then err "worker response channel closed"
    else and_then (received_line out.received timeout phase) (decode out)

abbrev pub op_name : Op → String
op_name Op.ping = "ping"
op_name Op.ensure_session = "ensure_session"
op_name Op.list_trainees = "list_trainees"
op_name Op.get_form_options = "get_form_options"
op_name Op.submit_training = "submit_training"

abbrev requested_id : Option TraineeRef → Option String
requested_id none = none
requested_id (some t) = t.id

-- An identity is compared only where one was asked for and one was returned.
unfoldable pub check_trainee : Option String → Option TraineeResolved → Result (Unit {0})
check_trainee none actual = ok tt
check_trainee (some expected) none = ok tt
check_trainee (some expected) (some actual) =
    if str_eq expected actual.id
    then ok tt
    else err (
        format (
          "trainee_id mismatch: sent " ∷ expected ∷ ", received " ∷ actual.id
          ∷ " — protocol violation" ∷ []))

unfoldable pub check_echo : String → String → String → Result (Unit {0})
check_echo what sent received =
    if str_eq received sent
    then ok tt
    else err (
        format (
          what ∷ " mismatch: sent " ∷ sent ∷ ", received " ∷ received ∷ " — protocol violation"
          ∷ []))

unfoldable pub check_reply : Request → Response → Result Response
unfolding check_echo check_trainee
check_reply req resp = and_then (check_echo "job_id" req.job_id resp.job_id) (λ _.
    and_then (check_echo "op" (op_name req.op) resp.op)
      (λ _. and_then (check_trainee (requested_id req.trainee) resp.trainee) (λ _. ok resp)))

-- The write to an open pipe; a failed write may have written the line.
unfoldable pub write_line :
    Outside → String → WorkerClient → Option (List String) → Result (Unit {0}) × WorkerClient
write_line out l client none = (err "worker stdin closed", client)
write_line out l client (some lines) = (
  map_err (λ e. format ("write to worker failed: " ∷ e ∷ [])) out.flushed,
  record client { stdin = some (l ∷ lines) },
)

unfoldable pub answer :
    Outside → Request → Result (Unit {0}) × WorkerClient → Result Response × WorkerClient
answer out req (err e, client) = (err e, client)
answer out req (ok _, client) = (
  and_then (read_response out client client.timeouts.response "worker response")
      (λ resp. check_reply req resp),
  client,
)

unfoldable pub send_line :
    Outside → Request → WorkerClient → Result String → Result Response × WorkerClient
send_line out req client (err e) = (err (format ("serialize: " ∷ e ∷ [])), client)
send_line out req client (ok l) = answer out req (write_line out l client client.stdin)

unfoldable pub send_request : Outside → Request → WorkerClient → Result Response × WorkerClient
unfolding send_line answer write_line
send_request out req client = send_line out req client (out.to_json req)

unfoldable pub usable_by : Option String → Result (Unit {0})
usable_by none = ok tt
usable_by (some reason) = err (format ("worker client unusable: " ∷ reason ∷ []))

unfoldable pub check_usable : WorkerClient → Result (Unit {0})
check_usable client = usable_by client.unusable

unfoldable pub invalidate : String → WorkerClient → WorkerClient
invalidate reason client = record client {
  stdin = none;
  responses = false;
  unusable = or_else client.unusable (some reason);
}

unfoldable pub expect_ready : Status → Response → Result (Unit {0})
expect_ready Status.ready resp = ok tt
expect_ready Status.ok resp = err "expected ready handshake, got Ok"
expect_ready Status.error resp = err "expected ready handshake, got Error"

unfoldable pub invalidate_failed : {A : Type 0} → Result A → WorkerClient → Result A × WorkerClient
invalidate_failed (ok a) client = (ok a, client)
invalidate_failed (err e) client = (err e, invalidate e client)

unfoldable pub ready_of :
    Outside → WorkerClient → Result (Unit {0}) → Result (Unit {0}) × WorkerClient
ready_of out client (err e) = (err e, client)
ready_of out client (ok _) =
    invalidate_failed
      (and_then (read_response out client client.timeouts.ready "ready handshake")
        (λ resp. expect_ready resp.status resp))
      client

unfoldable pub wait_ready : Outside → WorkerClient → Result (Unit {0}) × WorkerClient
unfolding ready_of expect_ready invalidate_failed usable_by
wait_ready out client = ready_of out client (check_usable client)

-- A ready line in the middle of the flow is handed on, and is the client's last.
unfoldable pub settle_status : Status → Response → WorkerClient → Result Response × WorkerClient
settle_status Status.ready resp client =
    (ok resp, invalidate "unexpected ready line mid-flow" client)
settle_status _ resp client = (ok resp, client)

unfoldable pub settle_client : Result Response × WorkerClient → Result Response × WorkerClient
settle_client (err e, client) = (err e, invalidate e client)
settle_client (ok resp, client) = settle_status resp.status resp client

unfoldable pub send_if :
    Outside → Request → WorkerClient → Result (Unit {0}) → Result Response × WorkerClient
send_if out req client (err e) = (err e, client)
send_if out req client (ok _) = settle_client (send_request out req client)

unfoldable pub send : Outside → Request → WorkerClient → Result Response × WorkerClient
unfolding send_if settle_client settle_status usable_by
send out req client = send_if out req client (check_usable client)
