-- ===== src/Tests/Daemons.antt =====
-- The bridge at concrete inputs.
use dssp_bot.Prelude.{
  ◌↔◌, ℕ, String, ok, str_eq, ◌≤◌, Bool, true, false, none, some, List, [], ◌∷◌, ◌≡◌, refl,
}
use dssp_bot.Recovery.{guard}
use dssp_bot.Tests.Batches.{by_id, session}
use dssp_bot.Daemon.Permits.{
  Listener, listens, arrives, ends, acquire_permit, drop_permit, dispatch_with, dispatch,
  connection_limit, permits_bounded,
}
use dssp_bot.Daemon.Start.{BatchRequest, refused, admit_batch}
use dssp_bot.Daemon.Start.Admitted.{Answers, admit_batch-Answers}
use dssp_bot.Daemon.{is_unfinished, acquire, launch, initialize}
use dssp_bot.Daemon.Bytes
use dssp_bot.Daemon.Http
use dssp_bot.Daemon.Bytes.{codes}
use dssp_bot.Daemon.Token.{equal_token, equal_token_iff}
use dssp_bot.Daemon.Http.{pass, fail, Stream, bytes, HttpRequest}
use dssp_bot.Daemon.Route.{Config, post_control, admit}
use dssp_bot.Daemon.Control.{control_captured}
use dssp_bot.Daemon.System.{
  System, Reach, start, later, initial, acquires, moves, initializes, launches, closes, admitted,
  initialized, running, on_state, close,
}
use dssp_bot.Daemon.System.Holder.{one_holder}
use dssp_bot.Daemon.System.Flags.{stop_lasts}

-- A request is admitted, shows its first progress, and launches the first batch.
abbrev pub waiting : System
waiting = record { shared = on_state (λ s. (acquire s).1) initial.shared; leases = admitted ∷ [] }

abbrev pub shown : System
shown = record { shared = on_state (initialize 2 []) waiting.shared; leases = initialized ∷ [] }

abbrev pub launched : System
launched = record { shared = launch shown.shared; leases = running 0 ∷ [] }

launched_reached : Reach initial launched
unfolding acquire
launched_reached =
    later (later (later start (acquires refl)) (moves [] [] refl (initializes 2 [])))
      (moves [] [] refl launches)

one_holder_example :
    (1 ≤ 1)
    × (launched.shared.state.busy ≡ true)
    × (launched.leases ≡ []
        → (launched.shared.state.control ≡ none)
          × (is_unfinished launched.shared.state.progress.state ≡ false))
one_holder_example = one_holder launched launched_reached

-- The launched batch, asked to stop, and then closed by the engine.
abbrev pub stopping : System
stopping = record launched { shared = (control_captured 0 none launched.shared).1 }

stop_lasts_example :
    let ended = record stopping { shared = close 0 stopping.shared } in
    ((ended.shared.controls 0).stop_requested ≡ true)
    × ((ended.shared.controls 0).pause_requested ≡ false)
    × ((pause : Bool) → (control_captured 0 (some pause) ended.shared).0.0 ≡ 409)
unfolding control_captured launch
stop_lasts_example =
    stop_lasts 0 launched (record stopping { shared = close 0 stopping.shared }) launched_reached
      refl (later start (moves [] [] refl closes))

token_example : equal_token (codes "Bearer a1") (codes "Bearer a2") ≡ false
unfolding equal_token
token_example = refl

equal_token_iff_example :
    (equal_token (codes "Bearer a1") (codes "Bearer a2") ≡ true)
    ↔ (codes "Bearer a1" ≡ codes "Bearer a2")
equal_token_iff_example = equal_token_iff (codes "Bearer a1") (codes "Bearer a2")

-- A head that arrives in two pieces, the body behind it, and the start of what is not read.
abbrev stop_head : List ℕ
stop_head = codes "POST /batch/stop HTTP/1.1\r\nHost: 127.0.0.1:8765\r\nContent-Length: 2\r\n\r\n"

abbrev arriving : Stream
arriving =
    bytes (codes "POST /batch/stop HT")
    ∷ bytes (codes "TP/1.1\r\nHost: 127.0.0.1:8765\r\nContent-Length: 2\r\n\r\n{")
    ∷ bytes (codes "}xyz")
    ∷ []

abbrev pub stop_request : HttpRequest
stop_request = record {
  method = codes "POST";
  path = codes "/batch/stop";
  headers = (codes "content-length", codes "2") ∷ (codes "host", codes "127.0.0.1:8765") ∷ [];
  body = codes "{}";
}

abbrev pub config : Config
config = record {
  port = 8765;
  origins = codes "chrome-extension://abc" ∷ [];
  token = codes "a1";
  checkpoint = record { dir = ""; name = "dssp.checkpoint.json" };
}

abbrev pub signed_request : HttpRequest
signed_request = record stop_request {
  headers =
      (codes "content-type", codes "application/JSON; charset=utf-8")
      ∷ (codes "origin", codes "chrome-extension://abc")
      ∷ (codes "authorization", codes "Bearer a1")
      ∷ stop_request.headers;
}

unsigned_refused : admit config stop_request ≡ fail 401 "valid bearer token required"
unfolding admit equal_token Http.get
unsigned_refused = refl

signed_admitted : admit config signed_request ≡ pass (post_control none)
unfolding admit equal_token Http.get Bytes.split_on Bytes.trim
signed_admitted = refl

-- A request for one trainee over an empty store.
abbrev pub one_trainee : BatchRequest
one_trainee = record { trainees = by_id "123" ∷ []; session = session; resume = false }

abbrev pub is_nothing : String → Bool
is_nothing text = str_eq text ""

admit_batch-Answers_example :
    let start = (guard "dssp.checkpoint.json" false (ok none)).0 in
    Answers is_nothing one_trainee start (admit_batch is_nothing one_trainee start)
admit_batch-Answers_example =
    admit_batch-Answers is_nothing "dssp.checkpoint.json" (ok none) one_trainee

keyless_refused :
    let nobody = record one_trainee { trainees = record { id = none; name = none } ∷ [] } in
    admit_batch is_nothing nobody (guard "dssp.checkpoint.json" false (ok none)).0
    ≡ refused 422 "trainees need an id/name and session fields must not be empty"
unfolding guard admit_batch
keyless_refused = refl

-- Two connections arrive, and one ends.
abbrev one_served : Listener
one_served = record {
  active = drop_permit (dispatch (dispatch (record { active = 0; threads = 0 }))).active;
  threads = 1;
}

permits_bounded_example : (one_served.active ≡ 1) × (1 ≤ connection_limit)
unfolding dispatch acquire_permit dispatch_with
permits_bounded_example = permits_bounded one_served (ends (arrives (arrives listens)) refl)
