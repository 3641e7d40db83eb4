-- ===== src/Worker/Replies.antt =====
-- rust/src/worker.rs: what a reply that is handed on was checked for.
use mathlib.Core.Path.{subst}
use dssp_bot.Prelude.{
  ℕ, String, Bool, true, false, not, ◌≡◌, refl, Option, none, some, arith, Result, ok, err, str_eq,
  ◌==◌, if◌then◌else◌,
}
use dssp_bot.Protocol.{TraineeResolved, Status, Response, protocol_version}
use dssp_bot.Protocol.Request.{Request}
use dssp_bot.Worker.{
  Outside, WorkerClient, and_then, map_err, requested_id, op_name, check_version, check_echo,
  check_trainee, check_reply, versioned, decode, read_response, answer, send_line, send_request,
  check_usable, settle_status, settle_client, send_if, send,
}

-- Of a value that was returned.
unfoldable pub Holds : {A : Type 0} → (A → Type 0) → Result A → Type 0
Holds P (ok a) = P a
Holds P (err e) = Unit

pub Holds-err : {A : Type 0} (P : A → Type 0) (e : String) → Holds P (err e)
unfolding Holds
Holds-err P e = tt

pub Holds-value : {A : Type 0} (P : A → Type 0) (a : A) → P a → Holds P (ok a)
unfolding Holds
Holds-value P a h = h

pub Holds-if :
    {A : Type 0} (P : A → Type 0) (b : Bool) (m n : Result A)
    → (b ≡ true → Holds P m)
    → (b ≡ false → Holds P n)
    → Holds P (if b then m else n)
Holds-if P true m n hm hn = hm refl
Holds-if P false m n hm hn = hn refl

pub Holds-and_then :
    {A B : Type 0} (P : A → Type 0) (Q : B → Type 0) (r : Result A) (f : A → Result B)
    → Holds P r
    → ((a : A) → P a → Holds Q (f a))
    → Holds Q (and_then r f)
unfolding Holds
Holds-and_then P Q (ok a) f h hf = hf a h
Holds-and_then P Q (err e) f h hf = tt

anything : {A : Type 0} (r : Result A) → Holds (λ _. Unit) r
unfolding Holds
anything (ok a) = tt
anything (err e) = tt

-- Where an identity was asked for and one was returned, the two compare equal.
abbrev pub AgreesOn : Option String → Option TraineeResolved → Type 0
AgreesOn (some expected) (some actual) = str_eq expected actual.id ≡ true
AgreesOn _ _ = Unit

-- What the client checks of a reply before it hands it on.
pub record IsReplyTo (req : Request) (resp : Response) : Type 0 where
  pub same_version : resp.v ≡ protocol_version
  pub same_job : str_eq resp.job_id req.job_id ≡ true
  pub same_op : str_eq resp.op (op_name req.op) ≡ true
  pub same_trainee : AgreesOn (requested_id req.trainee) resp.trainee

check_version-Holds :
    (resp : Response) → Holds (λ _. resp.v ≡ protocol_version) (check_version resp)
unfolding check_version
check_version-Holds resp =
    Holds-if _ (resp.v == protocol_version) _ _ (λ e. Holds-value _ _ (ground arith))
      (λ _. Holds-err _ _)

check_echo-Holds :
    (what sent received : String)
    → Holds (λ _. str_eq received sent ≡ true) (check_echo what sent received)
unfolding check_echo
check_echo-Holds what sent received =
    Holds-if _ (str_eq received sent) _ _ (λ e. Holds-value _ _ e) (λ _. Holds-err _ _)

check_trainee-Holds :
    (expected : Option String) (actual : Option TraineeResolved)
    → Holds (λ _. AgreesOn expected actual) (check_trainee expected actual)
unfolding check_trainee
check_trainee-Holds none actual = Holds-value _ _ tt
check_trainee-Holds (some expected) none = Holds-value _ _ tt
check_trainee-Holds (some expected) (some actual) =
    Holds-if _ (str_eq expected actual.id) _ _ (λ e. Holds-value _ _ e) (λ _. Holds-err _ _)

check_reply-Holds :
    (req : Request) (resp : Response)
    → resp.v ≡ protocol_version
    → Holds (IsReplyTo req) (check_reply req resp)
unfolding check_reply
check_reply-Holds req resp version =
    Holds-and_then _ _ _ _ (check_echo-Holds "job_id" req.job_id resp.job_id) (λ _ job.
      Holds-and_then _ _ _ _ (check_echo-Holds "op" (op_name req.op) resp.op) (λ _ op.
        Holds-and_then _ _ _ _ (check_trainee-Holds (requested_id req.trainee) resp.trainee)
          (λ _ id.
            Holds-value _ _ (record {
              same_version = version;
              same_job = job;
              same_op = op;
              same_trainee = id;
            }))))

versioned-Holds : (resp : Response) → Holds (λ r. r.v ≡ protocol_version) (versioned resp)
unfolding versioned
versioned-Holds resp =
    Holds-and_then _ _ (check_version resp) (λ _. ok resp) (check_version-Holds resp)
      (λ _ version. Holds-value _ resp version)

decode-Holds :
    (out : Outside) (l : String) → Holds (λ resp. resp.v ≡ protocol_version) (decode out l)
unfolding decode
decode-Holds out l =
    Holds-and_then (λ _. Unit) _ (map_err _ (out.from_json (out.trim l))) versioned (anything _)
      (λ resp _. versioned-Holds resp)

read_response-Holds :
    (out : Outside) (client : WorkerClient) (timeout : ℕ) (phase : String)
    → Holds (λ resp. resp.v ≡ protocol_version) (read_response out client timeout phase)
unfolding read_response
read_response-Holds out client timeout phase =
    Holds-if _ (not client.responses) _ _ (λ _. Holds-err _ _)
      (λ _. Holds-and_then (λ _. Unit) _ _ _ (anything _) (λ l _. decode-Holds out l))

answer-Holds :
    (out : Outside) (req : Request) (r : Result (Unit {0}) × WorkerClient)
    → Holds (IsReplyTo req) (answer out req r).0
unfolding answer
answer-Holds out req (err e, client) = Holds-err _ _
answer-Holds out req (ok u, client) =
    Holds-and_then _ _ _ _ (read_response-Holds out client _ _)
      (λ resp version. check_reply-Holds req resp version)

send_line-Holds :
    (out : Outside) (req : Request) (client : WorkerClient) (l : Result String)
    → Holds (IsReplyTo req) (send_line out req client l).0
unfolding send_line
send_line-Holds out req client (err e) = Holds-err _ _
send_line-Holds out req client (ok l) = answer-Holds out req _

settle_status-result :
    (status : Status) (resp : Response) (client : WorkerClient)
    → (settle_status status resp client).0 ≡ ok resp
unfolding settle_status
settle_status-result Status.ok resp client = refl
settle_status-result Status.error resp client = refl
settle_status-result Status.ready resp client = refl

settle_client-result : (r : Result Response × WorkerClient) → (settle_client r).0 ≡ r.0
unfolding settle_client
settle_client-result (err e, client) = refl
settle_client-result (ok resp, client) = settle_status-result resp.status resp client

send_if-Holds :
    (out : Outside) (req : Request) (client : WorkerClient) (r : Result (Unit {0}))
    → Holds (IsReplyTo req) (send_if out req client r).0
unfolding send_if send_request
send_if-Holds out req client (err e) = Holds-err _ _
send_if-Holds out req client (ok u) =
    rw (settle_client-result (send_request out req client))
      (send_line-Holds out req client (out.to_json req))

Holds-ok : {A : Type 0} (P : A → Type 0) (r : Result A) {a : A} → r ≡ ok a → Holds P r → P a
unfolding Holds
Holds-ok P r e h = subst (Holds P) e h

-- A reply that the client hands on is of this build's protocol version, echoes the job and the
-- operation of the request, and where the request names a trainee's id and the reply a trainee,
-- the two ids compare equal.
pub send-IsReplyTo :
    (out : Outside) (req : Request) (client : WorkerClient) {resp : Response}
    → (send out req client).0 ≡ ok resp
    → IsReplyTo req resp
unfolding send
send-IsReplyTo out req client e =
    Holds-ok (IsReplyTo req) _ e (send_if-Holds out req client (check_usable client))
