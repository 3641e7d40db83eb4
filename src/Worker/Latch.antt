-- ===== src/Worker/Latch.antt =====
-- rust/src/worker.rs: a client behind a fault is never used again.
use dssp_bot.Prelude.{
  String, true, not, ◌≡◌, refl, ap, Option, none, some, List, [], ◌∷◌, arith, Result, ok, err,
  is_some, All,
}
use dssp_bot.Protocol.{Status, Response}
use dssp_bot.Protocol.Request.{Request}
use dssp_bot.Worker.{
  Outside, WorkerClient, Timeouts, spawned, write_line, answer, send_line, send_request, usable_by,
  check_usable, invalidate, invalidate_failed, ready_of, wait_ready, settle_status, settle_client,
  send_if, send,
}

-- The pipes are open exactly as long as the client is usable.
pub record IsWhole (client : WorkerClient) : Type 0 where
  pub writes : is_some client.stdin ≡ not (is_some client.unusable)
  pub reads : client.responses ≡ not (is_some client.unusable)

invalidate-IsWhole : (reason : String) (client : WorkerClient) → IsWhole (invalidate reason client)
unfolding invalidate
invalidate-IsWhole reason client = record { writes = ground arith; reads = ground arith }

send_line-IsWhole :
    (out : Outside) (req : Request) (client : WorkerClient) (l : Result String)
    → IsWhole client
    → IsWhole (send_line out req client l).1
unfolding send_line answer write_line
send_line-IsWhole out req client (err e) h = h
send_line-IsWhole out req client (ok l) h = record {
  writes = ground (arith, h.writes);
  reads = ground (arith, h.reads);
}

settle_status-IsWhole :
    (status : Status) (resp : Response) (client : WorkerClient)
    → IsWhole client
    → IsWhole (settle_status status resp client).1
unfolding settle_status
settle_status-IsWhole Status.ok resp client h = h
settle_status-IsWhole Status.error resp client h = h
settle_status-IsWhole Status.ready resp client h = invalidate-IsWhole _ client

settle_client-IsWhole :
    (r : Result Response × WorkerClient) → IsWhole r.1 → IsWhole (settle_client r).1
unfolding settle_client
settle_client-IsWhole (err e, client) h = invalidate-IsWhole e client
settle_client-IsWhole (ok resp, client) h = settle_status-IsWhole resp.status resp client h

send_if-IsWhole :
    (out : Outside) (req : Request) (client : WorkerClient) (r : Result (Unit {0}))
    → IsWhole client
    → IsWhole (send_if out req client r).1
unfolding send_if send_request
send_if-IsWhole out req client (err e) h = h
send_if-IsWhole out req client (ok u) h =
    settle_client-IsWhole _ (send_line-IsWhole out req client (out.to_json req) h)

send-IsWhole :
    (out : Outside) (req : Request) (client : WorkerClient)
    → IsWhole client
    → IsWhole (send out req client).1
unfolding send
send-IsWhole out req client h = send_if-IsWhole out req client (check_usable client) h

invalidate_failed-IsWhole :
    {A : Type 0} (r : Result A) (client : WorkerClient)
    → IsWhole client
    → IsWhole (invalidate_failed r client).1
unfolding invalidate_failed
invalidate_failed-IsWhole (ok a) client h = h
invalidate_failed-IsWhole (err e) client h = invalidate-IsWhole e client

ready_of-IsWhole :
    (out : Outside) (client : WorkerClient) (r : Result (Unit {0}))
    → IsWhole client
    → IsWhole (ready_of out client r).1
unfolding ready_of
ready_of-IsWhole out client (err e) h = h
ready_of-IsWhole out client (ok u) h = invalidate_failed-IsWhole _ client h

-- What a client's owner may do with it. Of `shutdown`, this is the change to the client.
pub data Call : Type 0 where
  handshake : Outside → Call
  exchange : Outside → Request → Call
  shut_down : Call

abbrev pub after : Call → WorkerClient → WorkerClient
after (handshake out) client = (wait_ready out client).1
after (exchange out req) client = (send out req client).1
after shut_down client = invalidate "worker shut down" client

abbrev pub after_all : List Call → WorkerClient → WorkerClient
after_all [] client = client
after_all (call ∷ calls) client = after_all calls (after call client)

after-IsWhole : (call : Call) (client : WorkerClient) → IsWhole client → IsWhole (after call client)
unfolding wait_ready
after-IsWhole (handshake out) client h = ready_of-IsWhole out client (check_usable client) h
after-IsWhole (exchange out req) client h = send-IsWhole out req client h
after-IsWhole shut_down client h = invalidate-IsWhole _ client

after_all-keeps :
    (calls : List Call) (client : WorkerClient) → IsWhole client → IsWhole (after_all calls client)
after_all-keeps [] client h = h
after_all-keeps (call ∷ calls) client h =
    after_all-keeps calls (after call client) (after-IsWhole call client h)

-- Whatever is done with a spawned client and whatever the worker does, its two pipes are open exactly
-- as long as no fault was recorded.
pub after_all-IsWhole :
    (timeouts : Timeouts) (calls : List Call) → IsWhole (after_all calls (spawned timeouts))
after_all-IsWhole timeouts calls =
    after_all-keeps calls (spawned timeouts) (record { writes = refl; reads = refl })

-- An exchange that leaves nothing to be exchanged: it failed, or was answered by a ready line.
abbrev pub IsLast : Result Response → Type 0
IsLast (ok resp) = resp.status ≡ Status.ready
IsLast (err e) = Unit

abbrev pub IsFailed : Result Response → Type 0
IsFailed (ok resp) = ⊥
IsFailed (err e) = Unit

-- The results of one exchange after the other.
abbrev pub exchange_all : List (Outside × Request) → WorkerClient → List (Result Response)
exchange_all [] client = []
exchange_all ((out, req) ∷ rest) client =
    (send out req client).0 ∷ exchange_all rest (send out req client).1

abbrev IsUnusable : WorkerClient → Type 0
IsUnusable client = is_some client.unusable ≡ true

invalidate-IsUnusable :
    (reason : String) (client : WorkerClient) → IsUnusable (invalidate reason client)
unfolding invalidate
invalidate-IsUnusable reason client = ground arith

send_if-unusable :
    (out : Outside) (req : Request) (client : WorkerClient) (reason : Option String)
    → client.unusable ≡ reason
    → is_some reason ≡ true
    → IsFailed (send_if out req client (usable_by reason)).0
      × IsUnusable (send_if out req client (usable_by reason)).1
unfolding send_if usable_by
send_if-unusable out req client none e h = cc
send_if-unusable out req client (some reason) e h = (tt, ap is_some e)

exchange_all-unusable :
    (later : List (Outside × Request)) (client : WorkerClient)
    → IsUnusable client
    → All IsFailed (exchange_all later client)
unfolding send check_usable
exchange_all-unusable [] client h = tt
exchange_all-unusable ((out, req) ∷ rest) client h =
    let (failed, unusable) = send_if-unusable out req client client.unusable refl h in
    (failed, exchange_all-unusable rest _ unusable)

settle_status-IsLast :
    (status : Status) (resp : Response) (client : WorkerClient)
    → resp.status ≡ status
    → IsLast (settle_status status resp client).0
    → IsUnusable (settle_status status resp client).1
unfolding settle_status
settle_status-IsLast Status.ok resp client e h = cc
settle_status-IsLast Status.error resp client e h = cc
settle_status-IsLast Status.ready resp client e h = invalidate-IsUnusable _ client

settle_client-IsLast :
    (r : Result Response × WorkerClient)
    → IsLast (settle_client r).0
    → IsUnusable (settle_client r).1
unfolding settle_client
settle_client-IsLast (err e, client) h = invalidate-IsUnusable e client
settle_client-IsLast (ok resp, client) h = settle_status-IsLast resp.status resp client refl h

send_if-IsLast :
    (out : Outside) (req : Request) (client : WorkerClient) (reason : Option String)
    → client.unusable ≡ reason
    → IsLast (send_if out req client (usable_by reason)).0
    → IsUnusable (send_if out req client (usable_by reason)).1
unfolding send_if usable_by
send_if-IsLast out req client none e h = settle_client-IsLast (send_request out req client) h
send_if-IsLast out req client (some reason) e h = ap is_some e

send-IsLast :
    (out : Outside) (req : Request) (client : WorkerClient)
    → IsLast (send out req client).0
    → IsUnusable (send out req client).1
unfolding send check_usable
send-IsLast out req client h = send_if-IsLast out req client client.unusable refl h

-- Behind an exchange that failed or was answered by a ready line, every later exchange fails,
-- whatever the worker writes.
pub send_latches :
    (out : Outside) (req : Request) (client : WorkerClient) (later : List (Outside × Request))
    → IsLast (send out req client).0
    → All IsFailed (exchange_all later (send out req client).1)
send_latches out req client later h = exchange_all-unusable later _ (send-IsLast out req client h)
