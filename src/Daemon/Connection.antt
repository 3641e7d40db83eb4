-- ===== src/Daemon/Connection.antt =====
-- rust/src/daemon.rs, `connection` and the whole of `route`: from the bytes that arrive on a connection to
-- those that answer them.
pub mod Guarded
pub mod Head
pub mod Printed
use dssp_bot.Prelude.{
  format, [], ◌∷◌, ℕ, String, Bool, Option, List, ◌++◌, length, Result, ok, err, ◌==◌, decimal,
  if◌then◌else◌,
}
use dssp_bot.Checkpoint.{BatchCheckpoint}
use dssp_bot.Recovery.{StoredCheckpoint, guard}
use dssp_bot.Store.{show_path, without_provenance}
use dssp_bot.Engine.Effects.{Env, Action, pure, ◌>>=◌}
use dssp_bot.Daemon.Start.{BatchRequest}
use dssp_bot.Daemon.Options.{form_options}
use dssp_bot.Daemon.Spawn.{start}
use dssp_bot.Daemon.{State, Shared, Body, Reply, error, status, batch_report, batch_checkpoint}
use dssp_bot.Daemon.Bytes.{codes}
use dssp_bot.Daemon.Http.{Checked, pass, fail, Stream, HttpRequest, read_request}
use dssp_bot.Daemon.Route.{
  Config, Endpoint, get_status, get_report, get_checkpoint, get_form_options, post_batch,
  post_control, admit, answer_control,
}

-- What a request meets: serde, by whether a body is `{}`, the batch that a body asks for, and the JSON
-- text of a reply's body, its keys in camel case; what the store's file holds; the worker and what the
-- factory returns; what the system does of a batch's thread; and the standard library's tests on texts.
pub record Meets : Type 0 where
  pub is_empty_object : List ℕ → Bool
  pub batch_of : List ℕ → Result BatchRequest
  pub to_vec : Body → List ℕ
  pub stored : Result (Option StoredCheckpoint)
  pub env : Env
  pub made : Result (Unit {0})
  pub spawned : Result (Unit {0})
  pub is_blank : String → Bool
  pub normalize : String → String

abbrev pub checkpoint_reply : Result (Option BatchCheckpoint) → Reply
checkpoint_reply (ok cp) = (200, batch_checkpoint cp)
checkpoint_reply (err e) = error 500 e

unfoldable pub reason : ℕ → String
reason code =
    if code == 200
    then "OK"
    else if code == 202
    then "Accepted"
    else if code == 400
    then "Bad Request"
    else if code == 401
    then "Unauthorized"
    else if code == 403
    then "Forbidden"
    else if code == 405
    then "Method Not Allowed"
    else if code == 408
    then "Request Timeout"
    else if code == 409
    then "Conflict"
    else if code == 413
    then "Payload Too Large"
    else if code == 415
    then "Unsupported Media Type"
    else if code == 422
    then "Unprocessable Content"
    else if code == 503
    then "Service Unavailable"
    else "Server Error"

-- The head of a reply whose body has this length.
unfoldable pub reply_head : ℕ → ℕ → List ℕ
unfolding reason
reply_head code size =
    codes "HTTP/1.1 "
    ++ (codes (decimal code)
        ++ (codes " "
            ++ (codes (reason code)
                ++ (codes "\r\nContent-Type: application/json\r\nContent-Length: "
                    ++ (codes (decimal size)
                        ++ codes "\r\nConnection: close\r\nCache-Control: no-store\r\n\r\n")))))

module _ (meets : Meets) where
  abbrev pub start_requested : Config → Result BatchRequest → Shared → Action (Reply × Shared)
  start_requested config (err e) w = pure (error 422 (format ("invalid batch: " ∷ e ∷ [])), w)
  start_requested config (ok req) w = do
    out ←
        start meets.is_blank meets.normalize meets.env meets.made meets.spawned
          (guard (show_path config.checkpoint) req.resume meets.stored) req w
    pure (out.reply, out.shared)

  -- Every arm of `route`'s last `match`.
  unfoldable pub serve : Config → Endpoint → HttpRequest → Shared → Action (Reply × Shared)
  serve config get_status r w = pure ((200, status w.state.progress), w)
  serve config get_report r w = pure ((200, batch_report w.state.report), w)
  serve config get_checkpoint r w = pure (checkpoint_reply (without_provenance meets.stored), w)
  serve config get_form_options r w = do
    (reply, s) ← form_options meets.env meets.made w.state
    pure (reply, record w { state = s })
  serve config post_batch r w = start_requested config (meets.batch_of r.body) w
  serve config (post_control pause) r w = pure (answer_control meets.is_empty_object r pause w)

  abbrev pub serve_admitted :
      Config → Checked Endpoint → HttpRequest → Shared → Action (Reply × Shared)
  serve_admitted config (pass target) r w = serve config target r w
  serve_admitted config (fail code text) r w = pure (error code text, w)

  unfoldable pub route : Config → HttpRequest → Shared → Action (Reply × Shared)
  unfolding serve
  route config r w = serve_admitted config (admit config r) r w

  abbrev pub reply_to : Config → Checked (HttpRequest × Stream) → Shared → Action (Reply × Shared)
  reply_to config (pass (r, rest)) w = route config r w
  reply_to config (fail code text) w = pure (error code text, w)

  -- The bytes that are written for a reply.
  unfoldable pub response : Reply → List ℕ
  unfolding reply_head
  response (code, body) = let text = meets.to_vec body in reply_head code (length text) ++ text

  unfoldable pub connection : Config → Stream → Shared → Action (List ℕ × Shared)
  unfolding route response
  connection config s w = do
    (reply, w') ← reply_to config (read_request s) w
    pure (response reply, w')
