-- ===== src/Daemon/Options.antt =====
-- rust/src/daemon.rs, `form_options`: what the portal's form offers, asked of a worker of its own.
pub mod Unchanged
use dssp_bot.Prelude.{String, Option, none, some, List, [], unwrap_or, Result, ok, err}
use dssp_bot.Protocol.{FormOption, Response, Status, summary}
use dssp_bot.Protocol.Request
use dssp_bot.Engine.Effects.{Env, Action, pure, ◌>>=◌, ◌>>◌, send, new_id}
use dssp_bot.Daemon.{State, Reply, error, options, acquire, drop_busy}
use dssp_bot.Daemon.Start.{ensure_fault}

-- The instructors and the training types.
abbrev pub Offered : Type 0
Offered = List FormOption × List FormOption

unfoldable pub offered : Result Response → Result Offered
offered (err e) = err e
offered (ok resp) = elim resp.status [
  | Status.ok ↦ ok (unwrap_or resp.instructors [], unwrap_or resp.training_types [])
  | _ ↦ err (summary resp)
]

unfoldable pub option_reply : Result Offered → Reply
option_reply (ok (instructors, types)) = (200, options instructors types)
option_reply (err e) = error 502 e

module _ (env : Env) where
  unfoldable pub list_options : Option String → Action (Result Offered)
  unfolding offered
  list_options (some e) = pure (err e)
  list_options none = do
    id ← new_id env
    reply ← send env (Request.get_form_options id none)
    pure (offered reply)

  -- `made` is what the factory returned.
  unfoldable pub ask_options : Result (Unit {0}) → Action (Result Offered)
  unfolding list_options ensure_fault
  ask_options (err e) = pure (err e)
  ask_options (ok worker) = do
    id ← new_id env
    reply ← send env (Request.ensure_session id)
    list_options (ensure_fault reply)

  -- Behind `acquire`; the lease is dropped behind the worker.
  unfoldable pub leased_options :
      Result (Unit {0}) → Result (Unit {0}) × State → Action (Reply × State)
  unfolding ask_options option_reply
  leased_options made (err e, s) = pure (error 503 e, s)
  leased_options made (ok lease, s) = do
    result ← ask_options made
    pure (option_reply result, drop_busy s)

  unfoldable pub form_options : Result (Unit {0}) → State → Action (Reply × State)
  unfolding leased_options
  form_options made s = leased_options made (acquire s)
