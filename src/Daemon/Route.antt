-- ===== src/Daemon/Route.antt =====
-- rust/src/daemon.rs: `route`, from a request to the endpoint that serves it or the refusal.
pub mod Authorized
use dssp_bot.Prelude.{
  ℕ, Bool, true, false, not, ◌&&◌, ◌||◌, Option, none, some, unwrap_or, List, [], ◌∷◌, ◌++◌, map,
  ◌≡◌, ap, arith, if◌then◌else◌,
}
use dssp_bot.Store.{FilePath}
use dssp_bot.Daemon.{Shared, Reply, error}
use dssp_bot.Daemon.Bytes.{codes, bytes_eq, split_on, trim, to_lower}
use dssp_bot.Daemon.Token.{equal_token, equal_token_iff}
use dssp_bot.Daemon.Http.{Checked, pass, fail, ◌>>◌, guarded, HttpRequest, get, first_line}
use dssp_bot.Daemon.Http.Framing.{passed_guard}
use dssp_bot.Daemon.Control.{apply_control}

pub record Config : Type 0 where
  pub port : ℕ
  pub origins : List (List ℕ)
  pub token : List ℕ
  pub checkpoint : FilePath

-- What answers an admitted request.
pub data Endpoint : Type 0 where
  get_status get_report get_checkpoint get_form_options post_batch : Endpoint
  post_control : Option Bool → Endpoint

abbrev pub is_either : List ℕ → List (List ℕ) → Bool
is_either text [] = false
is_either text (x ∷ xs) = bytes_eq x text || is_either text xs

abbrev pub allowed_origin : List (List ℕ) → Option (List ℕ) → Bool
allowed_origin origins none = true
allowed_origin origins (some origin) = is_either origin origins

abbrev pub is_json : Option (List ℕ) → Bool
is_json none = false
is_json (some text) =
    bytes_eq (map to_lower (trim (first_line (split_on b';' text)))) (codes "application/json")

abbrev pub posts_json : List (List ℕ)
posts_json =
    codes "/batch" ∷ codes "/batch/pause" ∷ codes "/batch/resume" ∷ codes "/batch/stop" ∷ []

abbrev pub needs_json : HttpRequest → Bool
needs_json r = bytes_eq r.method (codes "POST") && is_either r.path posts_json

abbrev pub not_implemented : Checked Endpoint
not_implemented = fail 405 "method/endpoint not implemented"

unfoldable pub get_endpoint : List ℕ → Checked Endpoint
get_endpoint path =
    if bytes_eq path (codes "/status")
    then pass get_status
    else if bytes_eq path (codes "/report")
    then pass get_report
    else if bytes_eq path (codes "/checkpoint")
    then pass get_checkpoint
    else if bytes_eq path (codes "/form-options")
    then pass get_form_options
    else not_implemented

unfoldable pub post_endpoint : List ℕ → Checked Endpoint
post_endpoint path =
    if bytes_eq path (codes "/batch")
    then pass post_batch
    else if bytes_eq path (codes "/batch/pause")
    then pass (post_control (some true))
    else if bytes_eq path (codes "/batch/resume")
    then pass (post_control (some false))
    else if bytes_eq path (codes "/batch/stop")
    then pass (post_control none)
    else not_implemented

unfoldable pub endpoint : List ℕ → List ℕ → Checked Endpoint
unfolding get_endpoint post_endpoint
endpoint method path =
    if bytes_eq method (codes "GET")
    then get_endpoint path
    else if bytes_eq method (codes "POST")
    then post_endpoint path
    else not_implemented

abbrev pub expected_token : Config → List ℕ
expected_token config = codes "Bearer " ++ config.token

unfoldable pub admit : Config → HttpRequest → Checked Endpoint
unfolding endpoint
admit config r = do
  guarded
      (equal_token (unwrap_or (get (codes "authorization") r.headers) []) (expected_token config))
      401 "valid bearer token required"
  guarded (allowed_origin config.origins (get (codes "origin") r.headers)) 403
      "Origin is not allowed"
  guarded (not (needs_json r && not (is_json (get (codes "content-type") r.headers)))) 415
      "Content-Type application/json required"
  endpoint r.method r.path

-- A command's body must be `{}`; serde tells whether it is.
unfoldable pub answer_control :
    (List ℕ → Bool) → HttpRequest → Option Bool → Shared → Reply × Shared
answer_control is_empty_object r pause w =
    if is_empty_object r.body
    then apply_control pause w
    else (error 422 "control body must be JSON {}", w)
