-- ===== src/Tests/Bridges.antt =====
-- The bridge's settings, its token and its smaller requests at concrete inputs.
use dssp_bot.Prelude.{
  ℕ, zero, suc, String, ◌≡◌, refl, true, false, none, List, [], ◌∷◌, ◌+◌, ◌<◌, ok, str_eq,
  if◌then◌else◌, arith,
}
use dssp_bot.Daemon.Bytes.{codes, all_bytes}
use dssp_bot.Daemon.Http
use dssp_bot.Daemon.Http.{pass, fail, HttpRequest}
use dssp_bot.Daemon.Route.{Config, admit, post_control}
use dssp_bot.Daemon.TokenFile.{Calls, token_file, hex, private_mode}
use dssp_bot.Daemon.TokenFile.Private.{Names, token_file-IsPrivate}
use dssp_bot.Daemon.TokenFile.Minted.{unhex, granted, token_file_reads_back}
use dssp_bot.Daemon.Settings.{environment, valid_origin}
use dssp_bot.Daemon.Settings.Valid.{IsExtension, only_extensions}
use dssp_bot.Worker.Settings.{Variable, not_present, present}
use dssp_bot.Daemon.Bytes
use dssp_bot.Daemon.Token
use dssp_bot.Daemon.Control
use dssp_bot.Daemon
use dssp_bot.State
use dssp_bot.Store
use dssp_bot.Decision.{default_policy}
use dssp_bot.Engine.Effects.{Env, Event, Trace, World}
use dssp_bot.Engine.Safety.Runs.{outcome}
use dssp_bot.Engine.Termination.Runs.{EndsAs}
use dssp_bot.Tests.Batches.{calm, session, roster}
use dssp_bot.Tests.Daemons.{signed_request, launched, stopping}
use dssp_bot.Daemon.System.{System, Reach, start, later, commands, initial}
use dssp_bot.Daemon.System.Batch.{Serves, bridge_run-EndsAs}
use dssp_bot.Daemon.Options.{form_options}
use dssp_bot.Daemon.Options.Unchanged.{Answered, form_options_unchanged}

abbrev repeat : ℕ → ℕ → List ℕ
repeat zero b = []
repeat (suc n) b = b ∷ repeat n b

-- A start over an empty path, with bytes of 0xab.
abbrev minting : Calls
minting = granted (repeat 32 0xab) (32768 + private_mode) 1000

token_file-IsPrivate_example : Names minting (hex (repeat 32 0xab)) (token_file minting "t" none).1
token_file-IsPrivate_example =
    token_file-IsPrivate minting "t" none (hex (repeat 32 0xab))
      (token_file_reads_back "t" "t" (repeat 32 0xab) (repeat 32 0) (32768 + private_mode)
        private_mode 1000 refl (omega arith) refl).0

token_file_reads_back_example :
    let (token, slot) = token_file minting "t" none in
    (token ≡ ok (hex (repeat 32 0xab)))
    × (unhex (hex (repeat 32 0xab)) ≡ repeat 32 0xab)
    × (token_file (granted (repeat 32 0) private_mode 1000) "t" slot ≡ (token, slot))
token_file_reads_back_example =
    token_file_reads_back "t" "t" (repeat 32 0xab) (repeat 32 0) (32768 + private_mode) private_mode
      1000 refl (omega arith) refl

abbrev settings : String → Variable
settings name =
    if str_eq name "DSSP_DAEMON_ORIGINS"
    then present (codes "chrome-extension://abc,moz-extension://d-1")
    else not_present

abbrev config : Config
config = record {
  port = 8765;
  origins = codes "chrome-extension://abc" ∷ codes "moz-extension://d-1" ∷ [];
  token = codes "a1";
  checkpoint = record { dir = ""; name = "dssp.checkpoint.json" };
}

configured : environment settings (ok (codes "a1")) none ≡ ok config
unfolding environment Store.resolve_path Bytes.split_on Bytes.from_digits
configured = refl

page_refused : valid_origin (codes "https://evil.example") ≡ false
unfolding valid_origin
page_refused = refl

path_refused : valid_origin (codes "chrome-extension://abc/page") ≡ false
unfolding valid_origin
path_refused = refl

only_extensions_example : IsExtension (codes "chrome-extension://abc")
unfolding admit Token.equal_token Http.get Bytes.split_on Bytes.trim
only_extensions_example =
    only_extensions settings (ok (codes "a1")) none config signed_request (post_control none)
      (codes "chrome-extension://abc") configured refl refl

-- A batch that another thread stops behind its first event.
abbrev during : Trace → System
during [] = launched
during (e ∷ t) = stopping

abbrev stopped_batch : Env
stopped_batch = record calm {
  controlled = true;
  stop_requested = λ t. ((during t).shared.controls 0).stop_requested;
}

stopped_batch-Serves : Serves stopped_batch 0 during
unfolding Daemon.launch Control.control_captured
stopped_batch-Serves = record { held = held; steps = steps; sees = λ t. refl }
  where
    held : (t : Trace) → 0 < (during t).shared.allocated
    held [] = omega arith
    held (e ∷ t) = omega arith

    steps : (e : Event) (t : Trace) → Reach (during t) (during (e ∷ t))
    steps e [] = later start (commands 0 none)
    steps e (f ∷ t) = start

bridge_run-EndsAs_example :
    EndsAs stopped_batch (outcome stopped_batch default_policy session 3 roster []).0
bridge_run-EndsAs_example =
    bridge_run-EndsAs stopped_batch default_policy session 3 roster [] 0 during stopped_batch-Serves

-- Asked of an idle bridge.
abbrev fresh_world : World
fresh_world = record { trace = []; machine = State.new; carried = [] }

form_options_unchanged_example :
    Answered false initial.shared.state fresh_world
      (form_options calm (ok tt) initial.shared.state fresh_world)
form_options_unchanged_example = form_options_unchanged calm (ok tt) initial fresh_world start
