-- ===== src/Tests/Commands.antt =====
-- The command line at concrete inputs.
use dssp_bot.Prelude.{String, ◌≡◌, refl, none, some, false, List, [], ◌∷◌, All, inr, ℕ, ok}
use dssp_bot.Protocol.{TraineeRef, TraineeInfo}
use dssp_bot.Command
use dssp_bot.Command.{resolve_against, batch_exit_code}
use dssp_bot.State
use dssp_bot.Checkpoint
use dssp_bot.Recovery
use dssp_bot.Recovery.{tracked}
use dssp_bot.Decision
use dssp_bot.Command.Single
use dssp_bot.Engine.Effects
use dssp_bot.Engine.Effects.{World, Ending, done}
use dssp_bot.Command.Single.{Answer, run_single}
use dssp_bot.Command.Single.Settled.{IsSettled, run_single-IsSettled}
use dssp_bot.Command.Batch.{run_batch}
use dssp_bot.Command.Resolution.{Distinct, IsQueued, resolve_against-covers}
use dssp_bot.Command.Names.{ids_of}
use dssp_bot.Command.Asked.{IsAsked}
use dssp_bot.Tests.Batches.{by_id, calm, session}
use dssp_bot.Tests.Records.{killed}

abbrev info : String → String → TraineeInfo
info id name = record { id = id; name = name; sn = ""; course = ""; training_sessions = "" }

abbrev portal : List TraineeInfo
portal = info "123" "JOHN DOE" ∷ info "456" "JANE ROE" ∷ []

-- One trainee by the id and again by the name, and another.
abbrev wanted : List TraineeRef
wanted = by_id "123" ∷ record { id = none; name = some "JOHN DOE" } ∷ by_id "456" ∷ []

resolve_against-covers_example :
    Distinct (ids_of (by_id "123" ∷ by_id "456" ∷ []))
    × All (IsQueued (λ s. s) portal (by_id "123" ∷ by_id "456" ∷ [])) wanted
    × All (IsAsked (λ s. s) portal wanted) (ids_of (by_id "123" ∷ by_id "456" ∷ []))
unfolding resolve_against Command.resolve_from Command.add Command.enlist Command.problem
    Command.roster_or Command.find Command.lookup_id
resolve_against-covers_example =
    resolve_against-covers (λ s. s) portal wanted (by_id "123" ∷ by_id "456" ∷ []) refl

unknown_name :
    resolve_against (λ s. s) portal (record { id = none; name = some "NOBODY" } ∷ [])
    ≡ inr ("NOBODY: no trainee with that name on the portal" ∷ [])
unfolding resolve_against Command.resolve_from Command.add Command.enlist Command.problem
    Command.roster_or Command.find Command.lookup_id
unknown_name = refl

-- A worker that confirms the submission.
abbrev blank : World
blank = record { trace = []; machine = State.new; carried = [] }

single_confirmed :
    (run_single calm session (by_id "1") (ok tt) blank).0
    ≡ done (some "RESULT: confirmed (ref REF)", 0)
unfolding run_single Effects.◌>>=◌ Effects.new_id Effects.exchange Effects.send Effects.pure
    Single.ensured Single.submit_single Single.single_loop Decision.decide_submit
single_confirmed = refl

run_single-IsSettled_example :
    let (r, w) = run_single calm session (by_id "1") (ok tt) blank in
    (answer : Answer) × (r ≡ done answer) × IsSettled calm.debug answer w.trace
run_single-IsSettled_example = run_single-IsSettled calm session (by_id "1") (ok tt) State.new

-- A plain start over a file with a trainee in flight: the file is marked, and no worker is asked.
abbrev gated : Ending ℕ × World
gated =
    run_batch calm session 3 (λ s. s) (ok tt) "dssp.checkpoint.json" false
      (ok (some (tracked killed))) wanted blank
