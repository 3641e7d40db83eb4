-- ===== src/Daemon/Spawn/Refines.antt =====
-- rust/src/daemon.rs: `start` as steps of the bridge's threads.
use mathlib.Core.Path.{subst}
use dssp_bot.Prelude.{
  ap, ℕ, String, Bool, Option, none, some, List, [], ◌∷◌, length, Result, ok, err, ◌≡◌, ◌≢◌, refl,
}
use dssp_bot.Protocol.{TraineeRef}
use dssp_bot.Protocol.Request
use dssp_bot.Report.{TrainingResult}
use dssp_bot.Recovery.{Start, StoredCheckpoint, guard}
use dssp_bot.Engine.Effects.{
  Env, World, Action, Ending, done, failed, blocked, out_of_fuel, continue, pure, panicked, ◌>>=◌,
  new_id, send, exchange, write,
}
use dssp_bot.Daemon.{State, Shared, acquire, initialize, publish_carried, launch}
use dssp_bot.Daemon.Http.{Checked, pass, fail}
use dssp_bot.Daemon.Start.{
  BatchRequest, Admission, refused, closes, admitted, panics, admit_batch, ask_worker, list_roster,
  ensure_fault,
}
use dssp_bot.Daemon.Start.Admitted.{admit_batch-safe}
use dssp_bot.Command.Batch.{save_all}
use dssp_bot.Checkpoint.{BatchCheckpoint}
use dssp_bot.Daemon.System
use dssp_bot.Daemon.System.{
  System, Reach, Step, Lease, later, acquires, moves, refuses, carries_over, initializes, gives_up,
  launches, drops_control, leaves, on_state, running,
}
use dssp_bot.Daemon.Spawn.{
  Batch, Started, spawn, spawn_resolved, start_admitted, leased_start, start,
}

-- A batch's thread holds the worker, with the controller of this address.
abbrev pub leases_of : Option Batch → ℕ → List Lease → List Lease
leases_of none id ls = ls
leases_of (some batch) id ls = running id ∷ ls

abbrev pub after : Started → ℕ → List Lease → System
after out id ls = record { shared = out.shared; leases = leases_of out.batch id ls }

module _ {A : Type 0} where
  -- An action that comes back, with a value of this kind.
  abbrev pub Returns : (A → Type 0) → Ending A × World → Type 0
  Returns P (done a, w) = P a
  Returns P _ = ⊥

  pure-Returns : (P : A → Type 0) (a : A) (w : World) → P a → Returns P (pure a w)
  unfolding pure
  pure-Returns P a w h = h

module _ {A B : Type 0} (P : A → Type 0) (Q : B → Type 0) where
  continue-Returns :
      (r : Ending A) (w : World) (f : A → Action B)
      → Returns P (r, w)
      → ((a : A) (w' : World) → P a → Returns Q (f a w'))
      → Returns Q (continue r f w)
  continue-Returns (done a) w f h k = k a w h
  continue-Returns (failed e) w f h k = absurd h
  continue-Returns blocked w f h k = absurd h
  continue-Returns panicked w f h k = absurd h
  continue-Returns out_of_fuel w f h k = absurd h

  bind-Returns :
      (m : Action A) (f : A → Action B) (w : World)
      → Returns P (m w)
      → ((a : A) (w' : World) → P a → Returns Q (f a w'))
      → Returns Q ((m >>= f) w)
  unfolding ◌>>=◌
  bind-Returns m f w h k = let (r, w') = m w in continue-Returns (m w).0 (m w).1 f h k

abbrev Any : {A : Type 0} → A → Type 0
Any a = Unit

module _ (normalize : String → String) (env : Env) (wanted : List TraineeRef) where
  new_id-Returns : (w : World) → Returns Any (new_id env w)
  unfolding new_id exchange
  new_id-Returns w = tt

  send-Returns : (req : Request.Request) (w : World) → Returns Any (send env req w)
  unfolding send exchange
  send-Returns req w = tt

  list_roster-Returns :
      (e : Option String) (w : World) → Returns Any (list_roster normalize env wanted e w)
  unfolding list_roster
  list_roster-Returns (some e) w = pure-Returns Any _ w tt
  list_roster-Returns none w = bind-Returns Any Any (new_id env) _ w (new_id-Returns w) (λ id w h.
      bind-Returns Any Any (send env (Request.list_trainees id)) _ w (send-Returns _ w)
        (λ r w h. pure-Returns Any _ w tt))

  ask_worker-Returns :
      (made : Result (Unit {0})) (w : World) → Returns Any (ask_worker normalize env wanted made w)
  unfolding ask_worker
  ask_worker-Returns (err e) w = pure-Returns Any _ w tt
  ask_worker-Returns (ok u) w = bind-Returns Any Any (new_id env) _ w (new_id-Returns w) (λ id w h.
      bind-Returns Any Any (send env (Request.ensure_session id)) _ w (send-Returns _ w)
        (λ r w h. list_roster-Returns (ensure_fault r) w))

save_all-Returns :
    (env : Env) (saves : List BatchCheckpoint) (w : World) → Returns Any (save_all env saves w)
unfolding save_all
save_all-Returns env [] w = pure-Returns Any _ w tt
save_all-Returns env (c ∷ cs) w =
    bind-Returns Any Any (write env c) _ w (unfold write exchange in tt)
      (λ r w' h. save_all-Returns env cs w')

module _ (s : System) (w : Shared) (ls : List Lease) where
  -- From `s` the steps lead to a request that stands here; or to the end of `start`.
  abbrev Stands : Lease → Shared → Type 0
  Stands l w' = Reach s (record { shared = w'; leases = l ∷ ls })

  abbrev Ends : Started → Type 0
  Ends out = Reach s (after out w.allocated ls)

  spawn-Ends :
      (spawned : Result (Unit {0})) (id : String) (batch : Batch)
      → Stands System.initialized w
      → Ends (spawn spawned id batch w)
  unfolding spawn launch
  spawn-Ends (ok u) id batch h = later h (moves [] ls refl launches)
  spawn-Ends (err e) id batch h =
      later (later (later h (moves [] ls refl launches)) (moves [] ls refl drops_control))
        (moves [] ls refl leaves)

  spawn_resolved-Ends :
      (spawned : Result (Unit {0})) (id : String) (carried : List TrainingResult) (owed : ℕ)
      → (resolved : Checked (List TraineeRef)) → Stands System.initialized w
      → Ends (spawn_resolved spawned id carried owed w resolved)
  unfolding spawn_resolved
  spawn_resolved-Ends spawned id carried owed (pass roster) h =
      spawn-Ends spawned id (roster, carried, owed) h
  spawn_resolved-Ends spawned id carried owed (fail code text) h =
      later h (moves [] ls refl gives_up)

module _ (is_blank : String → Bool) (normalize : String → String) (env : Env)
    (made spawned : Result (Unit {0})) (s : System) where
  start_admitted-Ends :
      (a : Admission) (w : Shared) (ls : List Lease) (world : World)
      → a ≢ panics
      → Stands s w ls System.admitted w
      → Returns (Ends s w ls) (start_admitted is_blank normalize env made spawned a w world)
  unfolding start_admitted initialize publish_carried
  start_admitted-Ends (refused code text) w ls world safe h =
      pure-Returns (Ends s w ls) _ world (later h (moves [] ls refl refuses))
  start_admitted-Ends panics w ls world safe h = absurd (safe refl)
  start_admitted-Ends (closes report owed) w ls world safe h =
      bind-Returns Any (Ends s w ls) (new_id env) _ world (new_id-Returns normalize env [] world)
        (λ id world' u. pure-Returns (Ends s w ls) _ world' (
          later (later h (moves [] ls refl (carries_over report owed))) (moves [] ls refl refuses)))
  start_admitted-Ends (admitted wanted carried owed) w ls world safe h =
      bind-Returns Any (Ends s w ls) (new_id env) _ world (new_id-Returns normalize env [] world)
        (λ id world' u.
          bind-Returns Any (Ends s w ls) (ask_worker normalize env wanted made) _ world'
            (ask_worker-Returns normalize env wanted made world')
            (λ resolved world'' u. pure-Returns (Ends s w ls) _ world'' (
              spawn_resolved-Ends s (on_state (initialize (length wanted) carried) w) ls spawned id
                carried owed resolved
                (later h (moves [] ls refl (initializes (length wanted) carried))))))

  leased_start-Ends :
      (answer : Result Start) (saves : List BatchCheckpoint) (req : BatchRequest) (world : World)
      → admit_batch is_blank req answer ≢ panics
      → (lease : Result (Unit {0})) (st : State) → acquire s.shared.state ≡ (lease, st)
      → Returns (Ends s s.shared s.leases) (
          leased_start is_blank normalize env made spawned
            (answer, saves)
            req
            s.shared
            (lease, st)
            world)
  unfolding leased_start
  leased_start-Ends answer saves req world safe (err e) st same =
      pure-Returns (Ends s s.shared s.leases) _ world System.start
  leased_start-Ends answer saves req world safe (ok u) st same =
      bind-Returns Any (Ends s s.shared s.leases) (save_all env saves) _ world
        (save_all-Returns env saves world)
        (λ u world' h.
          start_admitted-Ends (admit_batch is_blank req answer) (record s.shared { state = st })
            s.leases world' safe
            (subst (λ x. Stands s s.shared s.leases System.admitted (record s.shared { state = x }))
              (ap (λ p. p.1) same) (later System.start (acquires (ap (λ p. p.0) same)))))

  -- Whatever the store holds, the worker answers, and the system does of the thread: `start` comes
  -- back, without a panic, and where no other thread steps meanwhile it is a sequence of steps of the
  -- bridge's threads. Behind it the threads hold what they held before, and where it spawned a batch
  -- also the worker, with a controller of its own.
  pub start-Reach :
      (path : String) (loaded : Result (Option StoredCheckpoint)) (req : BatchRequest)
      (world : World)
      → Returns
          (λ out. Reach s (after out s.shared.allocated s.leases))
          (start is_blank normalize env made spawned
            (guard path req.resume loaded)
            req
            s.shared
            world)
  unfolding start
  start-Reach path loaded req world =
      leased_start-Ends (guard path req.resume loaded).0 (guard path req.resume loaded).1 req world
        (admit_batch-safe is_blank path loaded req) (acquire s.shared.state).0
        (acquire s.shared.state).1 refl
