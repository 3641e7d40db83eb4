-- ===== src/Daemon/Options/Unchanged.antt =====
-- rust/src/daemon.rs: what asking for the form's options does to the bridge and to the portal.
use mathlib.Core.Path.{subst}
use dssp_bot.Prelude.{
  String, Bool, true, false, Option, none, some, List, [], ◌∷◌, ◌++◌, ◌≡◌, refl, sym, ap, ◌∙◌,
  append_assoc, ◌⊎◌, inl, inr, Result, ok, err, All, arith, if◌then◌else◌,
}
use dssp_bot.Daemon.{State, Shared, Reply, error, acquire, drop_busy, clear_control, is_unfinished}
use dssp_bot.Daemon.System.{System, Lease, Reach, initial}
use dssp_bot.Daemon.System.Sound.{Sound, Reach-Sound}
use dssp_bot.Daemon.Options.{
  Offered, offered, option_reply, list_options, ask_options, leased_options, form_options,
}
use dssp_bot.Protocol.{Op}
use dssp_bot.Protocol.Request
use dssp_bot.Daemon.Start.{ensure_fault}
use dssp_bot.Engine.Effects.{
  Env, Event, Trace, sent, drew_id, World, Ending, done, failed, blocked, panicked, out_of_fuel,
  continue, ◌>>=◌, pure, send, new_id, exchange,
}

-- A lease that is taken and dropped where there was none leaves the state as it was.
lease_restores :
    (s : State)
    → s.busy ≡ false
    → s.control ≡ none
    → is_unfinished s.progress.state ≡ false
    → s.progress.pause_requested ≡ false
    → drop_busy (acquire s).1 ≡ s
unfolding drop_busy clear_control acquire
lease_restores s idle free over unpaused = ground arith

-- A question to the worker, for its session or for the options, and the identifier that it carries.
abbrev pub IsQuestion : Event → Type 0
IsQuestion (sent req reply) = (req.op ≡ Op.ensure_session) ⊎ (req.op ≡ Op.get_form_options)
IsQuestion (drew_id id) = Unit
IsQuestion _ = ⊥

-- What a request for the options did: questions at most.
abbrev pub Asks : World → World → Type 0
Asks w w' = (asked : Trace) × (w'.trace ≡ asked ++ w.trace) × All IsQuestion asked

abbrev Asked : World → Ending (Result Offered) × World → Type 0
Asked w (r, w') = (result : Result Offered) × (r ≡ done result) × Asks w w'

list_options-Asked :
    (env : Env) (fault : Option String) (w : World) → Asked w (list_options env fault w)
unfolding list_options pure new_id send exchange ◌>>=◌
list_options-Asked env (some e) w = (err e, refl, ([], refl, tt))
list_options-Asked env none w =
    let id = env.fresh_id w.trace in
    let req = Request.get_form_options id none in
    let reply = env.send (drew_id id ∷ w.trace) req in
    (offered reply, refl, (sent req reply ∷ drew_id id ∷ [], refl, (inr refl, (tt, tt))))

-- What was asked behind other questions.
Asked-after :
    (w w' : World) (asked : Trace) (r : Ending (Result Offered) × World)
    → w'.trace ≡ asked ++ w.trace
    → All IsQuestion asked
    → Asked w' r
    → Asked w r
Asked-after w w' asked (r, w'') e q (result, done_with, (more, e', q')) = (
  result,
  done_with,
  (
    more ++ asked,
    e' ∙ ap (λ t. more ++ t) e ∙ sym (append_assoc more asked w.trace),
    All-append more asked q' q,
  ),
)
  where
    All-append : (xs ys : Trace) → All IsQuestion xs → All IsQuestion ys → All IsQuestion (xs ++ ys)
    All-append [] ys h k = k
    All-append (x ∷ xs) ys (h, hs) k = (h, All-append xs ys hs k)

ask_options-Asked :
    (env : Env) (made : Result (Unit {0})) (w : World) → Asked w (ask_options env made w)
unfolding ask_options pure new_id send exchange ◌>>=◌
ask_options-Asked env (err e) w = (err e, refl, ([], refl, tt))
ask_options-Asked env (ok worker) w =
    let id = env.fresh_id w.trace in
    let req = Request.ensure_session id in
    let reply = env.send (drew_id id ∷ w.trace) req in
    let w' = record w { trace = sent req reply ∷ drew_id id ∷ w.trace } in
    Asked-after w w' (sent req reply ∷ drew_id id ∷ []) (list_options env (ensure_fault reply) w')
      refl (inl refl, (tt, tt)) (list_options-Asked env (ensure_fault reply) w')

option_code :
    (result : Result Offered) → ((option_reply result).0 ≡ 200) ⊎ ((option_reply result).0 ≡ 502)
unfolding option_reply
option_code (ok (instructors, types)) = inl refl
option_code (err e) = inr refl

-- What a request for the options is answered, where the bridge's worker is held, and where it is not.
abbrev pub Answered : Bool → State → World → Ending (Reply × State) × World → Type 0
Answered held s w (r, w') =
    (reply : Reply) × (r ≡ done (reply, s))
    × (if held then (reply.0 ≡ 503) × (w' ≡ w) else ((reply.0 ≡ 200) ⊎ (reply.0 ≡ 502)) × Asks w w')

acquire-held :
    (s : State)
    → s.busy ≡ true
    → acquire s ≡ (err "a batch or form-options worker is already running", s)
unfolding acquire
acquire-held s e = ground (arith, e)

acquire-free : (s : State) → s.busy ≡ false → acquire s ≡ (ok tt, (acquire s).1)
unfolding acquire
acquire-free s e = ground (arith, e)

refused_options :
    (env : Env) (made : Result (Unit {0})) (s : State) (w : World)
    → s.busy ≡ true
    → Answered true s w (form_options env made s w)
unfolding form_options leased_options pure
refused_options env made s w e =
    rw (acquire-held s e)
      (error 503 "a batch or form-options worker is already running", refl, (refl, refl))

worker_reply :
    (s : State) (w : World) (r : Ending (Result Offered)) (w' : World)
    → Asked w (r, w')
    → Answered false s w (continue r (λ result. pure (option_reply result, s)) w')
unfolding pure
worker_reply s w (done x) w' (result, e, asks) = (option_reply x, refl, (option_code x, asks))
worker_reply s w (failed m) w' (result, e, asks) = cc
worker_reply s w blocked w' (result, e, asks) = cc
worker_reply s w panicked w' (result, e, asks) = cc
worker_reply s w out_of_fuel w' (result, e, asks) = cc

free_options :
    (env : Env) (made : Result (Unit {0})) (s : State) (w : World)
    → s.busy ≡ false
    → drop_busy (acquire s).1 ≡ s
    → Answered false s w (form_options env made s w)
unfolding form_options leased_options ◌>>=◌
free_options env made s w e same =
    let (r, w') = ask_options env made w in
    subst (λ l. Answered false s w (leased_options env made l w)) (sym (acquire-free s e))
      (subst
        (λ x. Answered false s w (
          continue (ask_options env made w).0 (λ result. pure (option_reply result, x))
            (ask_options env made w).1))
        (sym same)
        (worker_reply s w (ask_options env made w).0 (ask_options env made w).1
          (ask_options-Asked env made w)))

-- Whenever the form's options are asked for, and no other thread steps meanwhile, the bridge's state is
-- left as it was, whatever the worker answers. Where the bridge is busy the answer is 503 and the
-- worker is asked nothing, and else it is 200 or 502, and the worker was sent nothing but requests for
-- its session and for the options.
pub form_options_unchanged :
    (env : Env) (made : Result (Unit {0})) (s : System) (w : World)
    → Reach initial s
    → Answered s.shared.state.busy s.shared.state w (form_options env made s.shared.state w)
form_options_unchanged env made s w r = by_leases s.shared s.leases (Reach-Sound s r)
  where
    by_leases :
        (x : Shared) (ls : List Lease)
        → Sound x ls
        → Answered x.state.busy x.state w (form_options env made x.state w)
    by_leases x [] (idle, free, over, unpaused) =
        subst (λ b. Answered b x.state w (form_options env made x.state w)) (sym idle)
          (free_options env made x.state w idle (lease_restores x.state idle free over unpaused))
    by_leases x (l ∷ []) (busy, held) =
        subst (λ b. Answered b x.state w (form_options env made x.state w)) (sym busy)
          (refused_options env made x.state w busy)
    by_leases x (l ∷ m ∷ ls) h = elim h [ ]
