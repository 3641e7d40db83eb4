-- ===== src/Daemon/System/Sound.antt =====
-- rust/src/daemon.rs: one holder of the worker at a time, and what the shared state says of it.
use mathlib.Core.Path.{subst}
use dssp_bot.Prelude.{
  ℕ, ◌<◌, ◌==◌, String, Bool, true, false, ◌&&◌, Option, none, some, List, [], ◌∷◌, ◌≡◌, ◌≢◌, refl,
  sym, ◌∙◌, ap, ◌⊎◌, inl, inr, Result, ok, err, arith, append-nil,
}
use dssp_bot.Daemon.{
  Phase, BatchControl, BatchProgress, State, Shared, acquire, is_unfinished, clear_control, write,
  write_saved, set_control, drop_busy, drop_control,
}
use dssp_bot.Checkpoint.{BatchCheckpoint}
use dssp_bot.Daemon
use dssp_bot.Daemon.Control.{is_current, is_pause, commanded, control_captured, requested, shown}
use dssp_bot.Daemon.System.{
  Lease, admitted, initialized, torn_down, running, Move, refuses, carries_over, initializes,
  gives_up, launches, writes, closes, finishes, fails, drops_control, leaves, acquires, moves,
  commands, start, later, System, Step, Reach, initial, on_state, close,
}

-- The status shows the controller's flags.
abbrev pub Agrees : BatchProgress → BatchControl → Type 0
Agrees p c = (p.pause_requested ≡ c.pause_requested) × (p.stop_requested ≡ c.stop_requested)

-- What the state says where a holder stands.
abbrev pub Holds : Shared → Lease → Type 0
Holds w admitted = w.state.control ≡ none
Holds w initialized =
    (w.state.control ≡ none)
    × (w.state.progress.pause_requested ≡ false)
    × (w.state.progress.stop_requested ≡ false)
Holds w torn_down = w.state.control ≡ none
Holds w (running id) =
    (id < w.allocated)
    × ((w.state.control ≡ none)
        ⊎ ((w.state.control ≡ some id) × Agrees w.state.progress (w.controls id)))

abbrev pub Sound : Shared → List Lease → Type 0
Sound w [] =
    (w.state.busy ≡ false)
    × (w.state.control ≡ none)
    × (is_unfinished w.state.progress.state ≡ false)
    × (w.state.progress.pause_requested ≡ false)
Sound w (l ∷ []) = (w.state.busy ≡ true) × Holds w l
Sound w (l ∷ m ∷ ls) = ⊥

clear_control-over : (s : State) → is_unfinished (clear_control s).progress.state ≡ false
unfolding clear_control is_unfinished
clear_control-over s = ground arith

clear_control-unpaused : (s : State) → (clear_control s).progress.pause_requested ≡ false
unfolding clear_control
clear_control-unpaused s = ground arith

drop_busy-Sound : (w : Shared) → Sound (on_state drop_busy w) []
unfolding drop_busy
drop_busy-Sound w =
    (refl, unfold clear_control in refl, clear_control-over w.state, clear_control-unpaused w.state)

-- A write keeps the flags, or ends the control.
write_saved-flags :
    (names : List (String × String)) (cp : BatchCheckpoint) (s : State)
    → let s' = write_saved names cp s in
      (s'.control ≡ none)
      ⊎ ((s'.control ≡ s.control)
          × (s'.progress.pause_requested ≡ s.progress.pause_requested)
          × (s'.progress.stop_requested ≡ s.progress.stop_requested))
unfolding write_saved Daemon.progress
write_saved-flags names cp s = ground arith

write-Holds :
    (names : List (String × String)) (cp : BatchCheckpoint) (saved : Result (Unit {0})) (w : Shared)
    (id : ℕ)
    → Holds w (running id)
    → Holds (on_state (λ s. (write names cp saved s).1) w) (running id)
unfolding write
write-Holds names cp (err e) w id h = h
write-Holds names cp (ok u) w id (a, held) = (a, kept (write_saved-flags names cp w.state) held)
  where
    kept :
        let s' = write_saved names cp w.state in
        (s'.control ≡ none)
          ⊎ ((s'.control ≡ w.state.control)
              × (s'.progress.pause_requested ≡ w.state.progress.pause_requested)
              × (s'.progress.stop_requested ≡ w.state.progress.stop_requested))
        → (w.state.control ≡ none)
          ⊎ ((w.state.control ≡ some id) × Agrees w.state.progress (w.controls id))
        → (s'.control ≡ none) ⊎ ((s'.control ≡ some id) × Agrees s'.progress (w.controls id))
    kept (inl e) held = inl e
    kept (inr (same, p, q)) (inl e) = inl (same ∙ e)
    kept (inr (same, p, q)) (inr (e, (p', q'))) = inr (same ∙ e, (p ∙ p', q ∙ q'))

write-busy :
    (names : List (String × String)) (cp : BatchCheckpoint) (saved : Result (Unit {0})) (s : State)
    → (write names cp saved s).1.busy ≡ s.busy
unfolding write write_saved
write-busy names cp (err e) s = refl
write-busy names cp (ok u) s = ground arith

close-flags :
    (id : ℕ) (w : Shared)
    → (w.state.control ≡ none)
      ⊎ ((w.state.control ≡ some id) × Agrees w.state.progress (w.controls id))
    → (w.state.control ≡ none)
      ⊎ ((w.state.control ≡ some id) × Agrees w.state.progress ((close id w).controls id))
close-flags id w (inl e) = inl e
close-flags id w (inr (e, (p, q))) = inr (e, ground (arith, p, q))

Move-Sound :
    (w : Shared) (l : Lease) (w' : Shared) (left : List Lease)
    → Move w l w' left
    → Sound w (l ∷ [])
    → Sound w' left
unfolding Daemon.publish_carried Daemon.initialize Daemon.progress Daemon.launch Daemon.finish_ok
    Daemon.finish_err drop_control clear_control
Move-Sound w admitted w' left refuses h = drop_busy-Sound w
Move-Sound w admitted w' left (carries_over r owed) h = h
Move-Sound w admitted w' left (initializes wanted carried) h = (h.0, (h.1, refl, refl))
Move-Sound w initialized w' left gives_up h = drop_busy-Sound w
Move-Sound w initialized w' left launches (busy, (none_held, no_pause, no_stop)) =
    (busy, (omega arith, inr (refl, ground (arith, no_pause, no_stop))))
Move-Sound w (running id) w' left (writes names cp saved) h =
    (write-busy names cp saved w.state ∙ h.0, write-Holds names cp saved w id h.1)
Move-Sound w (running id) w' left closes (busy, (a, held)) = (busy, (a, close-flags id w held))
Move-Sound w (running id) w' left (finishes r owed) h = (h.0, (h.1.0, inl refl))
Move-Sound w (running id) w' left fails h = (h.0, (h.1.0, inl refl))
Move-Sound w (running id) w' left drops_control h = (h.0, refl)
Move-Sound w torn_down w' left leaves h = drop_busy-Sound w

refused : (s : State) → s.busy ≡ true → (acquire s).0 ≢ ok tt
unfolding acquire
refused s b e = ground (arith, b, e)

acquire-Sound :
    (w : Shared) (ls : List Lease)
    → (acquire w.state).0 ≡ ok tt
    → Sound w ls
    → Sound (on_state (λ s. (acquire s).1) w) (admitted ∷ ls)
unfolding acquire
acquire-Sound w [] e h = ground (arith, e)
acquire-Sound w (l ∷ []) (e) h = elim (refused w.state h.0 e) [ ]
acquire-Sound w (l ∷ m ∷ ls) e h = elim h [ ]

-- A command that finds no controller, or another one, changes nothing.
control_captured-stale :
    (id : ℕ) (pause : Option Bool) (w : Shared)
    → is_current id w.state.control ≡ false
    → (control_captured id pause w).1 ≡ w
unfolding control_captured
control_captured-stale id pause w e = ground (arith, e)

pub command_cases :
    (id : ℕ) (pause : Option Bool) (w : Shared)
    → ((control_captured id pause w).1 ≡ w)
      ⊎ ((is_current id w.state.control ≡ true)
          × ((is_pause pause && (w.controls id).stop_requested) ≡ false)
          × ((control_captured id pause w).1 ≡ commanded id pause w))
unfolding control_captured
command_cases id pause w = ground arith

commanded-Agrees :
    (id : ℕ) (pause : Option Bool) (w : Shared) (j : ℕ)
    → (j == id) ≡ true
    → Agrees w.state.progress (w.controls j)
    → Agrees (commanded id pause w).state.progress ((commanded id pause w).controls j)
unfolding shown requested
commanded-Agrees id (some pause) w j here (p, q) =
    let same : j ≡ id = ground (arith, here) in
    let q' = q ∙ ap (λ k. (w.controls k).stop_requested) same in ground (arith, here, q')
commanded-Agrees id none w j here (p, q) = ground (arith, here)

no_controller :
    (id : ℕ) (pause : Option Bool) (w : Shared) (ls : List Lease)
    → w.state.control ≡ none
    → Sound w ls
    → Sound (control_captured id pause w).1 ls
no_controller id pause w ls e h =
    subst (λ x. Sound x ls) (sym (control_captured-stale id pause w (ap (is_current id) e))) h

control_captured-Sound :
    (id : ℕ) (pause : Option Bool) (w : Shared) (ls : List Lease)
    → Sound w ls
    → Sound (control_captured id pause w).1 ls
control_captured-Sound id pause w [] h = no_controller id pause w [] h.1 h
control_captured-Sound id pause w (admitted ∷ []) h = no_controller id pause w (admitted ∷ []) h.1 h
control_captured-Sound id pause w (initialized ∷ []) h =
    no_controller id pause w (initialized ∷ []) h.1.0 h
control_captured-Sound id pause w (torn_down ∷ []) h =
    no_controller id pause w (torn_down ∷ []) h.1 h
control_captured-Sound id pause w (running j ∷ []) (busy, (a, inl e)) =
    no_controller id pause w (running j ∷ []) e (busy, (a, inl e))
control_captured-Sound id pause w (running j ∷ []) (busy, (a, inr (e, agrees))) =
    elim (command_cases id pause w) [
      | inl same ↦ subst (λ x. Sound x (running j ∷ [])) (sym same) (busy, (a, inr (e, agrees)))
      | inr (here, unstopped, same) ↦
          subst (λ x. Sound x (running j ∷ [])) (sym same)
            (
              busy,
              (
                a,
                inr (e, commanded-Agrees id pause w j (sym (ap (is_current id) e) ∙ here) agrees),
              ),
            )
    ]
control_captured-Sound id pause w (l ∷ m ∷ ls) h = elim h [ ]

-- The system is sound at every step.
Step-Sound : (s t : System) → Step s t → Sound s.shared s.leases → Sound t.shared t.leases
Step-Sound s t (acquires e) h = acquire-Sound s.shared s.leases e h
Step-Sound s t (commands id pause) h = control_captured-Sound id pause s.shared s.leases h
Step-Sound s t (moves {l} {w} {left} [] [] e m) h =
    subst (Sound w) (sym (append-nil left))
      (Move-Sound s.shared l w left m (subst (Sound s.shared) e h))
Step-Sound s t (moves [] (x ∷ after) e m) h = elim (subst (Sound s.shared) e h) [ ]
Step-Sound s t (moves (x ∷ []) after e m) h = elim (subst (Sound s.shared) e h) [ ]
Step-Sound s t (moves (x ∷ y ∷ before) after e m) h = elim (subst (Sound s.shared) e h) [ ]

pub Reach-Sound : (s : System) → Reach initial s → Sound s.shared s.leases
unfolding Daemon.progress is_unfinished
Reach-Sound s start = (refl, refl, refl, refl)
Reach-Sound s (later {t} r step) = Step-Sound t s step (Reach-Sound t r)
