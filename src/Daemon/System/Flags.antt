-- ===== src/Daemon/System/Flags.antt =====
-- rust/src/daemon.rs: a stop that was asked of a batch lasts.
use mathlib.Core.Path.{subst}
use dssp_bot.Prelude.{
  ℕ, ◌<◌, ◌==◌, Bool, true, false, Option, none, some, ◌≡◌, refl, sym, ap, arith, ◌&&◌,
  if◌then◌else◌,
}
use dssp_bot.Daemon.{BatchControl, Shared}
use dssp_bot.Daemon.Control.{is_current, is_pause, requested, commanded, control_captured}
use dssp_bot.Daemon.System.{System, Reach, initial}
use dssp_bot.Daemon.System.Sound.{Reach-Sound}
use dssp_bot.Daemon.System.Holder.{controlled}
use dssp_bot.Daemon.System.Kept.{Reach-Kept}

-- Asked to stop, and not to pause.
abbrev IsStopped : BatchControl → Type 0
IsStopped c = (c.stop_requested ≡ true) × (c.pause_requested ≡ false)

abbrev pub Stopped : ℕ → Shared → Type 0
Stopped id w = (id < w.allocated) × IsStopped (w.controls id)

-- A pause is refused behind a stop.
requested-IsStopped :
    (pause : Option Bool) (c : BatchControl)
    → (is_pause pause && c.stop_requested) ≡ false
    → IsStopped c
    → IsStopped (requested pause c)
unfolding requested
requested-IsStopped (some pause) c unstopped (stop, unpaused) =
    absurd (ground (arith, unstopped, stop))
requested-IsStopped none c unstopped h = (refl, refl)

Reach-Stopped : (id : ℕ) (s t : System) → Reach s t → Stopped id s.shared → Stopped id t.shared
Reach-Stopped id s t r h =
    Reach-Kept IsStopped (λ c stopped. stopped) requested-IsStopped id s t r h

accepted :
    (id : ℕ) (pause : Option Bool) (w : Shared)
    → (control_captured id pause w).0.0 ≡ 200
    → (is_current id w.state.control ≡ true)
      × ((control_captured id pause w).1 ≡ commanded id pause w)
unfolding control_captured
accepted id pause w e = ground (arith, e)

refused_pause :
    (id : ℕ) (pause : Bool) (w : Shared)
    → (w.controls id).stop_requested ≡ true
    → (control_captured id (some pause) w).0.0 ≡ 409
unfolding control_captured
refused_pause id pause w stop = ground (arith, stop)

found : (id : ℕ) (o : Option ℕ) → is_current id o ≡ true → o ≡ some id
found id none h = cc
found id (some c) h = ap some (ground (arith, h))

stops :
    (id : ℕ) (s : System)
    → Reach initial s
    → (control_captured id none s.shared).0.0 ≡ 200
    → Stopped id (control_captured id none s.shared).1
unfolding requested
stops id s r e =
    let (here, same) = accepted id none s.shared e in
    let below = (controlled s.shared s.leases id (Reach-Sound s r) (found id _ here)).1 in
    let itself : (id == id) ≡ true = ground arith in
    subst (Stopped id) (sym same) (
      below,
      subst
          (λ b.
            IsStopped (if b then requested none (s.shared.controls id) else s.shared.controls id))
          (sym itself) (refl, refl),
    )

-- Once a stop is answered by 200, then in every order of the threads' further steps the batch stays
-- asked to stop and not to pause, and every command to pause or resume it is answered by 409.
pub stop_lasts :
    (id : ℕ) (s t : System)
    → Reach initial s
    → (control_captured id none s.shared).0.0 ≡ 200
    → Reach (record s { shared = (control_captured id none s.shared).1 }) t
    → ((t.shared.controls id).stop_requested ≡ true)
      × ((t.shared.controls id).pause_requested ≡ false)
      × ((pause : Bool) → (control_captured id (some pause) t.shared).0.0 ≡ 409)
stop_lasts id s t r e later_steps =
    let (below, (stop, unpaused)) = Reach-Stopped id _ t later_steps (stops id s r e) in
    (stop, unpaused, λ pause. refused_pause id pause t.shared stop)
