-- ===== src/Daemon/System/Kept.antt =====
-- rust/src/daemon.rs: what a batch's controller keeps through every step of the threads.
use mathlib.Core.Path.{subst}
use dssp_bot.Prelude.{
  ℕ, ◌<◌, ◌==◌, Bool, true, false, Option, List, ◌≡◌, refl, sym, inl, inr, arith, ◌&&◌,
  if◌then◌else◌,
}
use dssp_bot.Daemon.{BatchControl, Shared, set_control, launch}
use dssp_bot.Daemon.Control.{is_pause, requested, control_captured}
use dssp_bot.Daemon.System.{
  Lease, running, Move, launches, closes, System, Step, acquires, moves, commands, Reach, start,
  later,
}
use dssp_bot.Daemon.System.Sound.{command_cases}

-- A property of controllers that their closing and the commands that are not refused keep.
module _ (P : BatchControl → Type 0)
    (keeps_closing : (c : BatchControl) → P c → P (record c { closed = true }))
    (keeps_commands : (pause : Option Bool) (c : BatchControl)
      → (is_pause pause && c.stop_requested) ≡ false
      → P c
      → P (requested pause c))
    (id : ℕ) where
  abbrev Kept : Shared → Type 0
  Kept w = (id < w.allocated) × P (w.controls id)

  if-keeps : (b : Bool) (c d : BatchControl) → (b ≡ true → P c) → P d → P (if b then c else d)
  if-keeps true c d f h = f refl
  if-keeps false c d f h = h

  set_control-keeps :
      (j : ℕ) (c : BatchControl) (controls : ℕ → BatchControl)
      → (id ≡ j → P c)
      → P (controls id)
      → P (set_control j c controls id)
  set_control-keeps j c controls f h =
      if-keeps (id == j) c (controls id) (λ e. f (ground (arith, e))) h

  launch-Kept : (w : Shared) → Kept w → Kept (launch w)
  unfolding launch
  launch-Kept w (a, h) =
      (omega arith, set_control-keeps w.allocated _ w.controls (λ e. absurd (omega (arith, e))) h)

  Move-Kept :
      (w : Shared) (l : Lease) (w' : Shared) (left : List Lease)
      → Move w l w' left
      → Kept w
      → Kept w'
  Move-Kept w l w' left launches h = launch-Kept w h
  Move-Kept w (running j) w' left closes (a, h) = (
    a,
    set_control-keeps j _ w.controls
        (λ e. keeps_closing (w.controls j) (subst (λ k. P (w.controls k)) e h)) h,
  )
  Move-Kept w l w' left _ h = h

  commands-Kept :
      (j : ℕ) (pause : Option Bool) (w : Shared) → Kept w → Kept (control_captured j pause w).1
  commands-Kept j pause w (a, h) = elim (command_cases j pause w) [
    | inl same ↦ subst Kept (sym same) (a, h)
    | inr (here, unstopped, same) ↦ subst Kept (sym same) (
      a,
      set_control-keeps j _ w.controls
          (λ e. keeps_commands pause (w.controls j) unstopped (subst (λ k. P (w.controls k)) e h))
          h,
    )
  ]

  Step-Kept : (s t : System) → Step s t → Kept s.shared → Kept t.shared
  Step-Kept s t (acquires e) h = h
  Step-Kept s t (moves {l} {w} {left} before after e m) h = Move-Kept s.shared l w left m h
  Step-Kept s t (commands j pause) h = commands-Kept j pause s.shared h

  pub Reach-Kept :
      (s t : System)
      → Reach s t
      → (id < s.shared.allocated) × P (s.shared.controls id)
      → (id < t.shared.allocated) × P (t.shared.controls id)
  Reach-Kept s t start h = h
  Reach-Kept s t (later {t = u} {u = v} r step) h = Step-Kept u t step (Reach-Kept s u r h)
