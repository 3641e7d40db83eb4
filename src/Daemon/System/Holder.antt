-- ===== src/Daemon/System/Holder.antt =====
-- rust/src/daemon.rs: who holds the worker, and what the status says of it.
use mathlib.Core.Path.{subst}
use dssp_bot.Prelude.{
  ℕ, ◌<◌, ◌≤◌, false, none, some, is_empty, not, List, [], ◌∷◌, ◌≡◌, ap, inl, inr, length, arith,
}
use dssp_bot.Daemon.{Shared, is_unfinished}
use dssp_bot.Daemon.System.{
  Lease, admitted, initialized, torn_down, running, System, Reach, initial,
}
use dssp_bot.Daemon.System.Sound.{Agrees, Sound, Reach-Sound}

one_at_most : (w : Shared) (ls : List Lease) → Sound w ls → length ls ≤ 1
one_at_most w [] h = omega arith
one_at_most w (l ∷ []) h = omega arith
one_at_most w (l ∷ m ∷ ls) h = elim h [ ]

busy_held : (w : Shared) (ls : List Lease) → Sound w ls → w.state.busy ≡ not (is_empty ls)
busy_held w [] h = h.0
busy_held w (l ∷ []) h = h.0
busy_held w (l ∷ m ∷ ls) h = elim h [ ]

-- In every order of the threads' steps, the worker has one holder at most, and the bridge is busy
-- exactly where it has one. Where it has none, no batch takes commands, and the status is no
-- unfinished batch's.
pub one_holder :
    (s : System)
    → Reach initial s
    → (length s.leases ≤ 1)
      × (s.shared.state.busy ≡ not (is_empty s.leases))
      × (s.leases ≡ []
          → (s.shared.state.control ≡ none) × (is_unfinished s.shared.state.progress.state ≡ false))
one_holder s r =
    let sound = Reach-Sound s r in
    (
      one_at_most s.shared s.leases sound,
      busy_held s.shared s.leases sound,
      λ e. let (idle, free, over, unpaused) = subst (Sound s.shared) e sound in (free, over),
    )

pub controlled :
    (w : Shared) (ls : List Lease) (id : ℕ)
    → Sound w ls
    → w.state.control ≡ some id
    → (ls ≡ running id ∷ []) × (id < w.allocated) × Agrees w.state.progress (w.controls id)
controlled w [] id (busy, free, over, unpaused) e = cc
controlled w (admitted ∷ []) id h e = cc
controlled w (initialized ∷ []) id (busy, (h, no_pause, no_stop)) e = cc
controlled w (torn_down ∷ []) id h e = cc
controlled w (running j ∷ []) id (busy, (a, inl e')) e = cc
controlled w (running j ∷ []) id (busy, (a, inr (e', flags))) e =
    let same : j ≡ id = cc in
    (
      ap (λ k. running k ∷ []) same,
      subst (λ k. k < w.allocated) same a,
      subst (λ k. Agrees w.state.progress (w.controls k)) same flags,
    )
controlled w (l ∷ m ∷ ls) id h e = elim h [ ]

-- In every order of the threads' steps, a batch that takes commands is the worker's only holder, and
-- the status shows the pause and the stop that were asked of it.
pub status_shows_flags :
    (s : System) (id : ℕ)
    → Reach initial s
    → s.shared.state.control ≡ some id
    → (s.leases ≡ running id ∷ [])
      × (s.shared.state.progress.pause_requested ≡ (s.shared.controls id).pause_requested)
      × (s.shared.state.progress.stop_requested ≡ (s.shared.controls id).stop_requested)
status_shows_flags s id r e =
    let (alone, below, flags) = controlled s.shared s.leases id (Reach-Sound s r) e in
    (alone, flags.0, flags.1)
