-- ===== src/Daemon/Permits.antt =====
-- rust/src/daemon.rs, `dispatch` and `ConnectionPermit`: how many connections are served at once.
use dssp_bot.Prelude.{
  ℕ, ◌+◌, ◌-◌, ◌^◌, ◌%◌, ◌≤◌, ltb, Option, none, some, ◌≡◌, refl, arith, if◌then◌else◌,
}

abbrev pub connection_limit : ℕ
connection_limit = 16

-- The count behind an admission, or none.
unfoldable pub acquire_permit : ℕ → Option ℕ
acquire_permit count = if ltb count connection_limit then some (count + 1) else none

-- `fetch_sub(1)` on a `usize`, which wraps.
unfoldable pub drop_permit : ℕ → ℕ
drop_permit count = (count + (2 ^ 64 - 1)) % 2 ^ 64

-- The counter, and the threads that hold a permit.
pub record Listener : Type 0 where
  pub active : ℕ
  pub threads : ℕ

unfoldable pub dispatch_with : Option ℕ → Listener → Listener
dispatch_with none l = l
dispatch_with (some count) l = record { active = count; threads = l.threads + 1 }

-- A connection arrives: it gets a thread, or it is closed. A thread that cannot be started drops its
-- permit, as one that ends.
unfoldable pub dispatch : Listener → Listener
unfolding dispatch_with
dispatch l = dispatch_with (acquire_permit l.active) l

pub data Serves : Listener → Type 0 where
  listens : Serves (record { active = 0; threads = 0 })
  arrives : {l : Listener} → Serves l → Serves (dispatch l)
  ends :
      {l : Listener} {n : ℕ}
      → Serves l
      → l.threads ≡ n + 1
      → Serves (record { active = drop_permit l.active; threads = n })

abbrev Counted : Listener → Type 0
Counted l = (l.active ≡ l.threads) × (l.threads ≤ connection_limit)

dispatch-Counted : (l : Listener) → Counted l → Counted (dispatch l)
unfolding dispatch acquire_permit dispatch_with
dispatch-Counted l (same, few) = ground (arith, same, few)

-- In every order of arrivals and endings the counter is the number of threads that serve a
-- connection, 16 at most, so that no drop of a permit wraps around.
pub permits_bounded :
    (l : Listener) → Serves l → (l.active ≡ l.threads) × (l.threads ≤ connection_limit)
unfolding drop_permit
permits_bounded l listens = (refl, omega arith)
permits_bounded l (arrives {l = k} s) = dispatch-Counted k (permits_bounded k s)
permits_bounded l (ends {l = k} {n} s e) =
    let (same, few) = permits_bounded k s in (omega (arith, same, few, e), omega (arith, few, e))
