-- ===== src/App/Drain.antt =====
-- internal/app/app.go: the wait for active tasks at shutdown, and the limits that the configured
-- startup timeouts give.
pub mod Ends
use forgery.Base.{
  ℕ, zero, suc, ◌+◌, ◌-◌, ◌*◌, ◌^◌, ◌%◌, ◌==◌, nat_eq, ltb, ℤ, pos, negsuc, ltz, pos_part, Bool,
  Option, none, some, List, [], ◌∷◌, if◌then◌else◌,
}
use forgery.Task.{Heap}
use forgery.Store.{MemStore, count_active}
use forgery.Config.{Instance, Config}

-- what a look at the store finds
pub record View : Type 0 where
  pub heap : Heap
  pub store : MemStore

pub data Drained : Type 0 where
  drained : Drained
  still_active : ℕ → Drained

-- Round k of the loop: `view k` is the store at its count, `expired k` whether its select wakes up for the
-- timeout. `none` means that the rounds given are over.
module _ (view : ℕ → View) (expired : ℕ → Bool) where
  abbrev pub active : ℕ → ℕ
  active k = count_active (view k).heap (view k).store

  pub drain_rounds : ℕ → ℕ → Option Drained
  drain_rounds zero k = none
  drain_rounds (suc rounds) k =
      let rest = drain_rounds rounds (suc k) in
      let waited = if expired k then some (still_active (active k)) else rest in
      if active k == 0 then some drained else waited

  pub drain_tasks : ℕ → Option Drained
  unfolding drain_rounds
  drain_tasks rounds = drain_rounds rounds 0

max_from : ℤ → List Instance → ℤ
max_from max [] = max
max_from max (inst ∷ rest) =
    max_from (if ltz max inst.ga_startup_timeout then inst.ga_startup_timeout else max) rest

pub max_ga_startup_timeout : Config → ℤ
unfolding max_from
max_ga_startup_timeout c = max_from (pos 0) c.instances

-- the 64-bit integer with that residue
to_int64 : ℕ → ℤ
to_int64 n = let r = n % 2 ^ 64 in if ltb r (2 ^ 63) then pos r else negsuc (2 ^ 64 - r - 1)

-- twice the longest timeout, which is not negative, on 64 bits
pub session_max_age : Config → ℤ
unfolding to_int64
session_max_age c = to_int64 (2 * pos_part (max_ga_startup_timeout c))
