-- ===== src/Store.antt =====
-- internal/store/memstore.go: the task store and its index of registration tokens. The two maps are
-- behind one lock, so that each operation is one step; GC reads the tasks between two such steps.
pub mod Index
pub mod Gc
pub mod History
pub mod Refinement
use forgery.Base.{
  ℕ, suc, Str, Bool, true, false, not, ◌&&◌, ◌==◌, nat_eq, str_eq, Option, none, some, List, [],
  ◌∷◌, Dict, lookup, insert, delete, keep, exceeds, if◌then◌else◌, is_empty,
}
use forgery.Task.{Ref, Heap, is_pending, is_terminal}

pub record MemStore : Type 0 where
  pub tasks : Dict ℕ Ref
  pub by_reg : Dict Str ℕ

unfoldable pub new_mem_store : MemStore
new_mem_store = record { tasks = []; by_reg = [] }

unfoldable pub put_pending : Heap → Ref → MemStore → MemStore
put_pending h r m = record {
  tasks = insert (h r).id r m.tasks;
  by_reg = insert (h r).reg_token (h r).id m.by_reg;
}

-- the second step of the lookup, on what the index gave
find_task : MemStore → Option ℕ → Option Ref
find_task m none = none
find_task m (some id) = lookup id m.tasks

unfoldable pub get_by_reg_token : Str → MemStore → Option Ref
unfolding find_task
get_by_reg_token token m = find_task m (lookup token m.by_reg)

abbrev pub is_found {ℓ} : {A : Type ℓ} → Option A → Bool
is_found none = false
is_found (some a) = true

unfoldable pub mark_reg_token_consumed : Str → MemStore → Bool × MemStore
mark_reg_token_consumed token m =
    if is_found (lookup token m.by_reg)
    then (true, record m { by_reg = delete token m.by_reg })
    else (false, m)

pub remove_locked : ℕ → MemStore → MemStore
remove_locked id m = record {
  tasks = delete id m.tasks;
  by_reg = keep (λ _ owner. not (owner == id)) m.by_reg;
}

unfoldable pub remove : ℕ → MemStore → MemStore
unfolding remove_locked
remove id m = remove_locked id m

-- the test of GC on one task
abbrev pub is_stale : Heap → ℕ → Ref → Bool
is_stale h now r = is_pending (h r).status && exceeds now (h r).created_at (h r).reg_token_ttl

-- the ids that GC collects while it holds no lock
pub stale_ids : Heap → ℕ → Dict ℕ Ref → List ℕ
stale_ids h now [] = []
stale_ids h now ((id, r) ∷ m) =
    let rest = stale_ids h now m in if is_stale h now r then id ∷ rest else rest

pub remove_all : List ℕ → MemStore → MemStore
remove_all [] m = m
remove_all (id ∷ ids) m = remove_all ids (remove_locked id m)

pub gc : Heap → ℕ → MemStore → MemStore
unfolding stale_ids remove_all remove_locked
gc h now m =
    let to_remove = stale_ids h now m.tasks in
    if is_empty to_remove then m else remove_all to_remove m

-- the loop of CountActive over the tasks
count_non_terminal : Heap → Dict ℕ Ref → ℕ
count_non_terminal h [] = 0
count_non_terminal h ((id, r) ∷ m) =
    let rest = count_non_terminal h m in if is_terminal (h r).status then rest else suc rest

pub count_active : Heap → MemStore → ℕ
unfolding count_non_terminal
count_active h m = count_non_terminal h m.tasks
