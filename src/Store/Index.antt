-- ===== src/Store/Index.antt =====
-- internal/store/memstore.go: the two maps of the store stay consistent.
use forgery.Base.{
  ℕ, Str, ◌≡◌, refl, arith, true, not, ◌==◌, nat_eq, str_eq, Option, none, some, List, [], ◌∷◌,
  lookup, insert, delete, only, Distinct, lookup-insert, lookup-delete, lookup-keep,
  insert-Distinct, delete-Distinct, keep-Distinct, if◌then◌else◌, eq_iff, eq_refl, is_empty,
}
use forgery.Task.{Ref, Heap}
use forgery.Store.{
  MemStore, new_mem_store, put_pending, find_task, get_by_reg_token, mark_reg_token_consumed,
  remove_locked, remove, remove_all, stale_ids, gc,
}

-- Each map has one entry for a key, and every token of the index names a task of the store.
pub record IsValid (m : MemStore) : Type 0 where
  pub tasks_distinct : Distinct m.tasks
  pub by_reg_distinct : Distinct m.by_reg
  pub indexed :
      (token : Str) (id : ℕ) → lookup token m.by_reg ≡ some id → ¬ (lookup id m.tasks ≡ none)

pub new_mem_store-IsValid : IsValid new_mem_store
unfolding new_mem_store lookup
new_mem_store-IsValid = record { tasks_distinct = tt; by_reg_distinct = tt; indexed = λ t i h. cc }

pub put_pending-IsValid :
    (h : Heap) (r : Ref) (m : MemStore) → IsValid m → IsValid (put_pending h r m)
unfolding put_pending
put_pending-IsValid h r m v = record {
  tasks_distinct = insert-Distinct _ _ m.tasks v.tasks_distinct;
  by_reg_distinct = insert-Distinct _ _ m.by_reg v.by_reg_distinct;
  indexed = λ t i e. ground (
    arith,
    lookup-insert (h r).reg_token t (h r).id m.by_reg,
    lookup-insert (h r).id i r m.tasks,
    eq_iff (h r).id i,
    v.indexed t i,
  );
}

pub mark_reg_token_consumed-IsValid :
    (token : Str) (m : MemStore) → IsValid m → IsValid (mark_reg_token_consumed token m).1
unfolding mark_reg_token_consumed
mark_reg_token_consumed-IsValid token m v = record {
  tasks_distinct = ground (arith, v.tasks_distinct);
  by_reg_distinct = ground (arith, v.by_reg_distinct, delete-Distinct token m.by_reg);
  indexed = λ t i e. ground (arith, lookup-delete token t m.by_reg, v.indexed t i);
}

pub lookup-remove_locked :
    (id j : ℕ) (m : MemStore)
    → lookup j (remove_locked id m).tasks ≡ (if id == j then none else lookup j m.tasks)
unfolding remove_locked
lookup-remove_locked id j m = lookup-delete id j m.tasks

pub lookup_token-remove_locked :
    (id : ℕ) (token : Str) (m : MemStore)
    → IsValid m
    → lookup token (remove_locked id m).by_reg ≡ only (λ o. not (o == id)) (lookup token m.by_reg)
unfolding remove_locked
lookup_token-remove_locked id token m v = lookup-keep _ token m.by_reg v.by_reg_distinct

pub remove_locked-IsValid : (id : ℕ) (m : MemStore) → IsValid m → IsValid (remove_locked id m)
unfolding remove_locked
remove_locked-IsValid id m v = record {
  tasks_distinct = delete-Distinct id m.tasks v.tasks_distinct;
  by_reg_distinct = keep-Distinct _ m.by_reg v.by_reg_distinct;
  indexed = λ t i e. ground (
    arith,
    lookup_token-remove_locked id t m v,
    lookup-remove_locked id i m,
    eq_iff i id,
    eq_iff id i,
    v.indexed t i,
  );
}

pub remove-IsValid : (id : ℕ) (m : MemStore) → IsValid m → IsValid (remove id m)
unfolding remove
remove-IsValid id m v = remove_locked-IsValid id m v

pub remove_all-IsValid : (ids : List ℕ) (m : MemStore) → IsValid m → IsValid (remove_all ids m)
unfolding remove_all
remove_all-IsValid [] m v = v
remove_all-IsValid (id ∷ ids) m v =
    remove_all-IsValid ids (remove_locked id m) (remove_locked-IsValid id m v)

remove_all_if :
    (ids : List ℕ) (m : MemStore)
    → (if is_empty ids then m else remove_all ids m) ≡ remove_all ids m
unfolding remove_all
remove_all_if [] m = refl
remove_all_if (id ∷ ids) m = refl

pub gc-eq-remove_all :
    (h : Heap) (now : ℕ) (m : MemStore) → gc h now m ≡ remove_all (stale_ids h now m.tasks) m
unfolding gc
gc-eq-remove_all h now m = remove_all_if (stale_ids h now m.tasks) m

pub gc-IsValid : (h : Heap) (now : ℕ) (m : MemStore) → IsValid m → IsValid (gc h now m)
gc-IsValid h now m v = rw gc-eq-remove_all (remove_all-IsValid _ m v)

-- A removed task is gone under its id and under every token that led to it; all else stays.
pub remove_lem :
    (id j : ℕ) (token : Str) (m : MemStore)
    → IsValid m
    → (lookup j (remove id m).tasks ≡ (if id == j then none else lookup j m.tasks))
      × (lookup token (remove id m).by_reg ≡ only (λ o. not (o == id)) (lookup token m.by_reg))
unfolding remove
remove_lem id j token m v = (lookup-remove_locked id j m, lookup_token-remove_locked id token m v)

-- A stored task is found by its token, and the other tokens lead where they led.
pub get_by_reg_token-put_pending :
    (h : Heap) (r : Ref) (token : Str) (m : MemStore)
    → lookup (h r).id m.tasks ≡ none
    → IsValid m
    → get_by_reg_token token (put_pending h r m)
      ≡ (if (h r).reg_token == token then some r else get_by_reg_token token m)
unfolding get_by_reg_token put_pending
get_by_reg_token-put_pending h r token m fresh v = ground (
  arith,
  lookup-insert (h r).reg_token token (h r).id m.by_reg,
  lookup-insert (h r).id (h r).id r m.tasks,
  eq_refl (h r).id,
  old (lookup token m.by_reg) refl,
)
  where
    old :
        (o : Option ℕ)
        → lookup token m.by_reg ≡ o
        → find_task
            (record {
              tasks = insert (h r).id r m.tasks;
              by_reg = insert (h r).reg_token (h r).id m.by_reg;
            })
            o
          ≡ find_task m o
    old none e = refl
    old (some i) e =
        ground (arith, lookup-insert (h r).id i r m.tasks, eq_iff (h r).id i, v.indexed token i e)

-- Who finds a task by a token and then consumes it wins it, and nobody finds it by that token again.
pub mark_reg_token_consumed_found :
    (token : Str) (r : Ref) (m : MemStore)
    → get_by_reg_token token m ≡ some r
    → (mark_reg_token_consumed token m ≡ (true, record m { by_reg = delete token m.by_reg }))
      × (get_by_reg_token token (record m { by_reg = delete token m.by_reg }) ≡ none)
unfolding get_by_reg_token mark_reg_token_consumed find_task
mark_reg_token_consumed_found token r m e =
    (ground arith, ground (arith, lookup-delete token token m.by_reg, eq_refl token))

pub lookup-remove_self : (id : ℕ) (m : MemStore) → lookup id (remove id m).tasks ≡ none
unfolding remove
lookup-remove_self id m = ground (arith, lookup-remove_locked id id m, eq_refl id)

pub lookup-remove :
    (id j : ℕ) (m : MemStore)
    → lookup j (remove id m).tasks ≡ (if id == j then none else lookup j m.tasks)
unfolding remove
lookup-remove id j m = lookup-remove_locked id j m

-- A task found by its token is in the store.
pub get_by_reg_token-stored :
    (token : Str) (r : Ref) (m : MemStore)
    → get_by_reg_token token m ≡ some r
    → (id : ℕ) × (lookup id m.tasks ≡ some r)
unfolding get_by_reg_token find_task
get_by_reg_token-stored token r m h = indexed_by (lookup token m.by_reg) h
  where
    indexed_by : (o : Option ℕ) → find_task m o ≡ some r → (id : ℕ) × (lookup id m.tasks ≡ some r)
    indexed_by none e = cc
    indexed_by (some id) e = (id, e)
