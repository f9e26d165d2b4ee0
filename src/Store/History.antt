-- ===== src/Store/History.antt =====
-- internal/store/memstore.go: sequences of store operations. The lock makes each operation one step,
-- so what concurrent callers do is some such sequence; the heap may change between two steps.
use forgery.Base.{
  ℕ, ◌+◌, ◌≤◌, Str, ◌≡◌, ◌≢◌, ap, arith, Bool, true, false, not, ◌==◌, nat_eq, str_eq, Option, none,
  some, List, [], ◌∷◌, lookup, only, All, if◌then◌else◌, lookup-insert, lookup-delete, eq_iff,
  eq_refl,
}
use forgery.Task.{Ref, Heap}
use forgery.Store.{
  MemStore, new_mem_store, put_pending, get_by_reg_token, mark_reg_token_consumed, remove, gc,
}
use forgery.Store.Index.{
  IsValid, new_mem_store-IsValid, put_pending-IsValid, mark_reg_token_consumed-IsValid,
  remove_locked-IsValid, gc-IsValid, remove_lem,
}
use forgery.Store.Gc.{gc_lem, stale_at}

pub data StoreOp : Type 0 where
  puts : Heap → Ref → StoreOp
  consumes : Str → StoreOp
  removes : ℕ → StoreOp
  collects : Heap → ℕ → StoreOp

-- The Boolean is what MarkRegTokenConsumed returns, and false for the others.
pub step : StoreOp → MemStore → Bool × MemStore
step (puts h r) m = (false, put_pending h r m)
step (consumes token) m = mark_reg_token_consumed token m
step (removes id) m = (false, remove id m)
step (collects h now) m = (false, gc h now m)

pub run : List StoreOp → MemStore → MemStore
run [] m = m
run (op ∷ ops) m = run ops (step op m).1

-- Every operation keeps the two maps of the store consistent.
pub step-IsValid : (op : StoreOp) (m : MemStore) → IsValid m → IsValid (step op m).1
unfolding step remove
step-IsValid (puts h r) m v = put_pending-IsValid h r m v
step-IsValid (consumes token) m v = mark_reg_token_consumed-IsValid token m v
step-IsValid (removes id) m v = remove_locked-IsValid id m v
step-IsValid (collects h now) m v = gc-IsValid h now m v

run-IsValid : (ops : List StoreOp) (m : MemStore) → IsValid m → IsValid (run ops m)
unfolding run
run-IsValid [] m v = v
run-IsValid (op ∷ ops) m v = run-IsValid ops (step op m).1 (step-IsValid op m v)

-- After any history of operations on a new store, each map has one entry for a key and every token
-- of the index names a stored task.
pub run-new_mem_store-IsValid : (ops : List StoreOp) → IsValid (run ops new_mem_store)
run-new_mem_store-IsValid ops = run-IsValid ops new_mem_store new_mem_store-IsValid

-- the operation stores a task under the token
abbrev pub Stores : Str → StoreOp → Type 0
Stores token (puts h r) = (h r).reg_token ≡ token
Stores token _ = ⊥

abbrev wins : Str → StoreOp → Bool → ℕ
wins token (consumes t) true = if t == token then 1 else 0
wins token _ _ = 0

-- how often the token is consumed with success
pub consumptions : Str → List StoreOp → MemStore → ℕ
consumptions token [] m = 0
consumptions token (op ∷ ops) m =
    let rest = consumptions token ops (step op m).1 in wins token op (step op m).0 + rest

abbrev pub room : Option ℕ → ℕ
room none = 0
room (some id) = 1

room-only : (p : ℕ → Bool) (o : Option ℕ) → room (only p o) ≤ room o
room-only p none = omega arith
room-only p (some id) = ground arith

step-room :
    (token : Str) (op : StoreOp) (m : MemStore)
    → IsValid m
    → ¬ Stores token op
    → wins token op (step op m).0 + room (lookup token (step op m).1.by_reg)
      ≤ room (lookup token m.by_reg)
unfolding step put_pending mark_reg_token_consumed
step-room token (puts h r) m v s =
    ground
      (arith, lookup-insert (h r).reg_token token (h r).id m.by_reg, eq_iff (h r).reg_token token)
step-room token (consumes t) m v s = ground (arith, lookup-delete t token m.by_reg, eq_iff t token)
step-room token (removes id) m v s = omega (
  arith,
  ap room (remove_lem id id token m v).1,
  room-only (λ (o : ℕ). not (o == id)) (lookup token m.by_reg),
)
step-room token (collects h now) m v s = omega (
  arith,
  ap room (gc_lem h now 0 token m v).1,
  room-only (λ (o : ℕ). not (stale_at h now (lookup o m.tasks))) (lookup token m.by_reg),
)

-- Whatever the callers do, a token that is not stored again is consumed with success at most once,
-- and never if it is not in the index to begin with.
pub consumptions-le-room :
    (token : Str) (ops : List StoreOp) (m : MemStore)
    → IsValid m
    → All (λ op. ¬ Stores token op) ops
    → consumptions token ops m ≤ room (lookup token m.by_reg)
unfolding consumptions
consumptions-le-room token [] m v a = omega arith
consumptions-le-room token (op ∷ ops) m v a = omega (
  arith,
  step-room token op m v a.0,
  consumptions-le-room token ops (step op m).1 (step-IsValid op m v) a.1,
)

-- Two stored tasks with one id and different tokens, as two Forgejo instances may issue: the token
-- of the first leads to the second.
pub get_by_reg_token-put_pending_collision :
    (h : Heap) (r q : Ref) (m : MemStore)
    → (h r).id ≡ (h q).id
    → (h r).reg_token ≢ (h q).reg_token
    → get_by_reg_token (h r).reg_token (put_pending h q (put_pending h r m)) ≡ some q
unfolding get_by_reg_token put_pending
get_by_reg_token-put_pending_collision h r q m same differ = ground (
  arith,
  lookup-insert (h q).reg_token (h r).reg_token (h q).id (put_pending h r m).by_reg,
  lookup-insert (h r).reg_token (h r).reg_token (h r).id m.by_reg,
  lookup-insert (h q).id (h r).id q (put_pending h r m).tasks,
  eq_iff (h q).reg_token (h r).reg_token,
  eq_iff (h q).id (h r).id,
  eq_refl (h r).reg_token,
)
