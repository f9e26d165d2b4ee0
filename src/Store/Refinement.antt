-- ===== src/Store/Refinement.antt =====
-- internal/store/store.go: what the TaskStore interface promises, less CountActive, on functions, and
-- that MemStore keeps it. The abstract store forgets how the maps are kept and in which order they are walked.
use forgery.Base.{
  ℕ, Str, ◌≡◌, Bool, not, ◌==◌, nat_eq, str_eq, Option, none, some, List, [], ◌∷◌, lookup, only,
  if◌then◌else◌,
}
use forgery.Task.{Ref, Heap}
use forgery.Store.{
  MemStore, put_pending, get_by_reg_token, mark_reg_token_consumed, is_found, remove, gc, is_stale,
}
use forgery.Store.Index.{IsValid}
use forgery.Store.Gc.{stale_at}

-- a call of the interface, with what the contexts hold at the time
pub data StoreCall : Type 0 where
  puts : Heap → Ref → StoreCall
  gets consumes : Str → StoreCall
  removes : ℕ → StoreCall
  collects : Heap → ℕ → StoreCall

pub data StoreReply : Type 0 where
  silent : StoreReply
  found : Option Ref → StoreReply
  consumed : Bool → StoreReply

abbrev pub call : StoreCall → MemStore → StoreReply × MemStore
call (puts h r) m = (silent, put_pending h r m)
call (gets token) m = (found (get_by_reg_token token m), m)
call (consumes token) m =
    (consumed (mark_reg_token_consumed token m).0, (mark_reg_token_consumed token m).1)
call (removes id) m = (silent, remove id m)
call (collects h now) m = (silent, gc h now m)

-- The task that each id stands for, and the id that each unused registration token stands for.
pub record Spec : Type 0 where
  pub task : ℕ → Option Ref
  pub grant : Str → Option ℕ

abbrev owner : Spec → Option ℕ → Option Ref
owner s none = none
owner s (some id) = s.task id

abbrev without : ℕ → Option ℕ → Option ℕ
without id o = only (λ other. not (other == id)) o

-- The promise: Remove drops a task with all tokens that stand for it, and GC each task that is pending
-- after its token has expired, with all tokens that stand for it.
abbrev pub promise : StoreCall → Spec → StoreReply × Spec
promise (puts h r) s = (
  silent,
  record {
    task = λ id. if (h r).id == id then some r else s.task id;
    grant = λ token. if (h r).reg_token == token then some (h r).id else s.grant token;
  },
)
promise (gets token) s = (found (owner s (s.grant token)), s)
promise (consumes token) s = (
  consumed (is_found (s.grant token)),
  record s { grant = λ other. if token == other then none else s.grant other },
)
promise (removes id) s = (
  silent,
  record {
    task = λ other. if id == other then none else s.task other;
    grant = λ token. without id (s.grant token);
  },
)
promise (collects h now) s = (
  silent,
  record {
    task = λ id. only (λ r. not (is_stale h now r)) (s.task id);
    grant = λ token. only (λ id. not (stale_at h now (s.task id))) (s.grant token);
  },
)

abbrev pub nothing : Spec
nothing = record { task = λ id. none; grant = λ token. none }

pub replies : List StoreCall → MemStore → List StoreReply
replies [] m = []
replies (c ∷ cs) m = (call c m).0 ∷ replies cs (call c m).1

pub promised : List StoreCall → Spec → List StoreReply
promised [] s = []
promised (c ∷ cs) s = (promise c s).0 ∷ promised cs (promise c s).1

-- the maps hold what the abstract store holds
record Simulates (m : MemStore) (s : Spec) : Type 0 where
  valid : IsValid m
  same_task : (id : ℕ) → lookup id m.tasks ≡ s.task id
  same_grant : (token : Str) → lookup token m.by_reg ≡ s.grant token
