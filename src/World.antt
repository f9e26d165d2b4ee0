-- ===== src/World.antt =====
-- The state that the goroutines of the daemon share: the task contexts, the task store, the session
-- manager, the proxy's token registry, and the requests relayed so far.
pub mod Routed
pub mod Issue
pub mod Later
use forgery.Base.{ℕ, Str, Dict, List, ◌∷◌, length}
use forgery.Proto.{UpdateTaskRequest, UpdateLogRequest, Result}
use forgery.Task.{Ref, Heap, TaskCtx, update}
use forgery.Store.{MemStore}
use forgery.Session.{Manager}
use forgery.North.{Sent, InstanceEntry, task_update, log_update}

-- an entry of the token registry (internal/south/proxy.go)
pub record TokenEntry : Type 0 where
  pub instance_name : Str
  pub task : Ref
  pub session_token : Str
  pub expire_at : ℕ

pub record World : Type 0 where
  pub heap : Heap
  pub store : MemStore
  pub sessions : Manager
  pub entries : Dict Str TokenEntry
  pub sent : List Sent

-- a call of a task context's method
abbrev pub modify : Ref → (TaskCtx → TaskCtx) → World → World
modify r f w = record w { heap = update w.heap r f }

-- A call of an instance's client: the request is on record, the newest first, and the reply comes back.
abbrev pub send_task_update : InstanceEntry → UpdateTaskRequest → World → Result Str × World
send_task_update e req w = (
  e.client.forward_update_task (length w.sent) req,
  record w { sent = task_update e.inst.name req ∷ w.sent },
)

abbrev pub send_log_update : InstanceEntry → UpdateLogRequest → World → Result Str × World
send_log_update e req w = (
  e.client.forward_update_log (length w.sent) req,
  record w { sent = log_update e.inst.name req ∷ w.sent },
)
