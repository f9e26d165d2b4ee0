-- ===== src/North.antt =====
-- The interfaces of internal/north/client.go that the other packages use, and internal/app's map of
-- the instances behind them. What a client forwards is recorded in the order of the calls.
pub mod Connection
pub mod Service
use forgery.Base.{ℕ, Str, Option, none, some, [], ◌∷◌, Dict, lookup, str_eq, ◌≡◌}
use forgery.Proto.{UpdateTaskRequest, UpdateLogRequest, Result}
use forgery.Config.{Instance}

-- one relayed request, with the name of the instance it went to
pub data Sent : Type 0 where
  task_update : Str → UpdateTaskRequest → Sent
  log_update : Str → UpdateLogRequest → Sent

-- The reply to a request may depend on when it is made: the number of requests sent before it.
pub record Client : Type 0 where
  pub forward_update_task : ℕ → UpdateTaskRequest → Result Str
  pub forward_update_log : ℕ → UpdateLogRequest → Result Str

pub record InstanceEntry : Type 0 where
  pub inst : Instance
  pub client : Client

abbrev pub Resolver : Type 0
Resolver = Dict Str InstanceEntry

abbrev pub resolve : Str → Resolver → Option InstanceEntry
resolve name r = lookup name r

unfoldable pub only_instance : Resolver → Option Str
only_instance [] = none
only_instance ((name, e) ∷ []) = some name
only_instance (a ∷ b ∷ r) = none

-- Each instance is under its own name.
abbrev pub IsNamed : Resolver → Type 0
IsNamed resolver =
    (name : Str) (e : InstanceEntry) → resolve name resolver ≡ some e → e.inst.name ≡ name
