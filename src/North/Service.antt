-- ===== src/North/Service.antt =====
-- internal/north/client.go: the requests that the daemon makes as a runner. Each goes through
-- retryOnAuth.
pub mod Heartbeats
use forgery.Base.{ℕ, Str, Bool, List, [], ◌∷◌, Option}
use forgery.Proto
use forgery.Proto.{UpdateTaskRequest, UpdateLogRequest, unspecified, RpcError}
use forgery.Config.{Instance}
use forgery.State.{Identity, Json}
use forgery.North.Connection.{
  ClientState, RunnerHeaders, RegisterMessage, Reply, strip_container_mapping, retry_on_auth,
}

pub record DeclareMessage : Type 0 where
  pub labels : List Str
  pub version : Str

-- The instance's runner service: its reply to the n-th request.
pub record RunnerService : Type 0 where
  pub register : ℕ → RunnerHeaders → RegisterMessage → Reply (Option Identity)
  pub declare : ℕ → RunnerHeaders → DeclareMessage → Reply (Unit {0})
  pub fetch_task : ℕ → RunnerHeaders → Reply (Option Proto.Task)
  pub update_task : ℕ → RunnerHeaders → UpdateTaskRequest → Reply Str
  pub update_log : ℕ → RunnerHeaders → UpdateLogRequest → Reply Str

-- The surroundings of one request: the clock, whether the state file can be written, and what the
-- other goroutines do meanwhile.
pub record Surroundings : Type 0 where
  pub now : ℕ
  pub writes : Bool
  pub before : ClientState → ClientState
  pub during : ClientState → ClientState
  pub after : ClientState → ClientState

-- a request during which no other goroutine uses the client
abbrev pub alone : (now : ℕ) → (writes : Bool) → Surroundings
alone now writes = record {
  now = now;
  writes = writes;
  before = λ s. s;
  during = λ s. s;
  after = λ s. s;
}

module _ (json : Json) (error_text : RpcError → Str) (inst : Instance) (version : Str)
    (service : RunnerService) where
  abbrev request {ℓ} :
      {A : Type ℓ}
      → Surroundings
      → (ℕ → RunnerHeaders → Reply A)
      → ClientState
      → Reply A × ClientState
  request w =
      retry_on_auth json error_text inst version service.register w.writes w.before w.during w.after
        w.now

  unfoldable pub declare : Surroundings → ClientState → Reply (Unit {0}) × ClientState
  declare w = request w (λ n h.
      service.declare n h
        (record { labels = strip_container_mapping inst.forgejo_runner_labels; version = version }))

  -- the request of PollLoop
  unfoldable pub fetch : Surroundings → ClientState → Reply (Option Proto.Task) × ClientState
  fetch w = request w (λ n h. service.fetch_task n h)

  pub forward_update_task : Surroundings → UpdateTaskRequest → ClientState → Reply Str × ClientState
  forward_update_task w req = request w (λ n h. service.update_task n h req)

  pub forward_update_log : Surroundings → UpdateLogRequest → ClientState → Reply Str × ClientState
  forward_update_log w req = request w (λ n h. service.update_log n h req)

  -- The request of a task's heartbeat says that the task is running.
  pub heartbeat_request : ℕ → UpdateTaskRequest
  heartbeat_request task_id = record { state_id = task_id; result = unspecified; unread = [] }

  -- StartHeartbeat, with the ticks until its context ends. Errors are only logged.
  pub start_heartbeat : ℕ → List Surroundings → ClientState → ClientState
  unfolding heartbeat_request forward_update_task
  start_heartbeat task_id [] s = s
  start_heartbeat task_id (tick ∷ ticks) s =
      start_heartbeat task_id ticks (forward_update_task tick (heartbeat_request task_id) s).1
