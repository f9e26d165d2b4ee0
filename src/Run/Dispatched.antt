-- ===== src/Run/Dispatched.antt =====
-- internal/run/runner.go with internal/dispatch/github.go: the part of HandleTask that asks GitHub to
-- start the task's workflow. It is taken as one step at the time Trigger returns: what it reads of the
-- task before, its id, instance and registration token, never changes.
use forgery.Base.{if◌then◌else◌, ℕ, ◌≡◌, Bool, true, false, none, some, ◌∷◌, lookup, nat_eq, str_eq}
use forgery.Task.{Ref, TaskCtx, dispatched}
use forgery.Session
use forgery.Slots.{release}
use forgery.Config.{Instance}
use forgery.Dispatch
use forgery.Dispatch.{
  GitHub, DispatchRequest, Response, Ending, client_error, exhausted, cancelled, dispatch_request,
  trigger, new_dispatcher,
}
use forgery.North.{InstanceEntry, Resolver, resolve, task_update}
use forgery.Run.{
  TriggerResult, trigger_ok, trigger_err, Daemon, Stage, waiting_runner, returned, start,
  failure_update_request,
}

abbrev pub is_triggered : Ending → Bool
is_triggered Dispatch.triggered = true
is_triggered (client_error e) = false
is_triggered (exhausted e) = false
is_triggered cancelled = false

-- Whether the context has ended before the failure report: always, if that ended Trigger, and otherwise as
-- `stopped` says.
abbrev pub has_ended : Bool → Ending → Bool
has_ended stopped cancelled = true
has_ended stopped _ = stopped

abbrev pub result_of : Bool → Ending → TriggerResult
result_of stopped end = if is_triggered end then trigger_ok else trigger_err (has_ended stopped end)

-- GitHub's answers to the attempts of a request, whether the context ends before an attempt, and whether it
-- has ended once Trigger has failed for another reason.
module _ (gh : GitHub) (api : DispatchRequest → ℕ → Response) (interrupted : ℕ → Bool)
    (stopped : Bool) (resolver : Resolver) (r : Ref) where
  -- Trigger for the task, on behalf of its instance
  pub trigger_task : TaskCtx → Instance → Dispatch.Run
  trigger_task t inst =
      trigger (api (dispatch_request (new_dispatcher gh).gh t inst)) interrupted (new_dispatcher gh)

  -- HandleTask up to its first wait
  pub start_dispatched : Daemon → Daemon × Stage
  unfolding trigger_task
  start_dispatched d = elim (resolve (d.world.heap r).instance_name resolver) [
    | none ↦ start resolver (trigger_err stopped) r d
    | some e ↦ start resolver (result_of stopped (trigger_task (d.world.heap r) e.inst).ending) r d
  ]

  -- The task waits for its runner and holds its slot, and nothing has been sent to its instance.
  pub record IsDispatched (e : InstanceEntry) (d : Daemon) (out : Daemon × Stage) : Type 0 where
    pub waits : out.1 ≡ waiting_runner e
    pub status : (out.0.world.heap r).status ≡ dispatched
    pub quiet : out.0.world.sent ≡ d.world.sent
    pub slot : out.0.pool ≡ d.pool

  -- HandleTask has returned its slot, the store and the sessions have forgotten the task, and the owner
  -- has been sent a failure report, or nothing if the context had ended.
  pub record IsAbandoned (aborted : Bool) (e : InstanceEntry) (d : Daemon) (out : Daemon × Stage)
      : Type 0 where
    pub ended : out.1 ≡ returned
    pub reported : out.0.world.sent ≡ (
        if aborted
        then d.world.sent
        else task_update e.inst.name (failure_update_request (d.world.heap r).id) ∷ d.world.sent)
    pub no_task : lookup (d.world.heap r).id out.0.world.store.tasks ≡ none
    pub no_session : lookup (d.world.heap r).session_token out.0.world.sessions ≡ none
    pub slot : out.0.pool ≡ release d.pool
