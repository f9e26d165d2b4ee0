-- ===== src/Run.antt =====
-- internal/run/runner.go: the life of one task, from its arrival to the release of its slot. Between
-- two waits HandleTask is one step on the shared state; other goroutines run while it waits.
pub mod Slot
pub mod Invariant
pub mod Dispatched
pub mod Wakes
pub mod Later
use forgery.Base.{ℕ, Str, Bool, true, Option, none, some, List, [], ◌∷◌, if◌then◌else◌}
use forgery.Proto.{UpdateTaskRequest, failure, Result}
use forgery.Task.{
  Ref, TaskCtx, mark_dispatched, done_channel, registered_channel, is_closed, Signal,
}
use forgery.Store
use forgery.Session
use forgery.Slots
use forgery.Slots.{Pool}
use forgery.North.{InstanceEntry, Resolver, resolve}
use forgery.World.{World, modify, send_task_update}

-- the shared state with the pool of slots
pub record Daemon : Type 0 where
  pub world : World
  pub pool : Pool

pub failure_update_request : ℕ → UpdateTaskRequest
failure_update_request task_id = record { state_id = task_id; result = failure; unread = [] }

abbrev pub drop_session : Ref → World → World
drop_session r w = record w { sessions = Session.remove (w.heap r).session_token w.sessions }

abbrev pub drop_task : Ref → World → World
drop_task r w = record w { store = Store.remove (w.heap r).id w.store }

-- A failure report to the owner, under the daemon's context; its reply is not read. `aborted` is whether
-- the context has ended before the request is sent: then it is not sent, and ForwardUpdateTask returns an
-- error.
abbrev pub report_failure : Bool → InstanceEntry → Ref → World → World
report_failure aborted e r w =
    let told = (send_task_update e (failure_update_request (w.heap r).id) w).1 in
    record w { sent = if aborted then w.sent else told.sent }

abbrev release_slot : Daemon → Daemon
release_slot d = record d { pool = Slots.release d.pool }

abbrev on_world : (World → World) → Daemon → Daemon
on_world f d = record d { world = f d.world }

-- Where HandleTask stands: at the selects of its two phases, with its heartbeat running, or returned.
pub data Stage : Type 0 where
  waiting_runner : InstanceEntry → Stage
  waiting_end : Stage
  returned : Stage

-- The select of phase 1 asks for both channels.
abbrev pub open_channels : TaskCtx → TaskCtx
open_channels t = (registered_channel (done_channel t).0).0

-- Trigger's result: no error, or one, with whether the context has ended before the failure report.
pub data TriggerResult : Type 0 where
  trigger_ok : TriggerResult
  trigger_err : (aborted : Bool) → TriggerResult

-- Step 1, once Trigger has returned, to step 3
start_triggered : Ref → InstanceEntry → TriggerResult → Daemon → Daemon × Stage
start_triggered r e trigger_ok d =
    (on_world (λ w. modify r open_channels (modify r mark_dispatched w)) d, waiting_runner e)
start_triggered r e (trigger_err aborted) d = (
  on_world (drop_task r)
      (release_slot (on_world (λ w. drop_session r (report_failure aborted e r w)) d)),
  returned,
)

-- Steps 0 to 3, with Trigger's result
module _ (resolver : Resolver) (triggered : TriggerResult) (r : Ref) where
  unfoldable pub start : Daemon → Daemon × Stage
  unfolding start_triggered
  start d = elim (resolve (d.world.heap r).instance_name resolver) [
    | none ↦ (release_slot (on_world (λ w. drop_session r (drop_task r w)) d), returned)
    | some e ↦ start_triggered r e triggered d
  ]

-- What a select woke up for; at the timeout also whether the context has ended before the failure report,
-- as it has when the shutdown comes at the same time.
pub data Wake : Type 0 where
  done registered cancelled : Wake
  timed_out : (aborted : Bool) → Wake

-- A channel is ready once it is closed; the timer and the cancellation come from outside.
abbrev pub is_ready : Wake → TaskCtx → Bool
is_ready done t = is_closed t.done
is_ready registered t = is_closed t.registered
is_ready (timed_out aborted) t = true
is_ready cancelled t = true

-- the cancellation of phase 1, with its second look at the registered channel
shut_down : Ref → Daemon → Daemon
shut_down r d =
    if is_closed (d.world.heap r).registered
    then release_slot d
    else release_slot (on_world (λ w. drop_task r (drop_session r w)) d)

pub phase_1 : InstanceEntry → Ref → Wake → Daemon → Daemon × Stage
unfolding shut_down
phase_1 e r done d = (release_slot d, returned)
phase_1 e r registered d = (d, waiting_end)
phase_1 e r (timed_out aborted) d = (
  on_world (drop_task r)
      (release_slot (on_world (λ w. drop_session r (report_failure aborted e r w)) d)),
  returned,
)
phase_1 e r cancelled d = (shut_down r d, returned)

-- Phase 2 waits for two channels only; the other wakes do not occur in it.
pub phase_2 : Ref → Wake → Daemon → Daemon × Stage
phase_2 r done d = (release_slot d, returned)
phase_2 r registered d = (d, waiting_end)
phase_2 r (timed_out aborted) d = (d, waiting_end)
phase_2 r cancelled d = (release_slot d, returned)

unfoldable pub wake : Ref → Stage → Wake → Daemon → Daemon × Stage
unfolding phase_1 phase_2
wake r (waiting_runner e) k d = phase_1 e r k d
wake r waiting_end k d = phase_2 r k d
wake r returned k d = (d, returned)

-- HandleTask alone, with what the others do to the state before each wake.
pub handle : Ref → Daemon × Stage → List ((World → World) × Wake) → Daemon × Stage
unfolding wake
handle r (d, stage) [] = (d, stage)
handle r (d, stage) ((others, k) ∷ rest) =
    handle r (wake r stage k (record d { world = others d.world })) rest

pub handle_task :
    Resolver → TriggerResult → Ref → Daemon → List ((World → World) × Wake) → Daemon × Stage
unfolding start handle
handle_task resolver triggered r d wakes = handle r (start resolver triggered r d) wakes
