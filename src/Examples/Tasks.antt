-- ===== src/Examples/Tasks.antt =====
-- HandleTask on the stored task: its runner registers, then the task ends.
use forgery.Base.{◌≡◌, true, false, text, List, [], ◌∷◌}
use forgery.Proto.{ok}
use forgery.North.{InstanceEntry, task_update}
use forgery.World.{World}
use forgery.Run.{
  Daemon, Stage, trigger_ok, Wake, registered, done, timed_out, waiting_runner, wake,
  failure_update_request, handle_task,
}
use forgery.Run.Wakes.{IsForgotten, KeepsOthers, wake_lem}
use forgery.Run.Slot.{pool_after, handle_task-pool}
use forgery.Examples.Fixtures.{world, resolver, instance_one}

abbrev daemon : Daemon
daemon = record { world = world; pool = record { held = 1; capacity = 2 } }

abbrev wakes : List ((World → World) × Wake)
wakes = (λ w. w, registered) ∷ (λ w. w, done) ∷ []

handle_task-pool_example :
    (handle_task resolver trigger_ok 0 daemon wakes).0.pool
    ≡ pool_after (handle_task resolver trigger_ok 0 daemon wakes).1 daemon.pool
handle_task-pool_example = handle_task-pool resolver trigger_ok 0 daemon wakes

abbrev owner : InstanceEntry
owner = record {
  inst = instance_one;
  client = record {
    forward_update_task = λ n req. ok (text "updated");
    forward_update_log = λ n req. ok (text "logged");
  };
}

abbrev timed_out_task : Daemon × Stage
timed_out_task = wake 0 (waiting_runner owner) (timed_out false) daemon

wake_lem_example :
    KeepsOthers 0 daemon timed_out_task
    × (true ≡ true → IsForgotten 0 daemon timed_out_task)
    × (true ≡ false
        → (timed_out_task.0.world.store ≡ daemon.world.store)
          × (timed_out_task.0.world.sessions ≡ daemon.world.sessions))
    × (timed_out_task.0.world.sent ≡ task_update (text "one") (failure_update_request 7) ∷ [])
wake_lem_example = wake_lem 0 owner daemon (timed_out false)
