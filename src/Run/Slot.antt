-- ===== src/Run/Slot.antt =====
-- internal/run/runner.go: HandleTask gives its slot back once.
use forgery.Base.{◌≡◌, refl, ap, arith, List, [], ◌∷◌, inl, inr, Option-cases, str_eq}
use forgery.Task.{Ref}
use forgery.Slots.{Pool, release}
use forgery.North.{InstanceEntry, Resolver, resolve}
use forgery.World.{World}
use forgery.Run.{
  TriggerResult, trigger_ok, trigger_err, Daemon, Stage, waiting_runner, waiting_end, returned,
  Wake, done, registered, timed_out, cancelled, start, start_triggered, shut_down, phase_1, phase_2,
  wake, handle, handle_task,
}

-- The pool of a HandleTask that still waits is the one it was called with; one that has returned has
-- given back one slot.
abbrev pub pool_after : Stage → Pool → Pool
pool_after (waiting_runner e) p = p
pool_after waiting_end p = p
pool_after returned p = release p

start_triggered-pool :
    (r : Ref) (e : InstanceEntry) (triggered : TriggerResult) (d : Daemon)
    → (start_triggered r e triggered d).0.pool
      ≡ pool_after (start_triggered r e triggered d).1 d.pool
unfolding start_triggered
start_triggered-pool r e trigger_ok d = refl
start_triggered-pool r e (trigger_err aborted) d = refl

pub start-pool :
    (resolver : Resolver) (triggered : TriggerResult) (r : Ref) (d : Daemon)
    → (start resolver triggered r d).0.pool ≡ pool_after (start resolver triggered r d).1 d.pool
unfolding start start_triggered
start-pool resolver triggered r d =
    elim (Option-cases (resolve (d.world.heap r).instance_name resolver)) [
      | inl missing ↦ rw (missing, start) refl
      | inr (e, found) ↦ rw (found, start) (start_triggered-pool r e triggered d)
    ]

pub wake-pool :
    (r : Ref) (stage : Stage) (k : Wake) (d : Daemon) (p : Pool)
    → d.pool ≡ pool_after stage p
    → (wake r stage k d).0.pool ≡ pool_after (wake r stage k d).1 p
unfolding wake phase_1 phase_2 shut_down
wake-pool r (waiting_runner e) done d p h = ap release h
wake-pool r (waiting_runner e) registered d p h = h
wake-pool r (waiting_runner e) (timed_out aborted) d p h = ap release h
wake-pool r (waiting_runner e) cancelled d p h = ground arith
wake-pool r waiting_end done d p h = ap release h
wake-pool r waiting_end registered d p h = h
wake-pool r waiting_end (timed_out aborted) d p h = h
wake-pool r waiting_end cancelled d p h = ap release h
wake-pool r returned k d p h = h

pub wake-returned : (r : Ref) (k : Wake) (d : Daemon) → wake r returned k d ≡ (d, returned)
unfolding wake
wake-returned r k d = refl

-- A HandleTask that has not returned.
abbrev pub IsWaiting : Stage → Type 0
IsWaiting (waiting_runner e) = Unit
IsWaiting waiting_end = Unit
IsWaiting returned = ⊥

pub wake-done :
    (r : Ref) (stage : Stage) (d : Daemon)
    → IsWaiting stage
    → wake r stage done d ≡ (record d { pool = release d.pool }, returned)
unfolding wake phase_1 phase_2
wake-done r (waiting_runner e) d h = refl
wake-done r waiting_end d h = refl
wake-done r returned d h = absurd h

handle-pool :
    (r : Ref) (d : Daemon) (stage : Stage) (wakes : List ((World → World) × Wake)) (p : Pool)
    → d.pool ≡ pool_after stage p
    → (handle r (d, stage) wakes).0.pool ≡ pool_after (handle r (d, stage) wakes).1 p
unfolding handle
handle-pool r d stage [] p h = h
handle-pool r d stage ((others, k) ∷ rest) p h =
    let next = wake r stage k (record d { world = others d.world }) in
    handle-pool r next.0 next.1 rest p
      (wake-pool r stage k (record d { world = others d.world }) p h)

-- Whatever the dispatch gives, whatever HandleTask wakes up for and whatever the other goroutines
-- do to the shared state meanwhile: it holds its slot while it waits, and has released it exactly
-- once when it has returned.
pub handle_task-pool :
    (resolver : Resolver) (triggered : TriggerResult) (r : Ref) (d : Daemon)
    (wakes : List ((World → World) × Wake))
    → (handle_task resolver triggered r d wakes).0.pool
      ≡ pool_after (handle_task resolver triggered r d wakes).1 d.pool
unfolding handle_task
handle_task-pool resolver triggered r d wakes =
    let s = start resolver triggered r d in
    handle-pool r s.0 s.1 wakes d.pool (start-pool resolver triggered r d)
