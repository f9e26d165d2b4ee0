-- ===== src/System/Progress.antt =====
-- The end of a task in the whole daemon: what a final result and the garbage collection set free.
use forgery.Base.{
  ℕ, ℤ, Bool, Str, ◌≡◌, refl, sym, ap, subst, ◌∙◌, true, some, lookup, str_eq, nat_eq, eq_refl,
}
use forgery.Proto.{UpdateTaskRequest, Result, ok, err, panicked, is_final}
use forgery.Task.{Ref, Heap, is_closed}
use forgery.Slots.{release}
use forgery.Session.{Session, is_silent}
use forgery.Session.Expiry.{IsValid}
use forgery.North.{Resolver, IsNamed}
use forgery.World.Issue.{new_world}
use forgery.World.{World}
use forgery.South.{Headers, authenticate, update_task}
use forgery.South.Terminal.{update_task-EndsTask}
use forgery.Run.{Stage, returned, done, wake, is_ready}
use forgery.Run.Slot.{IsWaiting, wake-done}
use forgery.App.Reap.{gc_once_lem}
use forgery.System.{
  Call, updates, collects, perform, apart, handled, SystemState, moved, Step, calls, wakes, Reach,
  next,
}
use forgery.System.Owners.{IsPlaced, start-Invariant}
use forgery.System.Tracked.{Reach-IsTracked, start-IsTracked}
use forgery.System.Ended.{Reach-IsOver}

-- the task of an authenticated session
task_of : Result Session × World → Ref
task_of (ok s, w) = s.task_ctx
task_of (err e, w) = 0
task_of (panicked, w) = 0

module _ (resolver : Resolver) where
  -- the state after a call
  abbrev pub called : Call → SystemState → SystemState
  called c s = record s { daemon = record s.daemon { world = perform resolver c s.daemon.world } }

  -- The done channel of the task is closed, and the HandleTask of the task, which waits for it, can take
  -- a step for that reason: it returns, releases its slot, and changes nothing else of the shared state.
  pub record IsFreed (r : Ref) (s : SystemState) : Type 0 where
    pub stage : Stage
    pub waits : s.phase r ≡ handled stage
    pub ready : is_ready done (s.daemon.world.heap r) ≡ true
    pub step : Step resolver s (moved r (wake r stage done s.daemon) s)
    pub returns : (moved r (wake r stage done s.daemon) s).phase r ≡ handled returned
    pub frees :
        (moved r (wake r stage done s.daemon) s).daemon
        ≡ record s.daemon { pool = release s.daemon.pool }

  closed-IsFreed :
      (s : SystemState) (r : Ref) (stage : Stage)
      → s.phase r ≡ handled stage
      → IsWaiting stage
      → is_closed (s.daemon.world.heap r).done ≡ true
      → IsFreed r s
  closed-IsFreed s r stage h waiting ended =
      let woken = wake-done r stage s.daemon waiting in
      record {
        stage = stage;
        waits = h;
        ready = ended;
        step = wakes r stage done h ended refl;
        returns = rw (eq_refl r) (ap (λ o. handled o.1) woken);
        frees = ap (λ o. o.0) woken;
      }

  -- In a daemon that has started with no task: once UpdateTask has accepted a final result for the task of
  -- a session, while the HandleTask of this task is at work, then in every later state, whatever the parts
  -- of the daemon have done meanwhile, a HandleTask of the task that still waits finds the done channel
  -- closed. This wakes it up, with no timeout and no shutdown: it can return at once, which releases its
  -- slot and changes nothing else.
  pub update_task-IsFreed :
      (named : IsNamed resolver) {first s u : SystemState} (h : Heap) (now : ℕ) (hd : Headers)
      (req : UpdateTaskRequest) (resp : Str) (x : Session) (v : World) (working stage : Stage)
      → first.daemon.world ≡ new_world h
      → first.issued.made ≡ 0
      → ((r : Ref) → first.phase r ≡ apart)
      → Reach resolver first s
      → (update_task resolver now hd req s.daemon.world).0 ≡ ok resp
      → is_final req.result ≡ true
      → authenticate now hd s.daemon.world ≡ (ok x, v)
      → s.phase x.task_ctx ≡ handled working
      → Reach resolver (called (updates now hd req) s) u
      → u.phase x.task_ctx ≡ handled stage
      → IsWaiting stage
      → IsFreed x.task_ctx u
  unfolding task_of
  update_task-IsFreed named {first} {s} {u} h now hd req resp x v working stage started none_yet
        idle before accepted final known at_work later waits waiting =
      let (y, v', known', ends) =
        update_task-EndsTask resolver now hd req s.daemon.world resp accepted final in
      let over : is_closed ((update_task resolver now hd req s.daemon.world).1.heap x.task_ctx).done
          ≡ true =
        subst
          (λ r. is_closed ((update_task resolver now hd req s.daemon.world).1.heap r).done ≡ true)
          (ap task_of (sym known' ∙ known)) (ap is_closed ends.done) in
      let (placed, tracked) =
        Reach-IsTracked resolver named (next before (calls (updates now hd req) refl))
          (start-Invariant resolver named first h started none_yet idle)
          (start-IsTracked resolver named first h started) in
      let issued = subst (IsPlaced s.issued x.task_ctx) at_work (placed.1 x.task_ctx) in
      closed-IsFreed u x.task_ctx stage waits waiting
        (Reach-IsOver resolver named x.task_ctx later placed tracked (issued.0, over)).1

  -- gcOnce, when it drops the session of the task, frees the HandleTask too.
  pub gc_once-IsFreed :
      (s : SystemState) (aborted : Session → Bool) (now : ℕ) (max_age : ℤ) (token : Str)
      (x : Session) (stage : Stage)
      → IsValid s.daemon.world.sessions
      → lookup token s.daemon.world.sessions ≡ some x
      → is_silent now max_age x ≡ true
      → s.phase x.task_ctx ≡ handled stage
      → IsWaiting stage
      → IsFreed x.task_ctx (called (collects aborted now max_age) s)
  gc_once-IsFreed s aborted now max_age token x stage v found silent h waiting =
      closed-IsFreed (called (collects aborted now max_age) s) x.task_ctx stage h waiting (
        ap is_closed
          ((gc_once_lem resolver aborted now max_age s.daemon.world token x v found).0
            silent).1.done)
