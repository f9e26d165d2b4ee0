-- ===== src/App.antt =====
-- internal/app/app.go: the garbage collection of the daemon.
pub mod Reap
pub mod Invariant
pub mod Later
pub mod Startup
pub mod Drain
pub mod Exit
use forgery.Base.{Bool, ℕ, ℤ, List, [], ◌∷◌, Option, none, some}
use forgery.Task.{Ref, mark_done}
use forgery.Store.{gc}
use forgery.Session.{Session, expire}
use forgery.North.{Resolver, InstanceEntry, resolve}
use forgery.World.{World, modify}
use forgery.Run.{report_failure, drop_task}

-- the failure report to the owner, if there is one
abbrev pub report : Bool → Option InstanceEntry → Ref → World → World
report aborted none r w = w
report aborted (some e) r w = report_failure aborted e r w

-- `aborted` is whether the context has ended before the failure report for a session is sent.
module _ (resolver : Resolver) (aborted : Session → Bool) where
  -- one round of the loop over the expired sessions
  pub reap : Session → World → World
  reap s w = drop_task s.task_ctx (
      modify s.task_ctx mark_done
        (report (aborted s) (resolve (w.heap s.task_ctx).instance_name resolver) s.task_ctx w))

  pub reap_all : List Session → World → World
  unfolding reap
  reap_all [] w = w
  reap_all (s ∷ expired) w = reap_all expired (reap s w)

  pub gc_once : ℕ → ℤ → World → World
  unfolding reap_all
  gc_once now max_age w =
      let (expired, m) = expire now max_age w.sessions in
      reap_all expired (record w { store = gc w.heap now w.store; sessions = m })

-- gcLoop, with the ticks until its context ends: the time of each, what the other goroutines do before it,
-- and whether the context ends during its pass.
pub gc_loop : Resolver → ℤ → List (ℕ × (World → World) × (Session → Bool)) → World → World
unfolding gc_once
gc_loop resolver max_age [] w = w
gc_loop resolver max_age ((now, others, aborted) ∷ ticks) w =
    gc_loop resolver max_age ticks (gc_once resolver aborted now max_age (others w))
