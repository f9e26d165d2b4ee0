-- ===== src/System.antt =====
-- The daemon as a whole: pollers, HandleTask goroutines, the calls of runners, the proxy and the garbage
-- collection act on one shared state, in any order. Each step is a call, a part of a poll round or a part
-- of HandleTask between two waits.
pub mod Owners
pub mod Counts
pub mod Capacity
pub mod Progress
pub mod Tracked
pub mod Ended
pub mod Shutdown
use forgery.Base.{ℕ, suc, ℤ, Str, ◌≡◌, Bool, true, Option, List, ◌==◌, nat_eq, if◌then◌else◌}
use forgery.Proto.{UpdateTaskRequest, UpdateLogRequest}
use forgery.Task.{Ref}
use forgery.Session.{Session}
use forgery.Slots.{Pool, Acquired, holds, acquire}
use forgery.Config.{Instance}
use forgery.Payload.{Yaml}
use forgery.North.{Resolver}
use forgery.World.{World}
use forgery.World.Routed.{Issued}
use forgery.South
use forgery.South.{Headers, RegisterRequest}
use forgery.Proxy.{Target, serve_http}
use forgery.Run.{TriggerResult, Daemon, Stage, Wake, start, wake, is_ready}
use forgery.Poll.{Fetched, RoundEnd, goes_on, stops, waits, delivered, poll_fetched}
use forgery.Poll.Invariant.{issued_after}
use forgery.App.{gc_once}

-- one request to the daemon, or one tick of gcLoop
pub data Call : Type 0 where
  registers : (rand : ℕ → Option (List ℕ)) → ℕ → RegisterRequest → Call
  declares : ℕ → Headers → List Str → Call
  fetches : Yaml → ℕ → Headers → Call
  updates : ℕ → Headers → UpdateTaskRequest → Call
  logs : ℕ → Headers → UpdateLogRequest → Call
  proxies :
      (decode : Str → Option Str) (parse : Str → Option Target) → ℕ → (path header : Str) → Call
  collects : (Session → Bool) → ℕ → ℤ → Call

-- what it does to the shared state
abbrev pub perform : Resolver → Call → World → World
perform resolver (registers rand now req) w = (South.register rand now req w).1
perform resolver (declares now hd labels) w = (South.declare now hd labels w).1
perform resolver (fetches yaml now hd) w = (South.fetch_task yaml resolver now hd w).1
perform resolver (updates now hd req) w = (South.update_task resolver now hd req w).1
perform resolver (logs now hd req) w = (South.update_log resolver now hd req w).1
perform resolver (proxies decode parse now path header) w =
    (serve_http decode parse resolver now path header w).1
perform resolver (collects aborted now max_age) w = gc_once resolver aborted now max_age w

-- Where a task stands: not handed to the run layer, in the task channel, or with its HandleTask.
pub data Phase : Type 0 where
  apart queued : Phase
  handled : Stage → Phase

-- `fetching` pollers hold a slot and wait for their answer.
pub record SystemState : Type 0 where
  pub daemon : Daemon
  pub issued : Issued
  pub fetching : ℕ
  pub phase : Ref → Phase

abbrev pub put : (Ref → Phase) → Ref → Phase → Ref → Phase
put f r p q = if r == q then p else f q

abbrev pub deliver : RoundEnd → (Ref → Phase) → Ref → Phase
deliver (delivered r) f = put f r queued
deliver goes_on f = f
deliver stops f = f
deliver waits f = f

abbrev pub polled : ℕ → Issued → Daemon × RoundEnd → SystemState → SystemState
polled n issued (d, end) s = record {
  daemon = d;
  issued = issued;
  fetching = n;
  phase = deliver end s.phase;
}

abbrev pub moved : Ref → Daemon × Stage → SystemState → SystemState
moved r (d, stage) s = record s { daemon = d; phase = put s.phase r (handled stage) }

module _ (resolver : Resolver) where
  pub data Step (s t : SystemState) : Type 0 where
    calls :
        (c : Call)
        → t ≡ record s { daemon = record s.daemon { world = perform resolver c s.daemon.world } }
        → Step s t
    takes_slot :
        (pick ctx_done : Bool) (p : Pool)
        → acquire pick ctx_done s.daemon.pool ≡ holds p
        → t ≡ record s { daemon = record s.daemon { pool = p }; fetching = suc s.fetching }
        → Step s t
    polls :
        (inst : Instance) (rand : ℕ → Option (List ℕ)) (now : ℕ) (interrupted sent : Bool)
        (f : Fetched) (n : ℕ)
        → s.fetching ≡ suc n
        → t
          ≡ polled n
              (issued_after inst rand now interrupted sent s.issued f)
              (poll_fetched inst rand now s.issued.made interrupted sent f s.daemon)
              s
        → Step s t
    starts :
        (r : Ref) (triggered : TriggerResult)
        → s.phase r ≡ queued
        → t ≡ moved r (start resolver triggered r s.daemon) s
        → Step s t
    wakes :
        (r : Ref) (stage : Stage) (k : Wake)
        → s.phase r ≡ handled stage
        → is_ready k (s.daemon.world.heap r) ≡ true
        → t ≡ moved r (wake r stage k s.daemon) s
        → Step s t

  pub data Reach (s : SystemState) : SystemState → Type 0 where
    here : Reach s s
    next : {t u : SystemState} → Reach s t → Step t u → Reach s u
