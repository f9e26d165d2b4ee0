-- ===== src/Poll.antt =====
-- internal/north/poller.go: one round of PollLoop. The answer to FetchTask, the choices of its selects
-- and the randomness are arguments; so is what other goroutines do between the slot and the answer.
pub mod Round
pub mod Invariant
pub mod Later
pub mod Fetching
use forgery.Base.{ℕ, Str, [], Bool, Option, some, List, if◌then◌else◌}
use forgery.Proto
use forgery.Task.{Ref, TaskCtx, pending, absent, update}
use forgery.Token.{Generated, made, failed, generate}
use forgery.Store.{put_pending}
use forgery.Slots.{Acquired, holds, cancelled, blocks, acquire, release}
use forgery.Config.{Instance}
use forgery.World.{World}
use forgery.Run.{Daemon}

pub data Fetched : Type 0 where
  fetch_error no_task : Fetched
  got_task : Proto.Task → Fetched

-- How a round ends: the loop goes on, returns, waits for a slot, or has sent a task to the run layer.
pub data RoundEnd : Type 0 where
  goes_on stops waits : RoundEnd
  delivered : Ref → RoundEnd

-- wait: whether the context ended during it
abbrev pub after_wait : Bool → RoundEnd
after_wait interrupted = if interrupted then stops else goes_on

module _ (inst : Instance) (rand : ℕ → Option (List ℕ)) (now : ℕ) (r : Ref)
    (interrupted sent : Bool) where
  abbrev pub task_ctx : Proto.Task → Str → TaskCtx
  task_ctx t reg_token = record {
    id = t.id;
    instance_name = inst.name;
    task = some t;
    reg_token = reg_token;
    reg_token_ttl = inst.reg_token_ttl;
    created_at = now;
    status = pending;
    session_token = [];
    done = absent;
    registered = absent;
  }

  abbrev give_up : Daemon → Daemon × RoundEnd
  give_up d = (record d { pool = release d.pool }, after_wait interrupted)

  -- the new context, at the fresh reference `r`, in the store
  abbrev pub store_task : Proto.Task → Str → World → World
  store_task t reg_token w =
      let h = update w.heap r (λ old. task_ctx t reg_token) in
      record w { heap = h; store = put_pending h r w.store }

  unfoldable pub poll_token : Proto.Task → Generated Str → Daemon → Daemon × RoundEnd
  poll_token t (failed e) d = give_up d
  poll_token t (made reg_token) d =
      let d' = record d { world = store_task t reg_token d.world } in
      if sent then (d', delivered r) else (record d' { pool = release d'.pool }, stops)

  unfoldable pub poll_fetched : Fetched → Daemon → Daemon × RoundEnd
  unfolding poll_token
  poll_fetched fetch_error d = give_up d
  poll_fetched no_task d = give_up d
  poll_fetched (got_task t) d = poll_token t (generate rand) d

  poll_slot : (Daemon → Daemon) → Fetched → Acquired → Daemon → Daemon × RoundEnd
  poll_slot others fetched cancelled d = (d, stops)
  poll_slot others fetched blocks d = (d, waits)
  poll_slot others fetched (holds p) d = poll_fetched fetched (others (record d { pool = p }))

  pub poll_round : (pick ctx_done : Bool) → (Daemon → Daemon) → Fetched → Daemon → Daemon × RoundEnd
  unfolding poll_slot poll_fetched
  poll_round pick ctx_done others fetched d =
      poll_slot others fetched (acquire pick ctx_done d.pool) d
