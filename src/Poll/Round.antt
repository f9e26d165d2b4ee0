-- ===== src/Poll/Round.antt =====
-- internal/north/poller.go: the slot that a round takes, and the task that it stores.
use forgery.Base.{
  ℕ, Str, false, [], ◌≡◌, refl, ap, sym, subst, ◌∙◌, arith, Bool, Option, none, some, List, lookup,
  nat_eq, ◌==◌, eq_refl, str_eq, inl, inr, Bool-cases, if◌then◌else◌,
}
use forgery.Proto
use forgery.Task.{Ref, TaskCtx, pending, is_closed}
use forgery.Token.{made, generate, failed, Generated}
use forgery.Store.{get_by_reg_token}
use forgery.Store.Index.{IsValid, get_by_reg_token-put_pending}
use forgery.World.{World}
use forgery.Slots.{Pool, Acquired, holds, cancelled, blocks, acquire, release}
use forgery.Config.{Instance}
use forgery.Run.{Daemon}
use forgery.Poll.{
  Fetched, fetch_error, no_task, got_task, RoundEnd, stops, delivered, task_ctx, store_task,
  poll_token, poll_fetched, poll_slot, poll_round,
}

-- A round that has a slot keeps it for the task it delivers, and gives it back otherwise.
abbrev pub pool_after : RoundEnd → Pool → Pool
pool_after (delivered r) p = p
pool_after _ p = release p

-- The context of a task that has just been fetched from an instance: it carries the task, the instance's
-- name and token lifetime, waits to be dispatched, and neither its runner nor its end has come.
pub record IsFetchedContext (inst : Instance) (t : Proto.Task) (token : Str) (now : ℕ) (c : TaskCtx)
    : Type 0 where
  pub id : c.id ≡ t.id
  pub task : c.task ≡ some t
  pub instance_name : c.instance_name ≡ inst.name
  pub reg_token : c.reg_token ≡ token
  pub reg_token_ttl : c.reg_token_ttl ≡ inst.reg_token_ttl
  pub created_at : c.created_at ≡ now
  pub status : c.status ≡ pending
  pub no_session : c.session_token ≡ []
  pub open_still : is_closed c.done ≡ false
  pub alone : is_closed c.registered ≡ false

module _ (inst : Instance) (rand : ℕ → Option (List ℕ)) (now : ℕ) (r : Ref)
    (interrupted sent : Bool) where
  poll_token-pool :
      (t : Proto.Task) (g : Generated Str) (d : Daemon)
      → (poll_token inst rand now r interrupted sent t g d).0.pool
        ≡ pool_after (poll_token inst rand now r interrupted sent t g d).1 d.pool
  unfolding poll_token
  poll_token-pool t (failed e) d = ground arith
  poll_token-pool t (made token) d = ground arith

  pub poll_fetched-pool :
      (f : Fetched) (d : Daemon)
      → (poll_fetched inst rand now r interrupted sent f d).0.pool
        ≡ pool_after (poll_fetched inst rand now r interrupted sent f d).1 d.pool
  unfolding poll_fetched
  poll_fetched-pool fetch_error d = ground arith
  poll_fetched-pool no_task d = ground arith
  poll_fetched-pool (got_task t) d = poll_token-pool t (generate rand) d

  poll_slot-unheld :
      (others : Daemon → Daemon) (f : Fetched) (a : Acquired) (d : Daemon)
      → ((p : Pool) → ¬ (a ≡ holds p))
      → (poll_slot inst rand now r interrupted sent others f a d).0 ≡ d
  unfolding poll_slot
  poll_slot-unheld others f (holds p) d h = absurd (h p refl)
  poll_slot-unheld others f cancelled d h = refl
  poll_slot-unheld others f blocks d h = refl

  -- A round that gets no slot changes nothing. One that gets a slot keeps it exactly if it delivers a
  -- task, and otherwise gives it back once, whatever other goroutines do meanwhile.
  pub poll_round-pool :
      (pick ctx_done : Bool) (others : Daemon → Daemon) (f : Fetched) (d : Daemon)
      → ((p : Pool)
          → acquire pick ctx_done d.pool ≡ holds p
          → (poll_round inst rand now r interrupted sent pick ctx_done others f d).0.pool
            ≡ pool_after
                (poll_round inst rand now r interrupted sent pick ctx_done others f d).1
                (others (record d { pool = p })).pool)
        × (((p : Pool) → ¬ (acquire pick ctx_done d.pool ≡ holds p))
            → (poll_round inst rand now r interrupted sent pick ctx_done others f d).0 ≡ d)
  unfolding poll_round
  poll_round-pool pick ctx_done others f d = (
    λ p h. rw (h, poll_slot) (poll_fetched-pool f (others (record d { pool = p }))),
    λ none_held. poll_slot-unheld others f (acquire pick ctx_done d.pool) d none_held,
  )

  store_task-finds :
      (t : Proto.Task) (reg_token : Str) (w : World)
      → IsValid w.store
      → lookup t.id w.store.tasks ≡ none
      → (get_by_reg_token reg_token
            (store_task inst rand now r interrupted sent t reg_token w).store
          ≡ some r)
        × ((store_task inst rand now r interrupted sent t reg_token w).heap r
            ≡ task_ctx inst rand now r interrupted sent t reg_token)
  store_task-finds t reg_token w v fresh =
      let new = (store_task inst rand now r interrupted sent t reg_token w).heap in
      let here : new r ≡ task_ctx inst rand now r interrupted sent t reg_token =
        simp eq_refl refl in
      (
        get_by_reg_token-put_pending new r reg_token w.store
              (ap (λ c. lookup c.id w.store.tasks) here ∙ fresh) v
            ∙ ap
                (λ c.
                  if c.reg_token == reg_token then some r else get_by_reg_token reg_token w.store)
                here
            ∙ simp eq_refl refl,
        here,
      )

  task_ctx-IsFetchedContext :
      (t : Proto.Task) (reg_token : Str)
      → IsFetchedContext inst t reg_token now
          (task_ctx inst rand now r interrupted sent t reg_token)
  task_ctx-IsFetchedContext t reg_token = record {
    id = refl;
    task = refl;
    instance_name = refl;
    reg_token = refl;
    reg_token_ttl = refl;
    created_at = refl;
    status = refl;
    no_session = refl;
    open_still = refl;
    alone = refl;
  }

  -- Where a task is fetched and a registration token generated, and no stored task has the task's id:
  -- the token leads to a pending context that carries the task, its instance's name and the time, with
  -- no session, no runner and no end yet, and the round delivers this context or, where the channel was not ready before the shutdown, returns with the
  -- task still in the store.
  pub poll_fetched-stores :
      (t : Proto.Task) (reg_token : Str) (d : Daemon)
      → generate rand ≡ made reg_token
      → IsValid d.world.store
      → lookup t.id d.world.store.tasks ≡ none
      → (get_by_reg_token reg_token
            (poll_fetched inst rand now r interrupted sent (got_task t) d).0.world.store
          ≡ some r)
        × IsFetchedContext inst t reg_token now
            ((poll_fetched inst rand now r interrupted sent (got_task t) d).0.world.heap r)
        × ((poll_fetched inst rand now r interrupted sent (got_task t) d).1
            ≡ (if sent then delivered r else stops))
  unfolding poll_fetched poll_token
  poll_fetched-stores t reg_token d h v fresh =
      let found = store_task-finds t reg_token d.world v fresh in
      let context =
        subst (IsFetchedContext inst t reg_token now) (sym found.1)
          (task_ctx-IsFetchedContext t reg_token) in
      elim (Bool-cases sent) [
        | inl out ↦ rw (h, out) (found.0, context, refl)
        | inr lost ↦ rw (h, lost) (found.0, context, refl)
      ]
