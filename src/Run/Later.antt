-- ===== src/Run/Later.antt =====
-- internal/run/runner.go: HandleTask undoes nothing, and a task that it leaves in the store has a
-- runner that registered.
use forgery.Base.{
  ◌≡◌, refl, arith, inl, inr, Bool, true, false, Option-cases, Bool-cases, nat_eq, eq_refl, ◌==◌, ℕ,
}
use forgery.Task.{Ref, mark_dispatched, is_closed}
use forgery.North.{Resolver, InstanceEntry, resolve}
use forgery.World.{World}
use forgery.World.Later.{
  IsLater, IsKeyed, Stores, IsLater-refl, IsLater-trans, IsLater-IsKeyed, aside-IsLater,
  drop-IsLater, modify-IsLater, dropped,
}
use forgery.Run.{
  TriggerResult, trigger_ok, trigger_err, Daemon, Stage, waiting_runner, waiting_end, returned,
  Wake, done, registered, timed_out, cancelled, is_ready, start, start_triggered, shut_down,
  phase_1, phase_2, wake, report_failure, drop_session, drop_task, open_channels,
}

-- What HandleTask promises at a stage, if the store holds its task.
abbrev pub HasRunner : World → Ref → Stage → Type 0
HasRunner w r (waiting_runner e) = Unit
HasRunner w r waiting_end = is_closed (w.heap r).registered ≡ true
HasRunner w r returned = is_closed (w.heap r).registered ≡ true

-- A part of HandleTask undoes nothing, and keeps the promise of the stage it comes to.
abbrev pub Leaves : Ref → World → Daemon × Stage → Type 0
Leaves r w (d, stage) =
    IsLater w d.world × ((id : ℕ) → Stores d.world id r → HasRunner d.world r stage)

module _ (r : Ref) where
  -- a dropped task is not in the store
  gone :
      (w : World) (stage : Stage) (id : ℕ)
      → IsKeyed w
      → Stores (drop_task r w) id r
      → HasRunner (drop_task r w) r stage
  gone w stage id keyed h =
      let other : (r == r) ≡ false = dropped w r (w.heap r).id id r refl keyed h in
      let same : (r == r) ≡ true = eq_refl r in absurd (cc)

  drop_session-IsLater : (w : World) → IsLater w (drop_session r w)
  drop_session-IsLater w = aside-IsLater w _ w.entries w.sent

  report_failure-IsLater :
      (aborted : Bool) (e : InstanceEntry) (w : World) → IsLater w (report_failure aborted e r w)
  report_failure-IsLater aborted e w = aside-IsLater w w.sessions w.entries _

  -- what HandleTask does when it gives its task up
  given_up :
      (w u : World)
      → IsLater w u
      → IsKeyed w
      → IsLater w (drop_task r u)
        × ((id : ℕ) → Stores (drop_task r u) id r → HasRunner (drop_task r u) r returned)
  given_up w u later keyed = (
    IsLater-trans w u _ later (drop-IsLater u (u.heap r).id),
    λ id h. gone u returned id (IsLater-IsKeyed w u later keyed) h,
  )

  start_triggered-Leaves :
      (triggered : TriggerResult) (e : InstanceEntry) (d : Daemon)
      → IsKeyed d.world
      → Leaves r d.world (start_triggered r e triggered d)
  unfolding start_triggered
  start_triggered-Leaves trigger_ok e d keyed = (
    IsLater-trans _ _ _
        (modify-IsLater d.world r mark_dispatched (λ t. refl) (λ t h. h) (λ t h. h) (λ t h. h))
        (modify-IsLater _ r open_channels (λ t. refl) (λ t h. ground arith) (λ t h. ground arith)
          (λ t h. ground arith)),
    λ id h. record {},
  )
  start_triggered-Leaves (trigger_err aborted) e d keyed =
      given_up d.world (drop_session r (report_failure aborted e r d.world))
        (IsLater-trans _ _ _ (report_failure-IsLater aborted e d.world) (drop_session-IsLater _))
        keyed

  pub start-Leaves :
      (resolver : Resolver) (triggered : TriggerResult) (d : Daemon)
      → IsKeyed d.world
      → Leaves r d.world (start resolver triggered r d)
  unfolding start
  start-Leaves resolver triggered d keyed =
      elim (Option-cases (resolve (d.world.heap r).instance_name resolver)) [
        | inl missing ↦
            rw (missing, start)
              (
                IsLater-trans _ _ _ (drop-IsLater d.world _) (drop_session-IsLater _),
                λ id h. gone d.world returned id keyed h,
              )
        | inr (e, found) ↦ rw (found, start) (start_triggered-Leaves triggered e d keyed)
      ]

  shut_down-Leaves : (d : Daemon) → IsKeyed d.world → Leaves r d.world (shut_down r d, returned)
  unfolding shut_down
  shut_down-Leaves d keyed = elim (Bool-cases (is_closed (d.world.heap r).registered)) [
    | inl connected ↦ rw connected (IsLater-refl d.world, λ id h. connected)
    | inr alone ↦
        rw alone (given_up d.world (drop_session r d.world) (drop_session-IsLater d.world) keyed)
  ]

  module _ (d : Daemon) (keyed : IsKeyed d.world)
      (goes_on : (id : ℕ) → Stores d.world id r → is_closed (d.world.heap r).done ≡ false) where
    -- A task that is over is not in the store.
    over :
        (stage : Stage) (id : ℕ)
        → is_closed (d.world.heap r).done ≡ true
        → Stores d.world id r
        → HasRunner d.world r stage
    over stage id ended h = let open_still = goes_on id h in absurd (cc)

    pub wake-Leaves :
        (stage : Stage) (k : Wake)
        → is_ready k (d.world.heap r) ≡ true
        → ((id : ℕ) → Stores d.world id r → HasRunner d.world r stage)
        → Leaves r d.world (wake r stage k d)
    unfolding wake phase_1 phase_2
    wake-Leaves (waiting_runner e) done ready old =
        (IsLater-refl d.world, λ id h. over returned id ready h)
    wake-Leaves (waiting_runner e) registered ready old = (IsLater-refl d.world, λ id h. ready)
    wake-Leaves (waiting_runner e) (timed_out aborted) ready old =
        given_up d.world (drop_session r (report_failure aborted e r d.world))
          (IsLater-trans _ _ _ (report_failure-IsLater aborted e d.world) (drop_session-IsLater _))
          keyed
    wake-Leaves (waiting_runner e) cancelled ready old = shut_down-Leaves d keyed
    wake-Leaves waiting_end done ready old =
        (IsLater-refl d.world, λ id h. over returned id ready h)
    wake-Leaves waiting_end registered ready old = (IsLater-refl d.world, old)
    wake-Leaves waiting_end (timed_out aborted) ready old = (IsLater-refl d.world, old)
    wake-Leaves waiting_end cancelled ready old = (IsLater-refl d.world, old)
    wake-Leaves returned k ready old = (IsLater-refl d.world, old)

  shut_down_lem :
      (d : Daemon)
      → ((shut_down r d).world.heap ≡ d.world.heap)
        × ((id : ℕ) (q : Ref) → Stores (shut_down r d).world id q → Stores d.world id q)
  unfolding shut_down
  shut_down_lem d = elim (Bool-cases (is_closed (d.world.heap r).registered)) [
    | inl connected ↦ rw connected (refl, λ id q h. h)
    | inr alone ↦
        rw alone (refl, (drop-IsLater (drop_session r d.world) (d.world.heap r).id).stored)
  ]

  -- A HandleTask that finds its context cancelled returns, with the contexts as they were and no task
  -- more in the store.
  wake_cancelled_lem :
      (stage : Stage) (d : Daemon)
      → ((wake r stage cancelled d).1 ≡ returned)
        × ((wake r stage cancelled d).0.world.heap ≡ d.world.heap)
        × ((id : ℕ) (q : Ref)
            → Stores (wake r stage cancelled d).0.world id q
            → Stores d.world id q)
  unfolding wake phase_1 phase_2
  wake_cancelled_lem (waiting_runner e) d = let (same, sub) = shut_down_lem d in (refl, same, sub)
  wake_cancelled_lem waiting_end d = (refl, refl, λ id q h. h)
  wake_cancelled_lem returned d = (refl, refl, λ id q h. h)
