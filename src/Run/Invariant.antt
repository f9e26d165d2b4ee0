-- ===== src/Run/Invariant.antt =====
-- internal/run/runner.go: HandleTask keeps what ties the shared state together.
use forgery.Base.{
  ◌<◌, ◌≡◌, refl, sym, ◌∙◌, inl, inr, Bool, true, false, Option-cases, Bool-cases, str_eq,
}
use forgery.Task.{Ref, mark_dispatched, is_closed}
use forgery.North.{Resolver, InstanceEntry, resolve, task_update, IsNamed}
use forgery.World.{World}
use forgery.World.Routed.{Issued, IsRouted, modify-IsRouted, drop-IsRouted, forget-IsRouted, relay}
use forgery.Run.{
  TriggerResult, trigger_ok, trigger_err, Daemon, Stage, waiting_runner, waiting_end, returned,
  Wake, done, registered, timed_out, cancelled, start, start_triggered, shut_down, phase_1, phase_2,
  wake, report_failure, failure_update_request, drop_session, drop_task, open_channels,
}

-- A HandleTask that waits for its runner has the entry of the instance its task was fetched from.
abbrev pub IsOwner : Issued → Ref → Stage → Type 0
IsOwner issued r (waiting_runner e) = issued.owner r ≡ e.inst.name
IsOwner issued r waiting_end = Unit
IsOwner issued r returned = Unit

module _ (issued : Issued) (r : Ref) (known : r < issued.made) where
  pub report_failure-IsRouted :
      (aborted : Bool) (e : InstanceEntry) (w : World)
      → issued.owner r ≡ e.inst.name
      → IsRouted issued w
      → IsRouted issued (report_failure aborted e r w)
  unfolding failure_update_request
  report_failure-IsRouted true e w own v = v
  report_failure-IsRouted false e w own v =
      relay issued w v (task_update e.inst.name (failure_update_request (w.heap r).id)) (record {
        task = r;
        known = known;
        same_id = sym (v.contexts r known).0;
        same_instance = own;
      })

  leave-IsRouted :
      (w : World) → IsRouted issued w → IsRouted issued (drop_session r (drop_task r w))
  leave-IsRouted w v = forget-IsRouted issued _ (drop-IsRouted issued w v _) _

  start_triggered-IsRouted :
      (triggered : TriggerResult) (e : InstanceEntry) (d : Daemon)
      → issued.owner r ≡ e.inst.name
      → IsRouted issued d.world
      → IsRouted issued (start_triggered r e triggered d).0.world
  unfolding start_triggered
  start_triggered-IsRouted trigger_ok e d own v =
      modify-IsRouted issued _
        (modify-IsRouted issued d.world v r mark_dispatched (λ t. (refl, refl))) r open_channels
        (λ t. (refl, refl))
  start_triggered-IsRouted (trigger_err aborted) e d own v =
      drop-IsRouted issued _
        (forget-IsRouted issued _ (report_failure-IsRouted aborted e d.world own v) _) _

  pub start-IsRouted :
      (resolver : Resolver) (triggered : TriggerResult) (d : Daemon)
      → IsNamed resolver
      → IsRouted issued d.world
      → IsRouted issued (start resolver triggered r d).0.world
  unfolding start
  start-IsRouted resolver triggered d named v =
      elim (Option-cases (resolve (d.world.heap r).instance_name resolver)) [
        | inl missing ↦ rw (missing, start) (leave-IsRouted d.world v)
        | inr (e, found) ↦
            rw (found, start)
              (start_triggered-IsRouted triggered e d
                (sym (v.contexts r known).1 ∙ sym (named _ e found)) v)
      ]

  start_triggered-IsOwner :
      (triggered : TriggerResult) (e : InstanceEntry) (d : Daemon)
      → issued.owner r ≡ e.inst.name
      → IsOwner issued r (start_triggered r e triggered d).1
  unfolding start_triggered
  start_triggered-IsOwner trigger_ok e d own = own
  start_triggered-IsOwner (trigger_err aborted) e d own = record {}

  pub start-IsOwner :
      (resolver : Resolver) (triggered : TriggerResult) (d : Daemon)
      → IsNamed resolver
      → IsRouted issued d.world
      → IsOwner issued r (start resolver triggered r d).1
  unfolding start
  start-IsOwner resolver triggered d named v =
      elim (Option-cases (resolve (d.world.heap r).instance_name resolver)) [
        | inl missing ↦ rw (missing, start) (record {})
        | inr (e, found) ↦
            rw (found, start)
              (start_triggered-IsOwner triggered e d
                (sym (v.contexts r known).1 ∙ sym (named _ e found)))
      ]

  pub wake-IsOwner :
      (stage : Stage) (k : Wake) (d : Daemon)
      → IsOwner issued r stage
      → IsOwner issued r (wake r stage k d).1
  unfolding wake phase_1 phase_2
  wake-IsOwner (waiting_runner e) done d own = record {}
  wake-IsOwner (waiting_runner e) registered d own = record {}
  wake-IsOwner (waiting_runner e) (timed_out aborted) d own = record {}
  wake-IsOwner (waiting_runner e) cancelled d own = record {}
  wake-IsOwner waiting_end done d own = record {}
  wake-IsOwner waiting_end registered d own = record {}
  wake-IsOwner waiting_end (timed_out aborted) d own = record {}
  wake-IsOwner waiting_end cancelled d own = record {}
  wake-IsOwner returned k d own = record {}

  shut_down-IsRouted :
      (d : Daemon) → IsRouted issued d.world → IsRouted issued (shut_down r d).world
  unfolding shut_down
  shut_down-IsRouted d v = elim (Bool-cases (is_closed (d.world.heap r).registered)) [
    | inl connected ↦ rw connected v
    | inr alone ↦ rw alone (drop-IsRouted issued _ (forget-IsRouted issued d.world v _) _)
  ]

  pub wake-IsRouted :
      (stage : Stage) (k : Wake) (d : Daemon)
      → IsOwner issued r stage
      → IsRouted issued d.world
      → IsRouted issued (wake r stage k d).0.world
  unfolding wake phase_1 phase_2
  wake-IsRouted (waiting_runner e) done d own v = v
  wake-IsRouted (waiting_runner e) registered d own v = v
  wake-IsRouted (waiting_runner e) (timed_out aborted) d own v =
      drop-IsRouted issued _
        (forget-IsRouted issued _ (report_failure-IsRouted aborted e d.world own v) _) _
  wake-IsRouted (waiting_runner e) cancelled d own v = shut_down-IsRouted d v
  wake-IsRouted waiting_end done d own v = v
  wake-IsRouted waiting_end registered d own v = v
  wake-IsRouted waiting_end (timed_out aborted) d own v = v
  wake-IsRouted waiting_end cancelled d own v = v
  wake-IsRouted returned k d own v = v
