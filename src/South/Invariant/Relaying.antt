-- ===== src/South/Invariant/Relaying.antt =====
-- internal/south/handler.go: UpdateTask and UpdateLog keep what ties the shared state together.
use forgery.Base.{
  ℕ, ◌<◌, Str, ◌≡◌, refl, sym, ◌∙◌, inl, inr, some, nat_eq, str_eq, ◌==◌, eq_iff, Option-cases,
  Bool-cases,
}
use forgery.Proto.{UpdateTaskRequest, UpdateLogRequest, Result, ok, err, panicked, is_final}
use forgery.Task.{Ref}
use forgery.Session.{Session}
use forgery.North.{IsNamed, Resolver, Sent, InstanceEntry, resolve, task_update, log_update}
use forgery.World.{World, send_task_update}
use forgery.World.Routed.{Issued, IsRouted, IsOwned, sent_id, sent_to, relay}
use forgery.South.{
  Headers, authenticate, update_session, after_reply, update_task, log_session, update_log,
}
use forgery.South.Invariant.{with_session-IsRouted, authenticate-LetsIn, finish-IsRouted}

module _ (issued : Issued) (resolver : Resolver) (named : IsNamed resolver) where
  -- a request for the task of a context goes to the instance of the context
  owned :
      (r : Ref) (w : World) (e : InstanceEntry) (x : Sent)
      → r < issued.made
      → resolve (w.heap r).instance_name resolver ≡ some e
      → sent_id x ≡ (w.heap r).id
      → sent_to x ≡ e.inst.name
      → IsRouted issued w
      → IsOwned issued x
  owned r w e x known found same_id same_name v = record {
    task = r;
    known = known;
    same_id = sym (v.contexts r known).0 ∙ sym same_id;
    same_instance = sym (v.contexts r known).1 ∙ sym (same_name ∙ named _ e found);
  }

  after_reply-IsRouted :
      (req : UpdateTaskRequest) (s : Session) (out : Result Str × World)
      → IsRouted issued out.1
      → IsRouted issued (after_reply resolver req s out).1
  after_reply-IsRouted req s (ok resp, w) v = elim (Bool-cases (is_final req.result)) [
    | inl final ↦ rw final (finish-IsRouted issued s w v)
    | inr goes_on ↦ rw goes_on v
  ]
  after_reply-IsRouted req s (err e, w) v = v
  after_reply-IsRouted req s (panicked, w) v = v

  update_session-IsRouted :
      (req : UpdateTaskRequest) (s : Session) (w : World)
      → s.task_ctx < issued.made
      → IsRouted issued w
      → IsRouted issued (update_session resolver req s w).1
  unfolding update_session
  update_session-IsRouted req s w known v =
      elim (Bool-cases (req.state_id == (w.heap s.task_ctx).id)) [
        | inr other ↦ rw (other, update_session) v
        | inl same ↦ elim (Option-cases (resolve (w.heap s.task_ctx).instance_name resolver)) [
          | inl missing ↦ rw (same, missing, update_session) v
          | inr (e, found) ↦
              rw (same, found, update_session)
                (after_reply-IsRouted req s (send_task_update e req w) (
                  relay issued w v (task_update e.inst.name req) (
                    owned s.task_ctx w e (task_update e.inst.name req) known found
                      ((eq_iff _ _).0 same) refl v)))
        ]
      ]

  log_session-IsRouted :
      (req : UpdateLogRequest) (s : Session) (w : World)
      → s.task_ctx < issued.made
      → IsRouted issued w
      → IsRouted issued (log_session resolver req s w).1
  unfolding log_session
  log_session-IsRouted req s w known v = elim (Bool-cases (req.task_id == (w.heap s.task_ctx).id)) [
    | inr other ↦ rw (other, log_session) v
    | inl same ↦ elim (Option-cases (resolve (w.heap s.task_ctx).instance_name resolver)) [
      | inl missing ↦ rw (same, missing, log_session) v
      | inr (e, found) ↦
          rw (same, found, log_session)
            (relay issued w v (log_update e.inst.name req) (
              owned s.task_ctx w e (log_update e.inst.name req) known found ((eq_iff _ _).0 same)
                refl v))
    ]
  ]

  pub update_task-IsRouted :
      (now : ℕ) (hd : Headers) (req : UpdateTaskRequest) (w : World)
      → IsRouted issued w
      → IsRouted issued (update_task resolver now hd req w).1
  unfolding update_task
  update_task-IsRouted now hd req w v =
      with_session-IsRouted issued (authenticate now hd w) (update_session resolver req)
        (authenticate-LetsIn issued now hd w v) (update_session-IsRouted req)

  pub update_log-IsRouted :
      (now : ℕ) (hd : Headers) (req : UpdateLogRequest) (w : World)
      → IsRouted issued w
      → IsRouted issued (update_log resolver now hd req w).1
  unfolding update_log
  update_log-IsRouted now hd req w v =
      with_session-IsRouted issued (authenticate now hd w) (log_session resolver req)
        (authenticate-LetsIn issued now hd w v) (log_session-IsRouted req)
