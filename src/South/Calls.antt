-- ===== src/South/Calls.antt =====
-- internal/south/handler.go: what an authenticated call may send to a Forgejo instance.
use forgery.Base.{
  ℕ, Str, ◌≡◌, refl, sym, ap, ◌∙◌, ◌⊎◌, inl, inr, arith, ◌==◌, nat_eq, str_eq, some, List, ◌∷◌,
  Option-cases, Bool-cases, eq_iff,
}
use forgery.Proto.{UpdateTaskRequest, UpdateLogRequest, Result, ok, err, panicked}
use forgery.North.{Sent, task_update, log_update, InstanceEntry, Resolver, resolve}
use forgery.Session.{Session}
use forgery.World.{World, send_task_update}
use forgery.South.{
  Headers, authenticate, with_session, finish, update_session, after_reply, update_task,
  log_session, update_log,
}
use forgery.South.Auth.{Auth, authenticate-Auth, refuses, resumes, adopts}

module _ (now : ℕ) (hd : Headers) (w : World) where
  Auth-sent : (out : Result Session × World) → Auth now hd w out → out.1.sent ≡ w.sent
  Auth-sent out (refuses m e) = ap (λ (o : Result Session × World). o.1.sent) e
  Auth-sent out (resumes token s given known e) = ap (λ (o : Result Session × World). o.1.sent) e
  Auth-sent out (adopts token r given new found fresh e) =
      ap (λ (o : Result Session × World). o.1.sent) e

  -- Authentication itself sends nothing.
  pub sent-authenticate : (authenticate now hd w).1.sent ≡ w.sent
  sent-authenticate = Auth-sent (authenticate now hd w) (authenticate-Auth now hd w)

module _ (resolver : Resolver) where
  -- The request went to the instance that owns the session's task, and it names that task.
  pub record Relays (id : ℕ) (message : Str → Sent) (s : Session) (v : World) (sent : List Sent)
      : Type 0 where
    pub entry : InstanceEntry
    pub owner : resolve (v.heap s.task_ctx).instance_name resolver ≡ some entry
    pub own_task : id ≡ (v.heap s.task_ctx).id
    pub one_more : sent ≡ message entry.inst.name ∷ v.sent

  after_reply_sent :
      (req : UpdateTaskRequest) (s : Session) (out : Result Str × World)
      → (after_reply resolver req s out).1.sent ≡ out.1.sent
  unfolding finish
  after_reply_sent req s (ok resp, w) = ground arith
  after_reply_sent req s (err e, w) = refl
  after_reply_sent req s (panicked, w) = refl

  update_session_sent :
      (req : UpdateTaskRequest) (s : Session) (v : World)
      → ((update_session resolver req s v).1.sent ≡ v.sent)
        ⊎ Relays req.state_id
            (λ name. task_update name req)
            s
            v
            (update_session resolver req s v).1.sent
  unfolding update_session finish
  update_session_sent req s v = elim (Bool-cases (req.state_id == (v.heap s.task_ctx).id)) [
    | inr other ↦ inl (rw (other, update_session) refl)
    | inl same ↦ elim (Option-cases (resolve (v.heap s.task_ctx).instance_name resolver)) [
      | inl missing ↦ inl (rw (same, missing, update_session) refl)
      | inr (e, found) ↦ inr (record {
        entry = e;
        owner = found;
        own_task = (eq_iff _ _).0 same;
        one_more =
            rw (same, found, update_session) (after_reply_sent req s (send_task_update e req v));
      })
    ]
  ]

  log_session_sent :
      (req : UpdateLogRequest) (s : Session) (v : World)
      → ((log_session resolver req s v).1.sent ≡ v.sent)
        ⊎ Relays req.task_id (λ name. log_update name req) s v (log_session resolver req s v).1.sent
  unfolding log_session
  log_session_sent req s v = elim (Bool-cases (req.task_id == (v.heap s.task_ctx).id)) [
    | inr other ↦ inl (rw (other, log_session) refl)
    | inl same ↦ elim (Option-cases (resolve (v.heap s.task_ctx).instance_name resolver)) [
      | inl missing ↦ inl (rw (same, missing, log_session) refl)
      | inr (e, found) ↦ inr (record {
        entry = e;
        owner = found;
        own_task = (eq_iff _ _).0 same;
        one_more = rw (same, found, log_session) refl;
      })
    ]
  ]

  -- The call of an authenticated session relayed its request.
  abbrev pub RelaysFor : ℕ → Headers → World → ℕ → (Str → Sent) → List Sent → Type 0
  RelaysFor now hd w id message sent =
      (s : Session) × (v : World) × (authenticate now hd w ≡ (ok s, v)) × Relays id message s v sent

  with_session_sent :
      (now : ℕ) (hd : Headers) (w : World) (id : ℕ) (message : Str → Sent)
      (k : Session → World → Result Str × World) (a : Result Session × World)
      → authenticate now hd w ≡ a
      → ((s : Session) (v : World)
          → ((k s v).1.sent ≡ v.sent) ⊎ Relays id message s v (k s v).1.sent)
      → ((with_session a k).1.sent ≡ w.sent)
        ⊎ RelaysFor now hd w id message (with_session a k).1.sent
  with_session_sent now hd w id message k (ok s, v) e step = elim (step s v) [
    | inl quiet ↦ inl (
        quiet
        ∙ (ap (λ (o : Result Session × World). o.1.sent) (sym e) ∙ sent-authenticate now hd w))
    | inr relayed ↦ inr (s, v, e, relayed)
  ]
  with_session_sent now hd w id message k (err x, v) e step =
      inl (ap (λ (o : Result Session × World). o.1.sent) (sym e) ∙ sent-authenticate now hd w)
  with_session_sent now hd w id message k (panicked, v) e step =
      inl (ap (λ (o : Result Session × World). o.1.sent) (sym e) ∙ sent-authenticate now hd w)

  -- UpdateTask sends nothing, or it sends just its own request, for the task of the authenticated
  -- session, to the instance that owns this task.
  pub sent-update_task :
      (now : ℕ) (hd : Headers) (req : UpdateTaskRequest) (w : World)
      → ((update_task resolver now hd req w).1.sent ≡ w.sent)
        ⊎ RelaysFor now hd w req.state_id
            (λ name. task_update name req)
            (update_task resolver now hd req w).1.sent
  unfolding update_task
  sent-update_task now hd req w =
      with_session_sent now hd w req.state_id (λ name. task_update name req)
        (update_session resolver req) (authenticate now hd w) refl (update_session_sent req)

  -- UpdateLog sends nothing, or it sends just its own request, for the task of the authenticated
  -- session, to the instance that owns this task.
  pub sent-update_log :
      (now : ℕ) (hd : Headers) (req : UpdateLogRequest) (w : World)
      → ((update_log resolver now hd req w).1.sent ≡ w.sent)
        ⊎ RelaysFor now hd w req.task_id
            (λ name. log_update name req)
            (update_log resolver now hd req w).1.sent
  unfolding update_log
  sent-update_log now hd req w =
      with_session_sent now hd w req.task_id (λ name. log_update name req)
        (log_session resolver req) (authenticate now hd w) refl (log_session_sent req)
