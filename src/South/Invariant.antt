-- ===== src/South/Invariant.antt =====
-- internal/south/handler.go: the calls keep what ties the shared state together.
pub mod Relaying
pub mod Runners
use forgery.Base.{
  ℕ, ◌<◌, Str, ◌≡◌, refl, sym, ap, subst, ◌∙◌, inl, inr, arith, true, false, Bool, none, some,
  Option, List, [], ◌∷◌, lookup, insert, nat_eq, str_eq, ◌==◌, eq_iff, eq_refl, lookup-insert,
  Option-cases, Bool-cases,
}
use forgery.Proto.{UpdateTaskRequest, UpdateLogRequest, Result, ok, err, panicked, is_final}
use forgery.Task.{
  Ref, TaskCtx, mark_runner_registered, set_session_token, mark_done, set_status, terminal,
}
use forgery.Token.{encode_to_string}
use forgery.Store.{get_by_reg_token, mark_reg_token_consumed}
use forgery.Store.Index.{mark_reg_token_consumed_found, get_by_reg_token-stored}
use forgery.Session.{Session, create, create_with_token}
use forgery.Session.Expiry.{create_made, create_lost}
use forgery.North.{Resolver, Sent, InstanceEntry, resolve, task_update, log_update}
use forgery.World.{World, modify, send_task_update}
use forgery.World.Routed
use forgery.World.Routed.{
  Issued, IsRouted, IsOwned, modify-IsRouted, consume-IsRouted, insert-IsRouted, touch-IsRouted,
  sent_id, sent_to, drop-IsRouted, forget-IsRouted, relay,
}
use forgery.Registry.Invariant.{put_task_tokens-IsRouted}
use forgery.Payload.{Yaml}
use forgery.South.Auth.{
  Auth, authenticate-Auth, refuses, resumes, adopts, without_token, one_job_session,
}
use forgery.South.{
  Headers, RegisterRequest, authenticate, with_session, finish, update_session, after_reply,
  update_task, log_session, update_log, register, register_task, register_session,
  is_reg_token_expired, declare, declare_session, fetch_task, fetch_session,
}

module _ (issued : Issued) where
  -- a runner that comes in for a task context made so far
  pub link-IsRouted :
      (r : Ref) (token : Str) (w : World)
      → IsRouted issued w
      → IsRouted issued (modify r mark_runner_registered (modify r (set_session_token token) w))
  link-IsRouted r token w v =
      modify-IsRouted issued _
        (modify-IsRouted issued w v r (set_session_token token) (λ t. (refl, refl))) r
        mark_runner_registered (λ t. (refl, refl))

  pub found-known :
      (token : Str) (r : Ref) (w : World)
      → IsRouted issued w
      → get_by_reg_token token w.store ≡ some r
      → r < issued.made
  found-known token r w v found =
      let (id, e) = get_by_reg_token-stored token r w.store found in (v.stored id r e).0

  without_token-IsRouted :
      (token : Str) (r : Ref) (w : World)
      → IsRouted issued w
      → get_by_reg_token token w.store ≡ some r
      → IsRouted issued (record w { store = without_token token w.store })
  without_token-IsRouted token r w v found =
      subst (λ (p : Bool × _). IsRouted issued (record w { store = p.1 }))
        (mark_reg_token_consumed_found token r w.store found).0 (consume-IsRouted issued w v token)

  -- An authenticated session belongs to a task context made so far.
  abbrev pub LetsIn : Result Session × World → Type 0
  LetsIn (ok s, w) = (s.task_ctx < issued.made) × IsRouted issued w
  LetsIn (err e, w) = IsRouted issued w
  LetsIn (panicked, w) = IsRouted issued w

  Auth-LetsIn :
      (now : ℕ) (hd : Headers) (w : World) (out : Result Session × World)
      → IsRouted issued w
      → Auth now hd w out
      → LetsIn out
  Auth-LetsIn now hd w out v (refuses m e) = rw e v
  Auth-LetsIn now hd w out v (resumes token s given known e) = rw e (
    v.held token s known,
    insert-IsRouted issued w v token (record s { last_activity = now })
        (v.sessions_valid.keyed token s known) (v.held token s known),
  )
  Auth-LetsIn now hd w out v (adopts token r given new found fresh e) =
      let k = found-known token r w v found in
      let stocked = without_token-IsRouted token r w v found in
      let held = insert-IsRouted issued _ stocked token (one_job_session now token r) refl k in
      rw e (k, link-IsRouted r token _ (touch-IsRouted issued _ held token now))

  pub authenticate-LetsIn :
      (now : ℕ) (hd : Headers) (w : World) → IsRouted issued w → LetsIn (authenticate now hd w)
  authenticate-LetsIn now hd w v =
      Auth-LetsIn now hd w (authenticate now hd w) v (authenticate-Auth now hd w)

  pub with_session-IsRouted {ℓ} :
      {A : Type ℓ} (a : Result Session × World) (k : Session → World → Result A × World)
      → LetsIn a
      → ((s : Session) (w : World)
          → s.task_ctx < issued.made
          → IsRouted issued w
          → IsRouted issued (k s w).1)
      → IsRouted issued (with_session a k).1
  with_session-IsRouted (ok s, w) k (known, v) step = step s w known v
  with_session-IsRouted (err e, w) k v step = v
  with_session-IsRouted (panicked, w) k v step = v

  pub finish-IsRouted : (s : Session) (w : World) → IsRouted issued w → IsRouted issued (finish s w)
  unfolding finish
  finish-IsRouted s w v =
      let ended =
        modify-IsRouted issued _
          (modify-IsRouted issued w v s.task_ctx (set_status terminal) (λ t. (refl, refl)))
          s.task_ctx mark_done (λ t. (refl, refl)) in
      drop-IsRouted issued _ (forget-IsRouted issued _ ended s.session_token) _
