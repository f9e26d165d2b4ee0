-- ===== src/South/Terminal.antt =====
-- internal/south/handler.go: registration, and what a terminal update leaves behind.
use forgery.Base.{
  ℕ, Str, ◌≡◌, refl, subst, inl, inr, arith, true, ◌==◌, nat_eq, str_eq, none, lookup, Option-cases,
  Bool-cases, eq_refl,
}
use forgery.Proto.{UpdateTaskRequest, Result, ok, err, panicked, is_final}
use forgery.Task.{terminal, closed}
use forgery.Store.Index.{lookup-remove_self}
use forgery.Session.Expiry.{lookup-remove}
use forgery.Session.{Session}
use forgery.North.{Resolver, resolve}
use forgery.World.{World, send_task_update}
use forgery.South.{
  Headers, with_session, authenticate, finish, after_reply, update_session, update_task,
}

-- The state after a terminal update for a session.
pub record IsFinished (s : Session) (id : ℕ) (w : World) : Type 0 where
  pub status : (w.heap s.task_ctx).status ≡ terminal
  pub done : (w.heap s.task_ctx).done ≡ closed
  pub no_session : lookup s.session_token w.sessions ≡ none
  pub no_task : lookup id w.store.tasks ≡ none

finish_heap : (s : Session) (w : World) → ((finish s w).heap s.task_ctx).id ≡ (w.heap s.task_ctx).id
unfolding finish
finish_heap s w = ground (arith, eq_refl s.task_ctx)

finish-IsFinished : (s : Session) (w : World) → IsFinished s (w.heap s.task_ctx).id (finish s w)
unfolding finish
finish-IsFinished s w = record {
  status = ground (arith, eq_refl s.task_ctx);
  done = ground (arith, eq_refl s.task_ctx);
  no_session =
      ground
        (arith, lookup-remove s.session_token s.session_token w.sessions, eq_refl s.session_token);
  no_task =
      subst (λ i. lookup i (finish s w).store.tasks ≡ none) (finish_heap s w)
        (lookup-remove_self _ w.store);
}

module _ (resolver : Resolver) where
  after_reply-IsFinished :
      (req : UpdateTaskRequest) (s : Session) (out : Result Str × World) (resp : Str)
      → (after_reply resolver req s out).0 ≡ ok resp
      → is_final req.result ≡ true
      → IsFinished s (out.1.heap s.task_ctx).id (after_reply resolver req s out).1
  after_reply-IsFinished req s (ok r, w) resp h final = rw final (finish-IsFinished s w)
  after_reply-IsFinished req s (err e, w) resp h final = cc
  after_reply-IsFinished req s (panicked, w) resp h final = cc

  update_session-IsFinished :
      (req : UpdateTaskRequest) (s : Session) (v : World) (resp : Str)
      → (update_session resolver req s v).0 ≡ ok resp
      → is_final req.result ≡ true
      → IsFinished s (v.heap s.task_ctx).id (update_session resolver req s v).1
  unfolding update_session
  update_session-IsFinished req s v resp h final =
      elim (Bool-cases (req.state_id == (v.heap s.task_ctx).id)) [
        | inr other ↦ absurd (ground arith)
        | inl same ↦ elim (Option-cases (resolve (v.heap s.task_ctx).instance_name resolver)) [
          | inl missing ↦ absurd (ground arith)
          | inr (e, found) ↦
              rw (same, found, update_session)
                (after_reply-IsFinished req s (send_task_update e req v) resp
                  (rw (same, found, update_session) at h) final)
        ]
      ]

  -- The call of an authenticated session ended its task.
  abbrev pub EndsTask : ℕ → Headers → World → World → Type 0
  EndsTask now hd w out =
      (s : Session) × (v : World) × (authenticate now hd w ≡ (ok s, v))
      × IsFinished s (v.heap s.task_ctx).id out

  with_session-EndsTask :
      (now : ℕ) (hd : Headers) (req : UpdateTaskRequest) (w : World) (resp : Str)
      (a : Result Session × World)
      → authenticate now hd w ≡ a
      → (with_session a (update_session resolver req)).0 ≡ ok resp
      → is_final req.result ≡ true
      → EndsTask now hd w (with_session a (update_session resolver req)).1
  with_session-EndsTask now hd req w resp (ok s, v) e h final =
      (s, v, e, update_session-IsFinished req s v resp h final)
  with_session-EndsTask now hd req w resp (err x, v) e h final = cc
  with_session-EndsTask now hd req w resp (panicked, v) e h final = cc

  -- Once UpdateTask has answered a final result, the task of the session is terminal with its done
  -- channel closed, and the session and the store's entry for the task are gone.
  pub update_task-EndsTask :
      (now : ℕ) (hd : Headers) (req : UpdateTaskRequest) (w : World) (resp : Str)
      → (update_task resolver now hd req w).0 ≡ ok resp
      → is_final req.result ≡ true
      → EndsTask now hd w (update_task resolver now hd req w).1
  unfolding update_task
  update_task-EndsTask now hd req w resp h final =
      with_session-EndsTask now hd req w resp (authenticate now hd w) refl h final
