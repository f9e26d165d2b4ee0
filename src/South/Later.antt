-- ===== src/South/Later.antt =====
-- internal/south/handler.go: no call undoes what the shared state never undoes.
use forgery.Base.{
  ℕ, Str, ◌≡◌, refl, subst, inl, inr, Bool, some, Option, List, insert, nat_eq, str_eq, ◌==◌, arith,
  Option-cases, Bool-cases,
}
use forgery.Proto.{UpdateTaskRequest, UpdateLogRequest, Result, ok, err, panicked, is_final}
use forgery.Task.{Ref, mark_runner_registered, set_session_token, mark_done, set_status, terminal}
use forgery.Token.{encode_to_string}
use forgery.Store.{get_by_reg_token, mark_reg_token_consumed}
use forgery.Store.Index.{mark_reg_token_consumed_found}
use forgery.Session.{Session, Manager, create_with_token}
use forgery.Session.Expiry.{create_made, create_lost}
use forgery.North.{Resolver, resolve}
use forgery.World.{World, modify, send_task_update}
use forgery.World.Later.{
  IsLater, IsKeyed, IsLater-refl, IsLater-trans, IsLater-IsKeyed, aside-IsLater, consume-IsLater,
  modify-IsLater, end-IsLater,
}
use forgery.Registry.Later.{put_task_tokens-IsLater}
use forgery.Payload.{Yaml}
use forgery.South.Auth.{Auth, authenticate-Auth, refuses, resumes, adopts, without_token}
use forgery.South.{
  Headers, RegisterRequest, authenticate, with_session, finish, update_session, after_reply,
  update_task, log_session, update_log, register, register_task, register_session,
  is_reg_token_expired, declare, declare_session, fetch_task, fetch_session,
}

-- A runner comes in for a task with a session token.
link-IsLater :
    (r : Ref) (token : Str) (m : Manager) (w : World)
    → IsLater w (
        modify r mark_runner_registered
          (modify r (set_session_token token) (record w { sessions = m })))
link-IsLater r token m w =
    let aside = aside-IsLater w m w.entries w.sent in
    let named =
      modify-IsLater (record w { sessions = m }) r (set_session_token token) (λ t. refl) (λ t h. h)
        (λ t h. h) (λ t h. h) in
    let joined =
      modify-IsLater (modify r (set_session_token token) (record w { sessions = m })) r
        mark_runner_registered (λ t. refl) (λ t h. ground arith) (λ t h. h) (λ t h. h) in
    IsLater-trans _ _ _ aside (IsLater-trans _ _ _ named joined)

without_token-IsLater :
    (token : Str) (r : Ref) (w : World)
    → get_by_reg_token token w.store ≡ some r
    → IsLater w (record w { store = without_token token w.store })
without_token-IsLater token r w found =
    subst (λ (p : Bool × _). IsLater w (record w { store = p.1 }))
      (mark_reg_token_consumed_found token r w.store found).0 (consume-IsLater w token)

Auth-IsLater :
    (now : ℕ) (hd : Headers) (w : World) (out : Result Session × World)
    → Auth now hd w out
    → IsLater w out.1
Auth-IsLater now hd w out (refuses m e) = rw e (IsLater-refl w)
Auth-IsLater now hd w out (resumes token s given known e) =
    rw e (
      aside-IsLater w (insert token (record s { last_activity = now }) w.sessions) w.entries w.sent)
Auth-IsLater now hd w out (adopts token r given new found fresh e) = rw e (
    IsLater-trans _ _ _ (without_token-IsLater token r w found)
      (link-IsLater r token _ (record w { store = without_token token w.store })))

authenticate-IsLater : (now : ℕ) (hd : Headers) (w : World) → IsLater w (authenticate now hd w).1
authenticate-IsLater now hd w =
    Auth-IsLater now hd w (authenticate now hd w) (authenticate-Auth now hd w)

with_session-IsLater {ℓ} :
    {A : Type ℓ} (a : Result Session × World) (k : Session → World → Result A × World) (w : World)
    → IsLater w a.1
    → IsKeyed w
    → ((s : Session) (u : World) → IsKeyed u → IsLater u (k s u).1)
    → IsLater w (with_session a k).1
with_session-IsLater (ok s, u) k w later keyed step =
    IsLater-trans _ _ _ later (step s u (IsLater-IsKeyed w u later keyed))
with_session-IsLater (err e, u) k w later keyed step = later
with_session-IsLater (panicked, u) k w later keyed step = later

finish-IsLater : (s : Session) (w : World) → IsKeyed w → IsLater w (finish s w)
unfolding finish
finish-IsLater s w keyed =
    let stopped =
      modify-IsLater w s.task_ctx (set_status terminal) (λ t. refl) (λ t h. h) (λ t h. h)
        (λ t h. h) in
    IsLater-trans _ _ _ stopped (
      end-IsLater (modify s.task_ctx (set_status terminal) w) s.task_ctx mark_done _
        (IsLater-IsKeyed w _ stopped keyed) (λ t. refl) (λ t h. h) (λ t h. ground arith))

module _ (resolver : Resolver) where
  after_reply-IsLater :
      (req : UpdateTaskRequest) (s : Session) (out : Result Str × World) (w : World)
      → IsLater w out.1
      → IsKeyed w
      → IsLater w (after_reply resolver req s out).1
  after_reply-IsLater req s (ok resp, u) w later keyed = elim (Bool-cases (is_final req.result)) [
    | inl final ↦
        rw final (IsLater-trans _ _ _ later (finish-IsLater s u (IsLater-IsKeyed w u later keyed)))
    | inr goes_on ↦ rw goes_on later
  ]
  after_reply-IsLater req s (err e, u) w later keyed = later
  after_reply-IsLater req s (panicked, u) w later keyed = later

  update_session-IsLater :
      (req : UpdateTaskRequest) (s : Session) (w : World)
      → IsKeyed w
      → IsLater w (update_session resolver req s w).1
  unfolding update_session
  update_session-IsLater req s w keyed =
      elim (Bool-cases (req.state_id == (w.heap s.task_ctx).id)) [
        | inr other ↦ rw (other, update_session) (IsLater-refl w)
        | inl same ↦ elim (Option-cases (resolve (w.heap s.task_ctx).instance_name resolver)) [
          | inl missing ↦ rw (same, missing, update_session) (IsLater-refl w)
          | inr (e, found) ↦
              rw (same, found, update_session)
                (after_reply-IsLater req s (send_task_update e req w) w
                  (aside-IsLater w w.sessions w.entries _) keyed)
        ]
      ]

  log_session-IsLater :
      (req : UpdateLogRequest) (s : Session) (w : World)
      → IsLater w (log_session resolver req s w).1
  unfolding log_session
  log_session-IsLater req s w = elim (Bool-cases (req.task_id == (w.heap s.task_ctx).id)) [
    | inr other ↦ rw (other, log_session) (IsLater-refl w)
    | inl same ↦ elim (Option-cases (resolve (w.heap s.task_ctx).instance_name resolver)) [
      | inl missing ↦ rw (same, missing, log_session) (IsLater-refl w)
      | inr (e, found) ↦ rw (same, found, log_session) (aside-IsLater w w.sessions w.entries _)
    ]
  ]

  pub update_task-IsLater :
      (now : ℕ) (hd : Headers) (req : UpdateTaskRequest) (w : World)
      → IsKeyed w
      → IsLater w (update_task resolver now hd req w).1
  unfolding update_task
  update_task-IsLater now hd req w keyed =
      with_session-IsLater (authenticate now hd w) (update_session resolver req) w
        (authenticate-IsLater now hd w) keyed (update_session-IsLater req)

  pub update_log-IsLater :
      (now : ℕ) (hd : Headers) (req : UpdateLogRequest) (w : World)
      → IsKeyed w
      → IsLater w (update_log resolver now hd req w).1
  unfolding update_log
  update_log-IsLater now hd req w keyed =
      with_session-IsLater (authenticate now hd w) (log_session resolver req) w
        (authenticate-IsLater now hd w) keyed (λ s u k. log_session-IsLater req s u)

  pub fetch_task-IsLater :
      (yaml : Yaml) (now : ℕ) (hd : Headers) (w : World)
      → IsKeyed w
      → IsLater w (fetch_task yaml resolver now hd w).1
  unfolding fetch_task fetch_session
  fetch_task-IsLater yaml now hd w keyed =
      with_session-IsLater (authenticate now hd w) (fetch_session yaml resolver now) w
        (authenticate-IsLater now hd w) keyed
        (λ s u k. put_task_tokens-IsLater s.task_ctx s.session_token now u)

pub declare-IsLater :
    (now : ℕ) (hd : Headers) (labels : List Str) (w : World)
    → IsKeyed w
    → IsLater w (declare now hd labels w).1
unfolding declare declare_session
declare-IsLater now hd labels w keyed =
    with_session-IsLater (authenticate now hd w) (declare_session labels) w
      (authenticate-IsLater now hd w) keyed (λ s u k. aside-IsLater u _ u.entries u.sent)

module _ (rand : ℕ → Option (List ℕ)) (now : ℕ) (req : RegisterRequest) where
  register_session-IsLater : (r : Ref) (w : World) → IsLater w (register_session rand now req r w).1
  unfolding register_session create_with_token
  register_session-IsLater r w = elim (Option-cases (rand 16)) [
    | inl lost ↦
        rw (create_lost rand r req.name req.labels now w.heap w.sessions lost, register_session)
          (IsLater-refl w)
    | inr (raw, given) ↦
        rw
          (create_made rand r req.name req.labels now raw w.heap w.sessions given, register_session)
          (link-IsLater r (encode_to_string raw) _ w)
  ]

  register_task-IsLater : (r : Ref) (w : World) → IsLater w (register_task rand now req r w).1
  unfolding register_task
  register_task-IsLater r w = elim (Bool-cases (is_reg_token_expired (w.heap r) now)) [
    | inl old ↦ rw old (IsLater-refl w)
    | inr fresh ↦ elim (Bool-cases (mark_reg_token_consumed req.token w.store).0) [
      | inl won ↦
          rw (fresh, won)
            (IsLater-trans _ _ _ (consume-IsLater w req.token) (register_session-IsLater r _))
      | inr lost ↦ rw (fresh, lost) (consume-IsLater w req.token)
    ]
  ]

  pub register-IsLater : (w : World) → IsLater w (register rand now req w).1
  unfolding register
  register-IsLater w = elim (Option-cases (get_by_reg_token req.token w.store)) [
    | inl unknown ↦ rw (unknown, register) (IsLater-refl w)
    | inr (r, found) ↦ rw (found, register) (register_task-IsLater r w)
  ]
