-- ===== src/South.antt =====
-- internal/south/handler.go: the five calls of an internal runner. A call is one step on the shared
-- state, under one reading of the clock.
pub mod Auth
pub mod Invariant
pub mod Calls
pub mod Terminal
pub mod Registration
pub mod Routing
pub mod Later
pub mod Server
pub mod Forwarding
use forgery.Base.{
  ℕ, Str, text, Bool, true, not, ◌==◌, nat_eq, str_eq, Option, none, some, List, [], lookup, insert,
  is_empty, cut_prefix, exceeds, if◌then◌else◌,
}
use forgery.Proto.{
  Task, Runner, UpdateTaskRequest, UpdateLogRequest, Code, unauthenticated, invalid_argument,
  internal, Message, literal, task_id_mismatch, unknown_instance, Result, ok, err, panicked,
  is_final, get_string_value,
}
use forgery.Task.{Ref, TaskCtx, terminal, set_status, mark_done, mark_runner_registered}
use forgery.Store
use forgery.Store.{MemStore, get_by_reg_token, mark_reg_token_consumed}
use forgery.Session
use forgery.Session.{Session, Manager, create, create_with_token, touch}
use forgery.Payload.{Yaml, rewrite_workflow_payload}
use forgery.North.{InstanceEntry, Resolver, resolve}
use forgery.World.{World, modify, send_task_update, send_log_update}
use forgery.Registry.{put_task_tokens}

pub record Headers : Type 0 where
  pub x_runner_token : Str
  pub x_runner_uuid : Str
  pub authorization : Str

pub record RegisterRequest : Type 0 where
  pub token : Str
  pub name : Str
  pub labels : List Str

abbrev pub refused {ℓ} : {A : Type ℓ} → Code → Message → Result A
refused code message = err (record { code = code; message = message })

abbrev pub invalid_session : Message
invalid_session = literal (text "invalid session token")

abbrev pub token_expired : Message
token_expired = literal (text "registration token expired")

abbrev pub token_consumed : Message
token_consumed = literal (text "registration token already consumed")

unfoldable pub session_token_from_request : Headers → Option Str
session_token_from_request hd =
    if not (is_empty hd.x_runner_token)
    then some hd.x_runner_token
    else if not (is_empty hd.x_runner_uuid)
    then some hd.x_runner_uuid
    else cut_prefix hd.authorization (text "Bearer ")

abbrev pub is_reg_token_expired : TaskCtx → ℕ → Bool
is_reg_token_expired t now = exceeds now t.created_at t.reg_token_ttl

abbrev runner_of : ℕ → Session → Str → Runner
runner_of id s name = record {
  id = id;
  uuid = s.session_token;
  token = s.session_token;
  name = name;
  ephemeral = true;
  labels = s.labels;
}

module _ (rand : ℕ → Option (List ℕ)) (now : ℕ) (req : RegisterRequest) where
  -- Register, once the token is consumed
  register_session : Ref → World → Result Runner × World
  register_session r w = elim (create rand r req.name req.labels now w.heap w.sessions) [
    | none ↦ (panicked, w)
    | some (s, h, m) ↦ (
      ok (runner_of (w.heap r).id s req.name),
      modify r mark_runner_registered (record w { heap = h; sessions = m }),
    )
  ]

  register_task : Ref → World → Result Runner × World
  unfolding register_session
  register_task r w =
      if is_reg_token_expired (w.heap r) now
      then (refused unauthenticated token_expired, w)
      else let (won, st) = mark_reg_token_consumed req.token w.store in
        let w' = record w { store = st } in
        if won then register_session r w' else (refused unauthenticated token_consumed, w')

  unfoldable pub register : World → Result Runner × World
  unfolding register_task
  register w = elim (get_by_reg_token req.token w.store) [
    | none ↦ (refused unauthenticated (literal (text "invalid registration token")), w)
    | some r ↦ register_task r w
  ]

module _ (now : ℕ) (token : Str) where
  -- the one-job path, once the registration token is consumed: it becomes the session token
  adopt : Ref → World → Result Session × World
  adopt r w =
      let (s, h, m) = create_with_token r token [] [] now w.heap w.sessions in
      (
        ok s,
        modify r mark_runner_registered (record w { heap = h; sessions = (touch token now m).1 }),
      )

  adopt_task : Ref → World → Result Session × World
  unfolding adopt
  adopt_task r w =
      if is_reg_token_expired (w.heap r) now
      then (refused unauthenticated token_expired, w)
      else let (won, st) = mark_reg_token_consumed token w.store in
        let w' = record w { store = st } in
        if won then adopt r w' else (refused unauthenticated token_consumed, w')

  -- the session under the token, with the time of its last activity refreshed
  resume : Session → World → Result Session × World
  resume s w =
      let (found, m) = touch token now w.sessions in
      if found
      then (ok (record s { last_activity = now }), record w { sessions = m })
      else (refused unauthenticated invalid_session, w)

  authenticate_token : World → Result Session × World
  unfolding adopt_task resume
  authenticate_token w = elim (lookup token w.sessions) [
    | some s ↦ resume s w
    | none ↦ elim (get_by_reg_token token w.store) [
      | none ↦ (refused unauthenticated invalid_session, w)
      | some r ↦ adopt_task r w
    ]
  ]

unfoldable pub authenticate : ℕ → Headers → World → Result Session × World
unfolding authenticate_token
authenticate now hd w = elim (session_token_from_request hd) [
  | none ↦ (refused unauthenticated (literal (text "missing session token")), w)
  | some token ↦ authenticate_token now token w
]

-- The rest of a call, for an authenticated session.
abbrev pub with_session {ℓ} :
    {A : Type ℓ} → Result Session × World → (Session → World → Result A × World) → Result A × World
with_session (ok s, w) k = k s w
with_session (err e, w) k = (err e, w)
with_session (panicked, w) k = (panicked, w)

abbrev default_name : Str → Str
default_name name = if is_empty name then text "one-job-runner" else name

declare_session : List Str → Session → World → Result Runner × World
declare_session labels s w =
    let s' : Session = record s {
      labels = if is_empty labels then s.labels else labels;
      runner_name = default_name s.runner_name;
    } in
    (
      ok (runner_of (w.heap s.task_ctx).id s' s'.runner_name),
      record w { sessions = insert s.session_token s' w.sessions },
    )

pub declare : ℕ → Headers → List Str → World → Result Runner × World
unfolding declare_session
declare now hd labels w = with_session (authenticate now hd w) (declare_session labels)

pub repository_from_context : Option Task → Str
repository_from_context none = []
repository_from_context (some task) = elim task.context [
  | none ↦ []
  | some fields ↦ get_string_value (lookup (text "repository") fields)
]

module _ (yaml : Yaml) (resolver : Resolver) where
  abbrev adapted : Option InstanceEntry → Option Task → Option Task
  adapted none task = task
  adapted (some e) task =
      rewrite_workflow_payload yaml task e.inst.forgejo_url (repository_from_context task)

  fetch_session : ℕ → Session → World → Result (Option Task) × World
  unfolding repository_from_context
  fetch_session now s w = (
    ok (adapted (resolve (w.heap s.task_ctx).instance_name resolver) (w.heap s.task_ctx).task),
    put_task_tokens s.task_ctx s.session_token now w,
  )

  pub fetch_task : ℕ → Headers → World → Result (Option Task) × World
  unfolding fetch_session
  fetch_task now hd w = with_session (authenticate now hd w) (fetch_session now)

-- the cleanup after a terminal result
pub finish : Session → World → World
finish s w =
    let w' = modify s.task_ctx mark_done (modify s.task_ctx (set_status terminal) w) in
    record w' {
      sessions = Session.remove s.session_token w'.sessions;
      store = Store.remove (w'.heap s.task_ctx).id w'.store;
    }

module _ (resolver : Resolver) where
  abbrev after_reply : UpdateTaskRequest → Session → Result Str × World → Result Str × World
  after_reply req s (ok resp, w) = (ok resp, if is_final req.result then finish s w else w)
  after_reply req s (err e, w) = (err e, w)
  after_reply req s (panicked, w) = (panicked, w)

  update_session : UpdateTaskRequest → Session → World → Result Str × World
  unfolding finish
  update_session req s w =
      let t = w.heap s.task_ctx in
      if not (req.state_id == t.id)
      then (refused invalid_argument (task_id_mismatch t.id req.state_id), w)
      else elim (resolve t.instance_name resolver) [
        | none ↦ (refused internal (unknown_instance req.state_id t.instance_name), w)
        | some e ↦ after_reply req s (send_task_update e req w)
      ]

  unfoldable pub update_task : ℕ → Headers → UpdateTaskRequest → World → Result Str × World
  unfolding update_session
  update_task now hd req w = with_session (authenticate now hd w) (update_session req)

  log_session : UpdateLogRequest → Session → World → Result Str × World
  log_session req s w =
      let t = w.heap s.task_ctx in
      if not (req.task_id == t.id)
      then (refused invalid_argument (task_id_mismatch t.id req.task_id), w)
      else elim (resolve t.instance_name resolver) [
        | none ↦ (refused internal (unknown_instance t.id t.instance_name), w)
        | some e ↦ send_log_update e req w
      ]

  pub update_log : ℕ → Headers → UpdateLogRequest → World → Result Str × World
  unfolding log_session
  update_log now hd req w = with_session (authenticate now hd w) (log_session req)
