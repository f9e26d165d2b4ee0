-- ===== src/South/Auth.antt =====
-- internal/south/handler.go: who is let in, and what that changes.
use forgery.Base.{
  ℕ, Str, text, ◌≡◌, refl, inl, inr, false, str_eq, none, some, [], lookup, insert, delete,
  Option-cases, Bool-cases,
}
use forgery.Proto.{Message, literal, unauthenticated, Result, ok}
use forgery.Task.{Ref, TaskCtx, mark_runner_registered, set_session_token}
use forgery.Store.{MemStore, get_by_reg_token}
use forgery.Store.Index.{mark_reg_token_consumed_found}
use forgery.Session.{Session, create_with_token, touch}
use forgery.Session.Expiry.{touch-some}
use forgery.World.{World, modify}
use forgery.South.{
  Headers, refused, invalid_session, token_expired, session_token_from_request,
  is_reg_token_expired, adopt, adopt_task, resume, authenticate_token, authenticate,
}

-- A task context just after its runner has come in with a session token.
abbrev pub registered_task : Str → TaskCtx → TaskCtx
registered_task token t = mark_runner_registered (set_session_token token t)

-- the store without the token
abbrev pub without_token : Str → MemStore → MemStore
without_token token m = record m { by_reg = delete token m.by_reg }

-- the session of a runner that came in with its registration token
abbrev pub one_job_session : ℕ → Str → Ref → Session
one_job_session now token r = record {
  session_token = token;
  task_ctx = r;
  runner_name = [];
  labels = [];
  last_activity = now;
}

-- What `authenticate` may give. A runner is let in by its session, whose clock starts again, or by an
-- unexpired registration token, which is consumed and becomes its session.
pub data Auth (now : ℕ) (hd : Headers) (w : World) (out : Result Session × World) : Type 0 where
  refuses : (m : Message) → out ≡ (refused unauthenticated m, w) → Auth now hd w out
  resumes :
      (token : Str) (s : Session)
      → session_token_from_request hd ≡ some token
      → lookup token w.sessions ≡ some s
      → out ≡ (
        ok (record s { last_activity = now }),
        record w { sessions = insert token (record s { last_activity = now }) w.sessions },
      )
      → Auth now hd w out
  adopts :
      (token : Str) (r : Ref)
      → session_token_from_request hd ≡ some token
      → lookup token w.sessions ≡ none
      → get_by_reg_token token w.store ≡ some r
      → is_reg_token_expired (w.heap r) now ≡ false
      → out ≡ (
        ok (one_job_session now token r),
        modify r mark_runner_registered (
            modify r (set_session_token token) (record w {
              store = without_token token w.store;
              sessions =
                  (touch token now (insert token (one_job_session now token r) w.sessions)).1;
            })),
      )
      → Auth now hd w out

resume_ok :
    (now : ℕ) (token : Str) (s : Session) (w : World)
    → lookup token w.sessions ≡ some s
    → resume now token s w ≡ (
      ok (record s { last_activity = now }),
      record w { sessions = insert token (record s { last_activity = now }) w.sessions },
    )
unfolding resume
resume_ok now token s w e = rw (touch-some token now s w.sessions e) refl

module _ (now : ℕ) (hd : Headers) (w : World) (token : Str)
    (sent : session_token_from_request hd ≡ some token) where
  adopt_task-Auth :
      (r : Ref)
      → lookup token w.sessions ≡ none
      → get_by_reg_token token w.store ≡ some r
      → Auth now hd w (adopt_task now token r w)
  unfolding adopt_task adopt create_with_token
  adopt_task-Auth r new found = elim (Bool-cases (is_reg_token_expired (w.heap r) now)) [
    | inl old ↦ refuses token_expired (rw old refl)
    | inr fresh ↦
        adopts token r sent new found fresh
          (rw (fresh, (mark_reg_token_consumed_found token r w.store found).0) refl)
  ]

  authenticate_token-Auth : Auth now hd w (authenticate_token now token w)
  unfolding authenticate_token
  authenticate_token-Auth = elim (Option-cases (lookup token w.sessions)) [
    | inr (s, known) ↦
        resumes token s sent known (rw (known, authenticate_token) (resume_ok now token s w known))
    | inl new ↦ elim (Option-cases (get_by_reg_token token w.store)) [
      | inl missing ↦ refuses invalid_session (rw (new, missing, authenticate_token) refl)
      | inr (r, found) ↦ rw (new, found, authenticate_token) (adopt_task-Auth r new found)
    ]
  ]

-- Every call is refused with nothing changed, or let in by a session or by an unexpired and unused
-- registration token, with just the changes that `Auth` states.
pub authenticate-Auth : (now : ℕ) (hd : Headers) (w : World) → Auth now hd w (authenticate now hd w)
unfolding authenticate
authenticate-Auth now hd w = elim (Option-cases (session_token_from_request hd)) [
  | inl missing ↦ refuses (literal (text "missing session token")) (rw (missing, authenticate) refl)
  | inr (token, sent) ↦ rw (sent, authenticate) (authenticate_token-Auth now hd w token sent)
]
