-- ===== src/South/Invariant/Runners.antt =====
-- internal/south/handler.go: Register, Declare and FetchTask keep what ties the shared state together.
use forgery.Base.{
  ℕ, ◌<◌, Str, refl, inl, inr, Option, List, nat_eq, str_eq, Option-cases, Bool-cases,
}
use forgery.Task.{Ref}
use forgery.Token.{encode_to_string}
use forgery.Store.{get_by_reg_token, mark_reg_token_consumed}
use forgery.Session.{Session, create_with_token}
use forgery.Session.Expiry.{create_made, create_lost}
use forgery.North.{Resolver}
use forgery.World.{World}
use forgery.World.Routed.{Issued, IsRouted, consume-IsRouted, insert-IsRouted}
use forgery.Registry.Invariant.{put_task_tokens-IsRouted}
use forgery.Payload.{Yaml}
use forgery.South.{
  Headers, RegisterRequest, authenticate, register, register_task, register_session,
  is_reg_token_expired, declare, declare_session, fetch_task, fetch_session,
}
use forgery.South.Invariant.{found-known, with_session-IsRouted, authenticate-LetsIn, link-IsRouted}

module _ (issued : Issued) where
  declare_session-IsRouted :
      (labels : List Str) (s : Session) (w : World)
      → s.task_ctx < issued.made
      → IsRouted issued w
      → IsRouted issued (declare_session labels s w).1
  unfolding declare_session
  declare_session-IsRouted labels s w known v =
      insert-IsRouted issued w v s.session_token _ refl known

  pub declare-IsRouted :
      (now : ℕ) (hd : Headers) (labels : List Str) (w : World)
      → IsRouted issued w
      → IsRouted issued (declare now hd labels w).1
  unfolding declare
  declare-IsRouted now hd labels w v =
      with_session-IsRouted issued (authenticate now hd w) (declare_session labels)
        (authenticate-LetsIn issued now hd w v) (declare_session-IsRouted labels)

  pub fetch_task-IsRouted :
      (yaml : Yaml) (resolver : Resolver) (now : ℕ) (hd : Headers) (w : World)
      → IsRouted issued w
      → IsRouted issued (fetch_task yaml resolver now hd w).1
  unfolding fetch_task fetch_session
  fetch_task-IsRouted yaml resolver now hd w v =
      with_session-IsRouted issued (authenticate now hd w) (fetch_session yaml resolver now)
        (authenticate-LetsIn issued now hd w v)
        (λ s u known r. put_task_tokens-IsRouted issued s.task_ctx s.session_token now u known r)

  module _ (rand : ℕ → Option (List ℕ)) (now : ℕ) (req : RegisterRequest) where
    register_session-IsRouted :
        (r : Ref) (w : World)
        → r < issued.made
        → IsRouted issued w
        → IsRouted issued (register_session rand now req r w).1
    unfolding register_session create_with_token
    register_session-IsRouted r w known v = elim (Option-cases (rand 16)) [
      | inl lost ↦
          rw (create_lost rand r req.name req.labels now w.heap w.sessions lost, register_session) v
      | inr (raw, given) ↦
          rw
            (
              create_made rand r req.name req.labels now raw w.heap w.sessions given,
              register_session,
            )
            (link-IsRouted issued r (encode_to_string raw) _
              (insert-IsRouted issued w v (encode_to_string raw) _ refl known))
    ]

    register_task-IsRouted :
        (r : Ref) (w : World)
        → r < issued.made
        → IsRouted issued w
        → IsRouted issued (register_task rand now req r w).1
    unfolding register_task
    register_task-IsRouted r w known v = elim (Bool-cases (is_reg_token_expired (w.heap r) now)) [
      | inl old ↦ rw old v
      | inr fresh ↦ elim (Bool-cases (mark_reg_token_consumed req.token w.store).0) [
        | inl won ↦
            rw (fresh, won)
              (register_session-IsRouted r _ known (consume-IsRouted issued w v req.token))
        | inr lost ↦ rw (fresh, lost) (consume-IsRouted issued w v req.token)
      ]
    ]

    pub register-IsRouted :
        (w : World) → IsRouted issued w → IsRouted issued (register rand now req w).1
    unfolding register
    register-IsRouted w v = elim (Option-cases (get_by_reg_token req.token w.store)) [
      | inl unknown ↦ rw (unknown, register) v
      | inr (r, found) ↦
          rw (found, register)
            (register_task-IsRouted r w (found-known issued req.token r w v found) v)
    ]
