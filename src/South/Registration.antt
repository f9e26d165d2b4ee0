-- ===== src/South/Registration.antt =====
-- internal/south/handler.go: the Register call.
use forgery.Base.{
  ℕ, Str, text, ◌≡◌, refl, ap, arith, true, false, nat_eq, str_eq, Option, none, some, List, lookup,
  insert, eq_refl, lookup-insert,
}
use forgery.Proto.{Runner, literal, unauthenticated, Result, ok}
use forgery.Task.{Ref, running, closed, mark_runner_registered, set_session_token}
use forgery.Token.{encode_to_string}
use forgery.Store.{get_by_reg_token}
use forgery.Store.Index.{mark_reg_token_consumed_found}
use forgery.Session.{Session, create_with_token}
use forgery.Session.Expiry.{create_made}
use forgery.World.{World, modify}
use forgery.South.Auth.{without_token}
use forgery.South.{
  RegisterRequest, refused, token_expired, is_reg_token_expired, register, register_task,
  register_session,
}

-- What a successful Register leaves: a session under the new token for the task, the task running
-- with its registered channel closed, and the registration token unknown.
pub record IsRegistered (now : ℕ) (req : RegisterRequest) (r : Ref) (token : Str) (w : World)
    : Type 0 where
  pub session :
      lookup token w.sessions
      ≡ some (record {
        session_token = token;
        task_ctx = r;
        runner_name = req.name;
        labels = req.labels;
        last_activity = now;
      })
  pub status : (w.heap r).status ≡ running
  pub registered : (w.heap r).registered ≡ closed
  pub linked : (w.heap r).session_token ≡ token
  pub used_up : get_by_reg_token req.token w.store ≡ none

abbrev one_session : ℕ → RegisterRequest → Ref → Str → Session
one_session now req r token = record {
  session_token = token;
  task_ctx = r;
  runner_name = req.name;
  labels = req.labels;
  last_activity = now;
}

abbrev pub runner_for : RegisterRequest → ℕ → Str → Runner
runner_for req id token = record {
  id = id;
  uuid = token;
  token = token;
  name = req.name;
  ephemeral = true;
  labels = req.labels;
}

-- the state after Register has consumed the token of a live task
abbrev registered_world : ℕ → RegisterRequest → Ref → Str → World → World
registered_world now req r token w = modify r mark_runner_registered (
    modify r (set_session_token token) (record w {
      store = without_token req.token w.store;
      sessions =
          insert token
            (record {
              session_token = token;
              task_ctx = r;
              runner_name = req.name;
              labels = req.labels;
              last_activity = now;
            })
            w.sessions;
    }))

module _ (rand : ℕ → Option (List ℕ)) (now : ℕ) (req : RegisterRequest) (w : World) (r : Ref)
    (raw : List ℕ) where
  register_session_made :
      (v : World)
      → rand 16 ≡ some raw
      → register_session rand now req r v ≡ (
        ok (runner_for req (v.heap r).id (encode_to_string raw)),
        record (registered_world now req r (encode_to_string raw) v) { store = v.store },
      )
  unfolding register_session create_with_token
  register_session_made v given =
      rw (create_made rand r req.name req.labels now raw v.heap v.sessions given, register_session)
        refl

  register_live :
      get_by_reg_token req.token w.store ≡ some r
      → is_reg_token_expired (w.heap r) now ≡ false
      → rand 16 ≡ some raw
      → register rand now req w ≡ (
        ok (runner_for req (w.heap r).id (encode_to_string raw)),
        registered_world now req r (encode_to_string raw) w,
      )
  unfolding register register_task
  register_live found fresh given =
      rw (found, fresh, (mark_reg_token_consumed_found req.token r w.store found).0, register)
        (register_session_made (record w { store = without_token req.token w.store }) given)

registered_world-IsRegistered :
    (now : ℕ) (req : RegisterRequest) (r : Ref) (token : Str) (w : World)
    → get_by_reg_token req.token w.store ≡ some r
    → IsRegistered now req r token (registered_world now req r token w)
registered_world-IsRegistered now req r token w found = record {
  session =
      ground
        (arith, lookup-insert token token (one_session now req r token) w.sessions, eq_refl token);
  status = ground (arith, eq_refl r);
  registered = ground (arith, eq_refl r);
  linked = ground (arith, eq_refl r);
  used_up = (mark_reg_token_consumed_found req.token r w.store found).1;
}

-- Register refuses an unknown and an expired token with nothing changed. For a live token, where
-- randomness is given, it answers with the task's id and a new session token, the session and the
-- task are set up, and the store knows the registration token no longer.
pub register_lem :
    (rand : ℕ → Option (List ℕ)) (now : ℕ) (req : RegisterRequest) (w : World)
    → (get_by_reg_token req.token w.store ≡ none
        → register rand now req w
          ≡ (refused unauthenticated (literal (text "invalid registration token")), w))
      × ((r : Ref)
          → get_by_reg_token req.token w.store ≡ some r
          → (is_reg_token_expired (w.heap r) now ≡ true
              → register rand now req w ≡ (refused unauthenticated token_expired, w))
            × ((raw : List ℕ)
                → is_reg_token_expired (w.heap r) now ≡ false
                → rand 16 ≡ some raw
                → ((register rand now req w).0
                    ≡ ok (runner_for req (w.heap r).id (encode_to_string raw)))
                  × IsRegistered now req r (encode_to_string raw) (register rand now req w).1))
unfolding register register_task
register_lem rand now req w = (
  λ unknown. rw (unknown, register) refl,
  λ r found. (
    λ old. rw (found, old, register) refl,
    λ raw fresh given.
        let e = register_live rand now req w r raw found fresh given in
        (
          ap (λ (o : Result Runner × World). o.0) e,
          rw e (registered_world-IsRegistered now req r (encode_to_string raw) w found),
        ),
  ),
)
