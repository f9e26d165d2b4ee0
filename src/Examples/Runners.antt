-- ===== src/Examples/Runners.antt =====
-- A runner's calls on the daemon that has stored one task.
use forgery.Base.{ℕ, text, ◌≡◌, refl, ◌⊎◌, true, false, some, none, List, [], lookup, cut_prefix}
use forgery.Proto.{UpdateTaskRequest, UpdateLogRequest, success, ok, unauthenticated, literal}
use forgery.Task.{Ref}
use forgery.Token.{encode_to_string}
use forgery.Store.{get_by_reg_token, mark_reg_token_consumed}
use forgery.Session.{create_with_token}
use forgery.North.{task_update}
use forgery.South.{
  refused, is_reg_token_expired, session_token_from_request, authenticate, register, update_task,
  token_expired,
}
use forgery.South.Auth.{Auth, authenticate-Auth}
use forgery.South.Calls.{RelaysFor, sent-update_task}
use forgery.South.Terminal.{EndsTask, update_task-EndsTask}
use forgery.South.Registration.{IsRegistered, runner_for, register_lem}
use forgery.Examples.Fixtures.{world, headers, resolver, register_request, bytes}

abbrev pub final_update : UpdateTaskRequest
final_update = record { state_id = 7; result = success; unread = [] }

abbrev log_rows : UpdateLogRequest
log_rows = record { task_id = 7; unread = text "row" }

authenticate-Auth_example : Auth 200 headers world (authenticate 200 headers world)
authenticate-Auth_example = authenticate-Auth 200 headers world

sent-update_task_example :
    ((update_task resolver 200 headers final_update world).1.sent ≡ [])
    ⊎ RelaysFor resolver 200 headers world 7
        (λ name. task_update name final_update)
        (update_task resolver 200 headers final_update world).1.sent
sent-update_task_example = sent-update_task resolver 200 headers final_update world

pub update_task_answers :
    (update_task resolver 200 headers final_update world).0 ≡ ok (text "updated")
unfolding update_task authenticate session_token_from_request lookup cut_prefix get_by_reg_token
    mark_reg_token_consumed create_with_token
update_task_answers = refl

update_task-EndsTask_example :
    EndsTask resolver 200 headers world (update_task resolver 200 headers final_update world).1
update_task-EndsTask_example =
    update_task-EndsTask resolver 200 headers final_update world (text "updated")
      update_task_answers refl

register_lem_example :
    (get_by_reg_token (text "r1") world.store ≡ none
      → register bytes 200 register_request world
        ≡ (refused unauthenticated (literal (text "invalid registration token")), world))
    × ((r : Ref)
        → get_by_reg_token (text "r1") world.store ≡ some r
        → (is_reg_token_expired (world.heap r) 200 ≡ true
            → register bytes 200 register_request world
              ≡ (refused unauthenticated token_expired, world))
          × ((raw : List ℕ)
              → is_reg_token_expired (world.heap r) 200 ≡ false
              → bytes 16 ≡ some raw
              → ((register bytes 200 register_request world).0
                  ≡ ok (runner_for register_request (world.heap r).id (encode_to_string raw)))
                × IsRegistered 200 register_request r
                    (encode_to_string raw)
                    (register bytes 200 register_request world).1))
register_lem_example = register_lem bytes 200 register_request world
