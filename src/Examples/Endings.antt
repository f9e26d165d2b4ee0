-- ===== src/Examples/Endings.antt =====
-- A dispatched task whose one-job runner comes with the registration token and reports success.
use forgery.Base.{text, refl, ◌≡◌, [], nat_eq, str_eq, lookup, insert}
use forgery.Proto.{ok}
use forgery.Session.{Session, new_manager, create_with_token}
use forgery.Store.{get_by_reg_token, mark_reg_token_consumed, put_pending}
use forgery.Token.{generate, encode_to_string}
use forgery.Poll.{poll_fetched}
use forgery.Run.{start, waiting_runner}
use forgery.South.{Headers, authenticate, session_token_from_request, update_task}
use forgery.South.Auth.{one_job_session}
use forgery.System.{SystemState, updates, calls, here, next}
use forgery.System.Progress.{IsFreed, called, update_task-IsFreed}
use forgery.Examples.Fixtures.{resolver, first_entry}
use forgery.Examples.Runners.{final_update}
use forgery.Examples.Daemons.{heap, resolver-IsNamed}
use forgery.Examples.Shutdowns.{dispatched_task, run}

abbrev one_job : Headers
one_job = record { x_runner_token = text "00ff"; x_runner_uuid = []; authorization = [] }

abbrev one_job_runner : Session
one_job_runner = one_job_session 200 (text "00ff") 0

-- the final result, and the same request once more
abbrev reported : SystemState
reported = called resolver (updates 200 one_job final_update) dispatched_task

abbrev repeated : SystemState
repeated = called resolver (updates 300 one_job final_update) reported

accepted :
    (update_task resolver 200 one_job final_update dispatched_task.daemon.world).0
    ≡ ok (text "updated")
unfolding update_task authenticate session_token_from_request start lookup poll_fetched generate
    new_manager get_by_reg_token put_pending insert encode_to_string mark_reg_token_consumed
    create_with_token
accepted = refl

let_in :
    authenticate 200 one_job dispatched_task.daemon.world
    ≡ (ok one_job_runner, (authenticate 200 one_job dispatched_task.daemon.world).1)
unfolding authenticate session_token_from_request start lookup poll_fetched generate new_manager
    get_by_reg_token put_pending insert encode_to_string mark_reg_token_consumed create_with_token
let_in = refl

update_task-IsFreed_example : IsFreed resolver 0 repeated
unfolding start lookup poll_fetched generate
update_task-IsFreed_example =
    update_task-IsFreed resolver resolver-IsNamed heap 200 one_job final_update (text "updated")
      one_job_runner (authenticate 200 one_job dispatched_task.daemon.world).1
      (waiting_runner first_entry) (waiting_runner first_entry) refl refl (λ r. refl) run accepted
      refl let_in refl (next here (calls (updates 300 one_job final_update) refl)) refl (record {})
