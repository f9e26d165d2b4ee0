-- ===== src/Examples/Fetches.antt =====
-- A round of PollLoop whose client the instance no longer knows; the second FetchTask brings a task.
use forgery.Base.{ℕ, text, ◌==◌, nat_eq, false, true, some, Option, if◌then◌else◌}
use forgery.Proto
use forgery.North.Connection.{Reply, reply, rpc_error, RunnerHeaders}
use forgery.North.Service.{RunnerService, alone}
use forgery.Poll.{RoundEnd}
use forgery.Poll.Fetching.{Polling, fetching_round}
use forgery.Examples.Fixtures.{instance_one, task_message, bytes}
use forgery.Examples.Polls.{daemon}
use forgery.Examples.Clients.{client, json, error_text, unknown_runner, grants}

-- the instance rejects the first request and then has a task
abbrev tasks : ℕ → RunnerHeaders → Reply (Option Proto.Task)
tasks n h = if n == 0 then rpc_error unknown_runner else reply (some task_message)

abbrev service : RunnerService
service = record {
  register = grants;
  declare = λ n h m. reply (record {});
  fetch_task = tasks;
  update_task = λ n h m. reply (text "ok");
  update_log = λ n h m. reply (text "ok");
}

abbrev round : Polling × RoundEnd
round =
    fetching_round json error_text instance_one (text "v1") service (alone 100 true) bytes 200 9
      false false false false (λ d. d) (record { client = client; daemon = daemon })
