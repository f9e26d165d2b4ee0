-- ===== src/Examples/Dispatches.antt =====
-- GitHub answers 502, then 204.
use forgery.Base.{ℕ, text, false, [], ◌==◌, nat_eq, str_eq, if◌then◌else◌}
use forgery.Proto.{ok}
use forgery.North.{InstanceEntry}
use forgery.Run.{Daemon, Stage}
use forgery.Run.Dispatched.{trigger_task, start_dispatched}
use forgery.Examples.Fixtures.{world, first_task, instance_one, resolver}
use forgery.Dispatch.{
  GitHub, DispatchRequest, Ending, Response, status, initial_backoff, trigger_with_retry,
}
use forgery.Dispatch.Retries.{IsBounded, trigger_with_retry-IsBounded}

abbrev answers : ℕ → Response
answers n = if n == 0 then status 502 [] else status 204 []

trigger_with_retry-IsBounded_example :
    IsBounded answers 4 0 initial_backoff (trigger_with_retry answers (λ n. false) 3)
trigger_with_retry-IsBounded_example = trigger_with_retry-IsBounded answers (λ n. false) 3

abbrev github : GitHub
github = record {
  token = text "pat";
  repo = text "org/repo";
  workflow_id = text "forgery-runner.yml";
  ref = text "main";
  api_url = text "https://api.github.com";
  public_url = text "https://forgery";
}

-- GitHub refuses the request for the task that the daemon has stored.
abbrev refuses : DispatchRequest → ℕ → Response
refuses req n = status 404 (text "Not Found")

abbrev daemon : Daemon
daemon = record { world = world; pool = record { held = 1; capacity = 1 } }

abbrev owner : InstanceEntry
owner = record {
  inst = instance_one;
  client = record {
    forward_update_task = λ n req. ok (text "updated");
    forward_update_log = λ n req. ok (text "logged");
  };
}

abbrev outcome_of : Ending
outcome_of =
    (trigger_task github refuses (λ n. false) false resolver 0 first_task instance_one).ending

abbrev given_up : Daemon × Stage
given_up = start_dispatched github refuses (λ n. false) false resolver 0 daemon
