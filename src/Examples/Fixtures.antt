-- ===== src/Examples/Fixtures.antt =====
-- Two tasks of two Forgejo instances, and a daemon that has just stored the first.
use forgery.Base.{ℕ, text, pos, false, nat_eq, ◌==◌, Option, some, List, [], ◌∷◌, if◌then◌else◌}
use forgery.Proto
use forgery.Proto.{Result, ok}
use forgery.Task.{TaskCtx, Heap, pending, absent}
use forgery.Store.{MemStore}
use forgery.Config.{Instance}
use forgery.North.{Resolver, InstanceEntry}
use forgery.World.{World}
use forgery.South.{Headers, RegisterRequest}

abbrev pub task_message : Proto.Task
task_message = record {
  id = 7;
  workflow_payload = text "jobs: {}";
  context = some ((text "token", Proto.string_value (text "t0")) ∷ []);
  secrets = [];
  unread = [];
}

abbrev pub first_task : TaskCtx
first_task = record {
  id = 7;
  instance_name = text "one";
  task = some task_message;
  reg_token = text "r1";
  reg_token_ttl = pos 900;
  created_at = 100;
  status = pending;
  session_token = [];
  done = absent;
  registered = absent;
}

-- the same id, from another instance
abbrev pub second_task : TaskCtx
second_task = record first_task { instance_name = text "two"; reg_token = text "r2" }

abbrev pub heap : Heap
heap r = if r == 0 then first_task else second_task

abbrev pub one_task : MemStore
one_task = record { tasks = (7, 0) ∷ []; by_reg = (text "r1", 7) ∷ [] }

abbrev pub instance_one : Instance
instance_one = record {
  name = text "one";
  forgejo_url = text "https://one";
  forgejo_runner_token = text "secret";
  forgejo_runner_name = text "forgery";
  forgejo_runner_labels = text "docker" ∷ [];
  poll_interval = pos 3;
  reg_token_ttl = pos 900;
  ga_startup_timeout = pos 900;
  heartbeat_interval = pos 30;
  tls_insecure_skip_verify = false;
}

abbrev pub first_entry : InstanceEntry
first_entry = record {
  inst = instance_one;
  client = record {
    forward_update_task = λ n req. ok (text "updated");
    forward_update_log = λ n req. ok (text "logged");
  };
}

abbrev pub resolver : Resolver
resolver = (text "one", first_entry) ∷ []

abbrev pub world : World
world = record { heap = heap; store = one_task; sessions = []; entries = []; sent = [] }

abbrev pub bytes : ℕ → Option (List ℕ)
bytes n = some (0 ∷ 255 ∷ [])

abbrev pub headers : Headers
headers = record { x_runner_token = text "r1"; x_runner_uuid = []; authorization = [] }

abbrev pub register_request : RegisterRequest
register_request = record { token = text "r1"; name = text "runner"; labels = [] }
