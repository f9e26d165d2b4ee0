-- ===== src/Examples/Startups.antt =====
-- A daemon of one instance that starts with a saved identity, and its shutdown.
use forgery.Base.{
  false, ◌↔◌, pos, ℕ, text, Str, refl, ◌≡◌, true, Bool, some, none, [], ◌∷◌, nat_eq, ◌==◌, All,
  Dict, lookup, insert, str_eq,
}
use forgery.Config.{Instance, Config, apply_defaults, default_instance_name}
use forgery.State.{Json, Disk, contents, load}
use forgery.North.Connection.{
  ClientState, reply, new, new_from, has_identity, retry_on_auth, after_attempt, after_recovery,
  attempt,
}
use forgery.North.Service.{declare}
use forgery.App.Startup.{
  Network, assembled, assemble, register_instance, start_instance, declare_instance, declared,
}
use forgery.App.Startup.Resolves.{AreNamed, assemble-load}
use forgery.Store.{MemStore}
use forgery.App.Exit.{Environment, main}
use forgery.App.Exit.Codes.{EndsWell, main_iff}
use forgery.App.Drain.{View, Drained, drain_tasks}
use forgery.App.Drain.Ends.{Ends, drain_tasks-Ends}
use forgery.Examples.Fixtures.{instance_one, heap, one_task}
use forgery.Examples.Configs.{platform, sparse, load-sparse}

abbrev view : ℕ → View
view k = record { heap = heap; store = one_task }

abbrev expired : ℕ → Bool
expired k = k == 2

drain_tasks-Ends_example :
    (r : Drained) × (drain_tasks view expired 3 ≡ some r) × Ends view expired 0 2 r
drain_tasks-Ends_example = drain_tasks-Ends view expired 2 refl

abbrev config : Config
config = apply_defaults platform sparse (text "forgery.toml")

abbrev json : Json
json = record {
  unmarshal = λ bytes. some (record {
    version = 1;
    identities = some ((text "https://one", record { uuid = text "u1"; token = text "t1" }) ∷ []);
  });
  marshal = λ f. none;
}

abbrev disk : Disk
disk = contents (text "state")

abbrev network : Network
network = record {
  service = λ name. record {
    register = λ n h m. reply none;
    declare = λ n h m. reply (record {});
    update_task = λ n h m. reply (text "updated");
    update_log = λ n h m. reply (text "logged");
    fetch_task = λ n h. reply none;
  };
  surroundings =
      λ name. record { now = 100; writes = true; before = λ s. s; during = λ s. s; after = λ s. s };
}

abbrev client : ClientState
client = record {
  identity = record { uuid = text "u1"; token = text "t1" };
  generation = 1;
  backoff_next = none;
  backoff_wait = 0;
  disk = disk;
  requests = 1;
}

abbrev clients : Dict Str (Instance × ClientState)
clients = (text "one", (record instance_one { poll_interval = pos 3000000000 }, client)) ∷ []

started :
    assemble json (λ e. []) (text "v1") network config.instances [] disk ≡ assembled clients disk
unfolding assemble start_instance register_instance declare_instance declared new new_from load
    has_identity declare retry_on_auth after_attempt after_recovery attempt apply_defaults
    default_instance_name lookup insert
started = refl

assemble-load_example :
    All
      (λ (i : Instance). (s : ClientState) × (lookup i.name clients ≡ some (i, s)))
      config.instances
    × AreNamed json (λ e. []) (text "v1") network clients
assemble-load_example =
    assemble-load json (λ e. []) (text "v1") network platform (λ path. some (text "file"))
      (λ contents. some (sparse, [])) (text "forgery.toml") config clients disk disk load-sparse
      started

-- The daemon of this instance, whose addresses can be bound, with no task at its end.
abbrev no_task : MemStore
no_task = record { tasks = []; by_reg = [] }

abbrev environment : Environment
environment = record {
  json = json;
  error_text = λ e. [];
  version = text "v1";
  net = network;
  platform = platform;
  read_file = λ path. some (text "file");
  decode = λ contents. some (sparse, []);
  disk = disk;
  binds = λ addr. true;
  second_signal = false;
  view = λ k. record { heap = heap; store = no_task };
  expired = expired;
}

main_iff_example :
    (main environment 3 (text "forgery.toml") ≡ some 0)
    ↔ EndsWell environment 3 (text "forgery.toml")
main_iff_example = main_iff environment 3 (text "forgery.toml")
