-- ===== src/Examples/Configs.antt =====
-- A configuration file with one instance, loaded.
use forgery.Base.{
  ℕ, Str, ◌==◌, nat_eq, if◌then◌else◌, inl, text, pos, ◌≡◌, refl, ◌↔◌, some, none, [], ◌∷◌, lookup,
}
use forgery.Config.{Instance, ErrValidation, Config, Platform, apply_defaults, validate}
use forgery.Config.Load.{load, loaded}
use forgery.Config.Checks.{IsAccepted, validate_iff}
use forgery.Config.Defaults.{IsReady, load-IsReady}
use forgery.Config.Message.{error_text}
use forgery.Config.Message.Mentions.{Mentions}
use forgery.Config.Message.Reports.{instance_at, no_labels, validate-Mentions}
use forgery.Examples.Fixtures.{instance_one}

abbrev pub platform : Platform
platform = record {
  hostname = none;
  split_port = λ s. some (text "8443");
  url_host = λ s. some (text "one");
  state_file_beside = λ s. text "forgery-state.json";
}

-- what the file sets; the rest is zero
abbrev pub sparse : Config
sparse = record {
  global = record {
    log_level = [];
    log_format = [];
    health_addr = [];
    listen_addr = [];
    public_url = [];
    state_file = [];
    max_parallel_tasks = pos 0;
    github_token = text "pat";
    github_repo = text "org/repo";
    github_workflow_id = text "forgery-runner.yml";
    github_ref = [];
    github_api_url = [];
  };
  instances = record instance_one { name = []; poll_interval = pos 0 } ∷ [];
}

pub load-sparse :
    load platform (λ path. some (text "file")) (λ contents. some (sparse, [])) (text "forgery.toml")
    ≡ loaded (apply_defaults platform sparse (text "forgery.toml"))
unfolding load apply_defaults validate lookup
load-sparse = refl

load-IsReady_example : IsReady (apply_defaults platform sparse (text "forgery.toml"))
load-IsReady_example =
    load-IsReady platform (λ path. some (text "file")) (λ contents. some (sparse, []))
      (text "forgery.toml") (apply_defaults platform sparse (text "forgery.toml")) load-sparse

validate_iff_example : (validate sparse ≡ none) ↔ IsAccepted sparse
validate_iff_example = validate_iff sparse

-- a second instance that lacks its labels
abbrev unlabelled : Instance
unlabelled = record instance_one { name = text "two"; forgejo_runner_labels = [] }

abbrev decimal : ℕ → Str
decimal n = if n == 0 then text "0" else text "1"

validate-Mentions_example :
    (v : ErrValidation) × (validate (record sparse { instances = instance_one ∷ unlabelled ∷ [] })
      ≡ some v)
    × Mentions (error_text decimal (λ s. s) v) (text "instances[1].forgejo_runner_labels")
unfolding instance_at
validate-Mentions_example =
    validate-Mentions decimal (λ s. s)
      (record sparse { instances = instance_one ∷ unlabelled ∷ [] }) 1 unlabelled
      (text "forgejo_runner_labels") [] refl (inl (no_labels refl refl, refl))
