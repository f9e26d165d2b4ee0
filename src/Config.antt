-- ===== src/Config.antt =====
-- internal/config/config.go: defaults, labels and the validation of a decoded configuration. The host
-- name and the parsing of URLs are parameters.
pub mod Checks
pub mod Defaults
pub mod Load
pub mod Message
use forgery.Base.{
  ℕ, suc, ◌*◌, ◌+◌, Str, text, ℤ, pos, negsuc, ltz, Bool, true, false, ◌==◌, str_eq, Option, none,
  some, List, [], ◌∷◌, ◌++◌, map, Dict, lookup, insert, is_empty, trim_space, split, if◌then◌else◌,
}

-- nanoseconds
abbrev pub second : ℕ
second = 1_000_000_000

pub record Global : Type 0 where
  pub log_level : Str
  pub log_format : Str
  pub health_addr : Str
  pub listen_addr : Str
  pub public_url : Str
  pub state_file : Str
  pub max_parallel_tasks : ℤ
  pub github_token : Str
  pub github_repo : Str
  pub github_workflow_id : Str
  pub github_ref : Str
  pub github_api_url : Str

pub record Instance : Type 0 where
  pub name : Str
  pub forgejo_url : Str
  pub forgejo_runner_token : Str
  pub forgejo_runner_name : Str
  pub forgejo_runner_labels : List Str
  pub poll_interval : ℤ
  pub reg_token_ttl : ℤ
  pub ga_startup_timeout : ℤ
  pub heartbeat_interval : ℤ
  pub tls_insecure_skip_verify : Bool

pub record Config : Type 0 where
  pub global : Global
  pub open global use *
  pub instances : List Instance

-- What the code takes from os, net, net/url and path/filepath.
pub record Platform : Type 0 where
  -- os.Hostname
  pub hostname : Option Str
  -- the port of net.SplitHostPort
  pub split_port : Str → Option Str
  -- the host of a parsed URL
  pub url_host : Str → Option Str
  -- filepath.Join(filepath.Dir(path), "forgery-state.json")
  pub state_file_beside : Str → Str

-- the zero value of a field gives way to its default
abbrev or_default : Str → Str → Str
or_default s d = if is_empty s then d else s

abbrev is_zero : ℤ → Bool
is_zero (pos ℕ.zero) = true
is_zero _ = false

abbrev or_duration : ℤ → ℕ → ℤ
or_duration n d = if is_zero n then pos d else n

module _ (platform : Platform) where
  open platform use {hostname, split_port, url_host, state_file_beside}

  host_or_localhost : Option Str → Str
  host_or_localhost none = text "localhost"
  host_or_localhost (some h) = h

  port_or_default : Option Str → Str
  port_or_default none = text "8443"
  port_or_default (some p) = or_default p (text "8443")

  pub default_public_url : Str → Str
  unfolding host_or_localhost port_or_default
  default_public_url listen_addr =
      text "https://"
      ++ host_or_localhost hostname
      ++ text ":"
      ++ port_or_default (split_port listen_addr)

  unfoldable pub default_instance_name : Str → Str
  default_instance_name forgejo_url = elim (url_host forgejo_url) [ none ↦ [] | some host ↦ host ]

  pub default_instance : Instance → Instance
  default_instance i = record i {
    name = or_default i.name (default_instance_name i.forgejo_url);
    forgejo_runner_name = or_default i.forgejo_runner_name (text "forgery");
    poll_interval = or_duration i.poll_interval (3 * second);
    reg_token_ttl = or_duration i.reg_token_ttl (15 * 60 * second);
    ga_startup_timeout = or_duration i.ga_startup_timeout (15 * 60 * second);
    heartbeat_interval = or_duration i.heartbeat_interval (30 * second);
  }

  pub default_global : Str → Global → Global
  default_global path g = record g {
    log_level = or_default g.log_level (text "info");
    log_format = or_default g.log_format (text "json");
    listen_addr = listen_addr;
    public_url = or_default g.public_url (default_public_url listen_addr);
    state_file = or_default g.state_file (state_file_beside path);
    max_parallel_tasks = or_duration g.max_parallel_tasks 5;
    github_ref = or_default g.github_ref (text "main");
    github_api_url = or_default g.github_api_url (text "https://api.github.com");
  }
    where
      listen_addr : Str
      listen_addr = or_default g.listen_addr (text ":8443")

  unfoldable pub apply_defaults : Config → Str → Config
  unfolding default_global default_instance
  apply_defaults c path = record {
    global = default_global path c.global;
    instances = map default_instance c.instances;
  }

-- the loop of parseLabels; an empty result is nil
pub kept_labels : List Str → List Str
kept_labels [] = []
kept_labels (p ∷ ps) =
    let rest = kept_labels ps in let t = trim_space p in if is_empty t then rest else t ∷ rest

pub parse_labels : Str → List Str
unfolding kept_labels
parse_labels s = kept_labels (split b',' s)

-- The entries of an error: a key, or a key of one instance by its index.
pub data Key : Type 0 where
  global_key : Str → Key
  instance_key : ℕ → Str → Key
  -- the index, the name, and the index of an earlier instance of that name
  duplicate_name : ℕ → Str → ℕ → Key

pub record ErrValidation : Type 0 where
  pub missing : List Key
  pub invalid : List Key

abbrev pub when : Bool → Key → List Key
when true k = k ∷ []
when false k = []

-- the duplicate that the map of the names seen so far shows
abbrev duplicate : Option ℕ → ℕ → Str → List Key
duplicate none i name = []
duplicate (some prev) i name = duplicate_name i name prev ∷ []

unfoldable pub missing_of : ℕ → Instance → List Key
missing_of i inst =
    when (is_empty inst.forgejo_url) (instance_key i (text "forgejo_url"))
    ++ when (is_empty inst.forgejo_runner_token) (instance_key i (text "forgejo_runner_token"))
    ++ when (is_empty inst.forgejo_runner_labels) (instance_key i (text "forgejo_runner_labels"))

unfoldable pub invalid_of : ℕ → Instance → List Key
invalid_of i inst =
    when (ltz inst.poll_interval (pos 0)) (instance_key i (text "poll_interval"))
    ++ when (ltz inst.reg_token_ttl (pos 0)) (instance_key i (text "reg_token_ttl"))
    ++ when (ltz inst.ga_startup_timeout (pos 0)) (instance_key i (text "ga_startup_timeout"))
    ++ when (ltz inst.heartbeat_interval (pos 0)) (instance_key i (text "heartbeat_interval"))

-- the loop over the instances, from an index on and with the names seen before it
pub check_instances : ℕ → Dict Str ℕ → List Instance → ErrValidation
unfolding missing_of invalid_of
check_instances i seen [] = record { missing = []; invalid = [] }
check_instances i seen (inst ∷ rest) =
    let later = check_instances (suc i) (insert inst.name i seen) rest in
    record {
      missing = missing_of i inst ++ later.missing;
      invalid =
          duplicate (lookup inst.name seen) i inst.name ++ (invalid_of i inst ++ later.invalid);
    }

abbrev zero_instance : Instance
zero_instance = record {
  name = [];
  forgejo_url = [];
  forgejo_runner_token = [];
  forgejo_runner_name = [];
  forgejo_runner_labels = [];
  poll_interval = pos 0;
  reg_token_ttl = pos 0;
  ga_startup_timeout = pos 0;
  heartbeat_interval = pos 0;
  tls_insecure_skip_verify = false;
}

abbrev to_check : List Instance → List Instance
to_check [] = zero_instance ∷ []
to_check (i ∷ is) = i ∷ is

pub problems : Config → ErrValidation
unfolding check_instances
problems c =
    let found = check_instances 0 [] (to_check c.instances) in
    record {
      missing =
          when (is_empty c.github_token) (global_key (text "github_token"))
          ++ (when (is_empty c.github_repo) (global_key (text "github_repo"))
              ++ (when (is_empty c.github_workflow_id) (global_key (text "github_workflow_id"))
                  ++ (when (is_empty c.instances) (global_key (text "instances"))
                      ++ found.missing)));
      invalid =
          when (ltz c.max_parallel_tasks (pos 0)) (global_key (text "max_parallel_tasks"))
          ++ found.invalid;
    }

-- `none` is no error
unfoldable pub validate : Config → Option ErrValidation
unfolding problems
validate c =
    let v = problems c in
    if is_empty v.missing then (if is_empty v.invalid then none else some v) else some v
