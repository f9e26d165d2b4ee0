-- ===== src/Config/Defaults.antt =====
-- internal/config/config.go: what a loaded configuration guarantees to the rest of the daemon.
use forgery.Base.{
  zero, suc, ◌<◌, Str, ℤ, pos, negsuc, pos_part, ◌≡◌, ◌≢◌, refl, arith, Option, none, some, List,
  [], ◌∷◌, map, All, inl, inr, Option-cases, subst,
}
use forgery.Config.{
  Instance, Config, Platform, apply_defaults, default_instance, default_global, validate,
}
use forgery.Config.Load.{loaded, decoded, load}
use forgery.Config.Checks.{IsNonNegative, IsComplete, IsAccepted, validate_iff}

abbrev pub IsPositive : ℤ → Type 0
IsPositive z = 0 < pos_part z

-- what the timers of an instance need: Go's tickers panic on a period that is not positive
pub record HasTimers (i : Instance) : Type 0 where
  pub poll : IsPositive i.poll_interval
  pub ttl : IsPositive i.reg_token_ttl
  pub startup : IsPositive i.ga_startup_timeout
  pub heartbeat : IsPositive i.heartbeat_interval

IsPositive-default : (z : ℤ) → z ≢ pos 0 → IsNonNegative z → IsPositive z
IsPositive-default (pos zero) h n = absurd (h refl)
IsPositive-default (pos (suc k)) h n = omega arith
IsPositive-default (negsuc k) h n = absurd (omega arith)

default_instance-HasTimers :
    (platform : Platform) (i : Instance)
    → IsComplete (default_instance platform i)
    → HasTimers (default_instance platform i)
unfolding default_instance
default_instance-HasTimers platform i c = record {
  poll = IsPositive-default _ (ground arith) c.poll;
  ttl = IsPositive-default _ (ground arith) c.ttl;
  startup = IsPositive-default _ (ground arith) c.startup;
  heartbeat = IsPositive-default _ (ground arith) c.heartbeat;
}

defaults-HasTimers :
    (platform : Platform) (is : List Instance)
    → All IsComplete (map (default_instance platform) is)
    → All HasTimers (map (default_instance platform) is)
defaults-HasTimers platform [] a = tt
defaults-HasTimers platform (i ∷ is) a =
    (default_instance-HasTimers platform i a.0, defaults-HasTimers platform is a.1)

pub record IsReady (c : Config) : Type 0 where
  pub accepted : IsAccepted c
  pub parallel : IsPositive c.max_parallel_tasks
  pub timers : All HasTimers c.instances

apply_defaults-IsReady :
    (platform : Platform) (c : Config) (path : Str)
    → IsAccepted (apply_defaults platform c path)
    → IsReady (apply_defaults platform c path)
unfolding apply_defaults default_global
apply_defaults-IsReady platform c path a = record {
  accepted = a;
  parallel = IsPositive-default _ (ground arith) a.parallel;
  timers = defaults-HasTimers platform c.instances a.complete;
}

decoded-IsReady :
    (platform : Platform) (path : Str) (d : Option (Config × List Str)) (c : Config)
    → decoded platform path d ≡ loaded c
    → IsReady c
unfolding decoded
decoded-IsReady platform path none c e = cc
decoded-IsReady platform path (some (d, k ∷ ks)) c e = cc
decoded-IsReady platform path (some (d, [])) c e =
    elim (Option-cases (validate (apply_defaults platform d path))) [
      | inl clean ↦
          let same : apply_defaults platform d path ≡ c = ground arith in
          subst IsReady same (
            apply_defaults-IsReady platform d path
              ((validate_iff (apply_defaults platform d path)).0 clean))
      | inr (v, bad) ↦ absurd (ground arith)
    ]

-- A configuration that loads is accepted by the validation, allows at least one task, and has a
-- positive duration in each timer of each instance, whatever the file and the decoder gave.
pub load-IsReady :
    (platform : Platform) (read_file : Str → Option Str) (decode : Str → Option (Config × List Str))
    (path : Str) (c : Config)
    → load platform read_file decode path ≡ loaded c
    → IsReady c
unfolding load
load-IsReady platform read_file decode path c e = elim (Option-cases (read_file path)) [
  | inl missing ↦ absurd (ground arith)
  | inr (contents, found) ↦ decoded-IsReady platform path (decode contents) c (ground arith)
]
