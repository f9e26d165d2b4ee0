-- ===== src/App/Exit/Codes.antt =====
-- cmd/forgery/main.go and Run of internal/app/app.go: which exit code means what.
use forgery.Base.{
  ℕ, suc, Str, ◌≡◌, ◌≢◌, if◌then◌else◌, refl, arith, ◌↔◌, ◌⊎◌, inl, inr, Bool, true, false, Option,
  none, some, [], Dict, either,
}
use mathlib.Core.Option.{some-injective}
use forgery.Config.{Instance, Config}
use forgery.Config.Load.{load, Loaded, loaded, read_failed, parse_failed, unknown_keys, rejected}
use forgery.State.{Disk}
use forgery.North.Connection.{ClientState}
use forgery.App.Startup.{Assembly, assembled, failed_at, assemble}
use forgery.App.Drain.{Drained, drained, still_active, drain_tasks}
use forgery.App.Drain.Ends.{drain_tasks-Ends}
use forgery.App.Exit.{
  Environment, drain_exit, wind_down, health_starts, serve, run_assembled, run_daemon, must_load,
  main,
}

failed : ◌≢◌ {A = Option ℕ} (some 1) (some 0)
failed h = let e = some-injective 1 0 h in omega arith

first-zero :
    (b : Bool) (o : Option ℕ) → (if b then o else some 1) ≡ some 0 → (b ≡ true) × (o ≡ some 0)
first-zero true o h = (refl, h)
first-zero false o h = absurd (failed h)

second-zero :
    (b : Bool) (o : Option ℕ) → (if b then some 1 else o) ≡ some 0 → (b ≡ false) × (o ≡ some 0)
second-zero true o h = absurd (failed h)
second-zero false o h = (refl, h)

module _ (env : Environment) (rounds : ℕ) where
  -- The configuration is loaded, every instance has started, both servers are bound, and after the first
  -- signal all active tasks are drained before the timeout and before a second signal.
  pub record EndsWell (path : Str) : Type 0 where
    pub config : Config
    pub ready : load env.platform env.read_file env.decode path ≡ loaded config
    pub clients : Dict Str (Instance × ClientState)
    pub disk : Disk
    pub started :
        assemble env.json env.error_text env.version env.net config.instances [] env.disk
        ≡ assembled clients disk
    pub listens : env.binds config.global.listen_addr ≡ true
    pub health : health_starts env rounds config.global.health_addr ≡ true
    pub no_second : env.second_signal ≡ false
    pub all_drained : drain_tasks env.view env.expired rounds ≡ some drained

  drain_exit-zero : (o : Option Drained) → drain_exit env rounds o ≡ some 0 → o ≡ some drained
  unfolding drain_exit
  drain_exit-zero none h = cc
  drain_exit-zero (some drained) h = refl
  drain_exit-zero (some (still_active n)) h = absurd (failed h)

  abbrev Served : Config → Type 0
  Served c =
      (env.binds c.global.listen_addr ≡ true)
      × (health_starts env rounds c.global.health_addr ≡ true)
      × (env.second_signal ≡ false)
      × (drain_tasks env.view env.expired rounds ≡ some drained)

  serve-zero : (c : Config) → serve env rounds c ≡ some 0 → Served c
  unfolding serve wind_down
  serve-zero c h =
      let (listens, up) = first-zero (env.binds c.global.listen_addr) _ h in
      let (health, down) = first-zero (health_starts env rounds c.global.health_addr) _ up in
      let (no_second, ended) = second-zero env.second_signal _ down in
      (listens, health, no_second, drain_exit-zero _ ended)

  run_assembled-zero :
      (c : Config) (a : Assembly)
      → run_assembled env rounds c a ≡ some 0
      → (m : Dict Str (Instance × ClientState)) × (d : Disk) × (a ≡ assembled m d) × Served c
  unfolding run_assembled
  run_assembled-zero c (assembled m d) h = (m, d, refl, serve-zero c h)
  run_assembled-zero c (failed_at inst e) h = absurd (failed h)

  must_load-zero :
      (path : Str) (l : Loaded)
      → load env.platform env.read_file env.decode path ≡ l
      → must_load env rounds l ≡ some 0
      → EndsWell path
  unfolding must_load run_daemon
  must_load-zero path (loaded c) e h =
      let (m, d, started, served) = run_assembled-zero c _ h in
      record {
        config = c;
        ready = e;
        clients = m;
        disk = d;
        started = started;
        listens = served.0;
        health = served.1;
        no_second = served.2;
        all_drained = served.3;
      }
  must_load-zero path read_failed e h = absurd (failed h)
  must_load-zero path parse_failed e h = absurd (failed h)
  must_load-zero path (unknown_keys keys) e h = absurd (failed h)
  must_load-zero path (rejected v) e h = absurd (failed h)

  -- The process exits with the code 0 exactly if nothing has failed: each step of the start has
  -- succeeded, and after the first signal every active task ended in time and no second signal came.
  pub main_iff : (path : Str) → (main env rounds path ≡ some 0) ↔ EndsWell path
  unfolding main must_load run_daemon run_assembled serve wind_down drain_exit
  main_iff path = (
    must_load-zero path _ refl,
    λ w. rw (w.ready, w.started, w.listens, w.health, w.no_second, w.all_drained) refl,
  )

abbrev pub IsExit : Option ℕ → Type 0
IsExit code = (code ≡ some 0) ⊎ (code ≡ some 1)

module _ (env : Environment) (n : ℕ) (deadline : env.expired n ≡ true) where
  drain_exit-IsExit : (r : Drained) → IsExit (drain_exit env (suc n) (some r))
  unfolding drain_exit
  drain_exit-IsExit drained = inl refl
  drain_exit-IsExit (still_active a) = inr refl

  wind_down-IsExit : IsExit (wind_down env (suc n))
  unfolding wind_down
  wind_down-IsExit =
      let (r, waited, ends) = drain_tasks-Ends env.view env.expired n deadline in
      either IsExit env.second_signal _ _ (inr refl) (rw waited (drain_exit-IsExit r))

  run_assembled-IsExit : (c : Config) (a : Assembly) → IsExit (run_assembled env (suc n) c a)
  unfolding run_assembled serve
  run_assembled-IsExit c (failed_at inst e) = inr refl
  run_assembled-IsExit c (assembled m d) =
      either IsExit (env.binds c.global.listen_addr) _ _
        (either IsExit (health_starts env (suc n) c.global.health_addr) _ _ wind_down-IsExit
          (inr refl))
        (inr refl)

  must_load-IsExit : (l : Loaded) → IsExit (must_load env (suc n) l)
  unfolding must_load run_daemon
  must_load-IsExit (loaded c) = run_assembled-IsExit c _
  must_load-IsExit read_failed = inr refl
  must_load-IsExit parse_failed = inr refl
  must_load-IsExit (unknown_keys keys) = inr refl
  must_load-IsExit (rejected v) = inr refl

  -- Where the timeout has come by round n of the wait, the process ends, with the code 0 or 1.
  pub main-IsExit : (path : Str) → IsExit (main env (suc n) path)
  unfolding main
  main-IsExit path = must_load-IsExit (load env.platform env.read_file env.decode path)
