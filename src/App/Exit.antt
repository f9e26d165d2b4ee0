-- ===== src/App/Exit.antt =====
-- cmd/forgery/main.go and Run of internal/app/app.go: how the process ends.
pub mod Codes
use forgery.Base.{
  ℕ, Str, Bool, true, false, Option, none, some, List, [], ◌||◌, is_empty, if◌then◌else◌,
}
use forgery.Proto.{RpcError}
use forgery.Config.{Platform, Config}
use forgery.Config.Load.{load, Loaded, loaded, read_failed, parse_failed, unknown_keys, rejected}
use forgery.State.{Json, Disk}
use forgery.App.Startup.{Network, Assembly, assembled, failed_at, assemble}
use forgery.App.Drain.{View, Drained, drained, still_active, drain_tasks}

-- What the process meets: the instances, the files, the addresses that can be bound, whether a second
-- signal comes before Run has returned, and the store and the clock while it waits for active tasks.
pub record Environment : Type 0 where
  pub json : Json
  pub error_text : RpcError → Str
  pub version : Str
  pub net : Network
  pub platform : Platform
  pub read_file : Str → Option Str
  pub decode : Str → Option (Config × List Str)
  pub disk : Disk
  pub binds : Str → Bool
  pub second_signal : Bool
  pub view : ℕ → View
  pub expired : ℕ → Bool

-- The exit code. `none` means that the rounds given are over while it waits for active tasks.
module _ (env : Environment) (rounds : ℕ) where
  drain_exit : Option Drained → Option ℕ
  drain_exit none = none
  drain_exit (some drained) = some 0
  drain_exit (some (still_active n)) = some 1

  wind_down : Option ℕ
  unfolding drain_exit
  wind_down =
      if env.second_signal then some 1 else drain_exit (drain_tasks env.view env.expired rounds)

  -- StartHealthServer does nothing for an empty address.
  abbrev pub health_starts : Str → Bool
  health_starts addr = is_empty addr || env.binds addr

  serve : Config → Option ℕ
  unfolding wind_down
  serve c =
      let ended = if health_starts c.global.health_addr then wind_down else some 1 in
      if env.binds c.global.listen_addr then ended else some 1

  run_assembled : Config → Assembly → Option ℕ
  unfolding serve
  run_assembled c (assembled clients disk) = serve c
  run_assembled c (failed_at inst e) = some 1

  run_daemon : Config → Option ℕ
  unfolding run_assembled
  run_daemon c =
      run_assembled c (assemble env.json env.error_text env.version env.net c.instances [] env.disk)

  must_load : Loaded → Option ℕ
  unfolding run_daemon
  must_load (loaded c) = run_daemon c
  must_load read_failed = some 1
  must_load parse_failed = some 1
  must_load (unknown_keys keys) = some 1
  must_load (rejected e) = some 1

  pub main : Str → Option ℕ
  unfolding must_load
  main path = must_load (load env.platform env.read_file env.decode path)
