-- ===== src/App/Startup.antt =====
-- internal/app/app.go: the start of the daemon, up to the point where every instance is registered.
pub mod Resolves
use forgery.Base.{
  ℕ, Str, List, [], ◌∷◌, Bool, Option, none, some, Dict, lookup, insert, str_eq, if◌then◌else◌,
}
use forgery.Proto.{RpcError}
use forgery.Config.{Instance}
use forgery.State.{Json, Disk}
use forgery.North.Connection.{
  ClientState, RegisterError, Reply, reply, rpc_error, has_identity, new, register,
}
use forgery.North.Service.{RunnerService, Surroundings, declare}

-- what stops the start
pub data StartError : Type 0 where
  init_failed : StartError
  registration_failed : RegisterError → StartError
  declaration_failed : RpcError → StartError

pub data Started : Type 0 where
  started : ClientState → Started
  not_started : StartError → Started

-- The services of the instances, by name, and the surroundings of their first requests. An RPC that
-- exceeds startupRPCTimeout has an error as its reply.
pub record Network : Type 0 where
  pub service : Str → RunnerService
  pub surroundings : Str → Surroundings

-- The outcome of Run's loop over the instances: the clients by name and the state file, or the
-- instance that fails.
pub data Assembly : Type 0 where
  assembled : Dict Str (Instance × ClientState) → Disk → Assembly
  failed_at : Instance → StartError → Assembly

module _ (json : Json) (error_text : RpcError → Str) (version : Str) (net : Network) where
  unfoldable pub declared : Reply (Unit {0}) × ClientState → Started
  declared (reply u, s) = started s
  declared (rpc_error e, s) = not_started (declaration_failed e)

  unfoldable pub declare_instance : Instance → Option RegisterError × ClientState → Started
  unfolding declared
  declare_instance inst (some e, s) = not_started (registration_failed e)
  declare_instance inst (none, s) =
      declared (
        declare json error_text inst version (net.service inst.name) (net.surroundings inst.name) s)

  unfoldable pub register_instance : Instance → ClientState → Started
  unfolding declare_instance
  register_instance inst s =
      let registered =
        register json error_text inst version (net.service inst.name).register
          (net.surroundings inst.name).writes s in
      declare_instance inst (if has_identity s then (none, s) else registered)

  unfoldable pub start_instance : Instance → Option ClientState → Started
  unfolding register_instance
  start_instance inst none = not_started init_failed
  start_instance inst (some s) = register_instance inst s

  abbrev pub proceed : Instance → (ClientState → Assembly) → Started → Assembly
  proceed inst next (started s) = next s
  proceed inst next (not_started e) = failed_at inst e

  -- The file is one for all instances: each start sees what the ones before it have saved.
  unfoldable pub assemble : List Instance → Dict Str (Instance × ClientState) → Disk → Assembly
  unfolding start_instance
  assemble [] clients disk = assembled clients disk
  assemble (inst ∷ rest) clients disk =
      proceed inst (λ s. assemble rest (insert inst.name (inst, s) clients) s.disk)
        (start_instance inst (new json inst disk))
