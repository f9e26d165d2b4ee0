-- ===== src/North/Connection.antt =====
-- internal/north/client.go: the identity under which the daemon speaks to one Forgejo instance, and its
-- recovery after a rejected request. The instance is a parameter: its reply to the n-th request.
pub mod Backoff
pub mod Retry
pub mod Fleet
pub mod Quiet
pub mod Granted
use forgery.Base.{
  ℕ, zero, suc, ◌+◌, ◌*◌, ◌%◌, ◌^◌, ◌-◌, Str, text, Bool, true, false, not, ◌&&◌, ◌==◌, nat_eq,
  str_eq, Option, none, some, List, [], ◌∷◌, ◌++◌, map, ltb, is_empty, cut, contains, if◌then◌else◌,
}
use forgery.Proto.{Code, unauthenticated, permission_denied, invalid_argument, RpcError}
use forgery.Config.{Instance, second}
use forgery.State.{Identity, Json, Disk, load, save, LoadResult, load_error, loaded}

-- an answer to a request, or the error it fails with
pub data Reply {ℓ} (A : Type ℓ) : Type ℓ where
  reply : A → Reply A
  rpc_error : RpcError → Reply A

-- What a client holds, with the file of identities that the clients of all instances share. Requests
-- are counted, so that a reply may depend on what was sent before.
pub record ClientState : Type 0 where
  pub identity : Identity
  pub generation : ℕ
  -- the zero time is `none`
  pub backoff_next : Option ℕ
  pub backoff_wait : ℕ
  pub disk : Disk
  pub requests : ℕ

pub record RunnerHeaders : Type 0 where
  pub x_runner_version : Str
  pub x_runner_token : Str
  pub x_runner_uuid : Option Str

pub record RegisterMessage : Type 0 where
  pub token : Str
  pub name : Str
  pub labels : List Str
  pub version : Str

pub data RegisterError : Type 0 where
  register_rejected : RpcError → RegisterError
  missing_runner : RegisterError
  persist_failed : RegisterError

abbrev pub no_identity : Identity
no_identity = record { uuid = []; token = [] }

abbrev pub u64_mod : ℕ
u64_mod = 2 ^ 64

abbrev pub register_backoff_base : ℕ
register_backoff_base = 30 * second

abbrev pub register_backoff_max : ℕ
register_backoff_max = 5 * (60 * second)

-- a label up to its first colon
abbrev strip_label : Str → Str
strip_label l = elim (cut b':' l) [ none ↦ l | some (before, after) ↦ before ]

pub strip_container_mapping : List Str → List Str
strip_container_mapping labels = map strip_label labels

unfoldable pub has_identity : ClientState → Bool
has_identity s = not (is_empty s.identity.uuid) && not (is_empty s.identity.token)

-- the interceptor on a call other than Register
pub call_headers : Instance → Str → ClientState → RunnerHeaders
call_headers inst version s = record {
  x_runner_version = version;
  x_runner_token =
      if is_empty s.identity.token then inst.forgejo_runner_token else s.identity.token;
  x_runner_uuid = if is_empty s.identity.uuid then none else some s.identity.uuid;
}

-- the interceptor on Register
pub register_headers : Instance → Str → RunnerHeaders
register_headers inst version = record {
  x_runner_version = version;
  x_runner_token = inst.forgejo_runner_token;
  x_runner_uuid = none;
}

unfoldable pub new_from : LoadResult → Disk → Option ClientState
new_from load_error disk = none
new_from (loaded none) disk = some (record {
  identity = no_identity;
  generation = 0;
  backoff_next = none;
  backoff_wait = 0;
  disk = disk;
  requests = 0;
})
new_from (loaded (some id)) disk = some (record {
  identity = id;
  generation = 1;
  backoff_next = none;
  backoff_wait = 0;
  disk = disk;
  requests = 0;
})

-- New, with an identity store; `none` is its error.
unfoldable pub new : Json → Instance → Disk → Option ClientState
unfolding new_from
new json inst disk = new_from (load json inst.forgejo_url disk) disk

abbrev pub is_auth_code : Code → Bool
is_auth_code unauthenticated = true
is_auth_code permission_denied = true
is_auth_code _ = false

abbrev is_invalid_argument : Code → Bool
is_invalid_argument invalid_argument = true
is_invalid_argument _ = false

-- An error that is not connect's has the code Unknown. `error_text` is the string form of connect's.
unfoldable pub is_registration_token_error : (RpcError → Str) → RegisterError → Bool
is_registration_token_error error_text (register_rejected e) =
    is_invalid_argument e.code && contains (error_text e) (text "registration token")
is_registration_token_error error_text missing_runner = false
is_registration_token_error error_text persist_failed = false

unfoldable pub backoff_remaining : ℕ → ClientState → ℕ
backoff_remaining now s = elim s.backoff_next [ none ↦ 0 | some next ↦ next - now ]

pub set_backoff : ℕ → ℕ → ClientState → ClientState
set_backoff now wait s = record s { backoff_wait = wait; backoff_next = some (now + wait) }

pub reset_backoff : ClientState → ClientState
reset_backoff s = record s { backoff_wait = 0; backoff_next = none }

-- the wait after one more transient failure
pub next_wait : ℕ → ℕ
next_wait wait =
    if wait == 0
    then register_backoff_base
    else (if ltb register_backoff_max (wait * 2) then register_backoff_max else wait * 2)

pub note_register_failure : (RpcError → Str) → ℕ → RegisterError → ClientState → ClientState
unfolding next_wait set_backoff is_registration_token_error
note_register_failure error_text now e s =
    if is_registration_token_error error_text e
    then set_backoff now register_backoff_max s
    else set_backoff now (next_wait s.backoff_wait) s

pub register_message : Instance → Str → RegisterMessage
unfolding strip_container_mapping
register_message inst version = record {
  token = inst.forgejo_runner_token;
  name = inst.forgejo_runner_name;
  labels = strip_container_mapping inst.forgejo_runner_labels;
  version = version;
}

abbrev pub is_auth_error {ℓ} : {A : Type ℓ} → Reply A → Bool
is_auth_error (reply a) = false
is_auth_error (rpc_error e) = is_auth_code e.code

-- one attempt of a request, under the identity of the moment
unfoldable pub attempt {ℓ} :
    {A : Type ℓ}
    → Instance
    → Str
    → (ℕ → RunnerHeaders → Reply A)
    → ClientState
    → Reply A × ClientState
unfolding call_headers
attempt inst version call s =
    (call s.requests (call_headers inst version s), record s { requests = suc s.requests })

-- What the lock-held part of retryOnAuth comes to.
pub data Recovery : Type 0 where
  refreshed backing_off register_failed registered_anew : Recovery

abbrev pub retries : Recovery → Bool
retries refreshed = true
retries backing_off = false
retries register_failed = false
retries registered_anew = true

-- `server` is the instance's reply to Register, `writes` whether the state file can be replaced.
module _ (json : Json) (error_text : RpcError → Str) (inst : Instance) (version : Str)
    (server : ℕ → RunnerHeaders → RegisterMessage → Reply (Option Identity)) (writes : Bool) where
  -- Register once the identity is in memory and its persistence has been tried
  unfoldable pub persisted : Bool × Disk → ClientState → Option RegisterError × ClientState
  unfolding reset_backoff
  persisted (true, disk) s =
      (none, reset_backoff (record s { disk = disk; generation = (s.generation + 1) % u64_mod }))
  persisted (false, disk) s = (some persist_failed, record s { disk = disk })

  unfoldable pub register_reply :
      Reply (Option Identity) → ClientState → Option RegisterError × ClientState
  unfolding persisted
  register_reply (rpc_error e) s = (some (register_rejected e), s)
  register_reply (reply none) s = (some missing_runner, s)
  register_reply (reply (some id)) s =
      persisted (save json writes inst.forgejo_url id s.disk) (record s { identity = id })

  -- `none` is success
  unfoldable pub register : ClientState → Option RegisterError × ClientState
  unfolding register_reply register_headers
  register s =
      register_reply
        (server s.requests (register_headers inst version) (register_message inst version))
        (record s { requests = suc s.requests })

  unfoldable pub recovered : ℕ → Option RegisterError × ClientState → Recovery × ClientState
  unfolding note_register_failure
  recovered now (none, s) = (registered_anew, s)
  recovered now (some e, s) = (register_failed, note_register_failure error_text now e s)

  -- What retryOnAuth does under regMu, for a request that was issued under the generation `gen`.
  unfoldable pub recover : ℕ → ℕ → ClientState → Recovery × ClientState
  unfolding recovered register backoff_remaining
  recover gen now s =
      let anew = recovered now (register s) in
      let kept = if ltb 0 (backoff_remaining now s) then (backing_off, s) else anew in
      if s.generation == gen then kept else (refreshed, s)

  -- retryOnAuth. Other goroutines act between the reading of the generation and the request, while the
  -- request is under way or waits for the lock, and after the lock is released.
  module _ {ℓ} {A : Type ℓ} (before during after : ClientState → ClientState) (now : ℕ) where
    unfoldable pub after_recovery :
        (ℕ → RunnerHeaders → Reply A) → Reply A → Recovery × ClientState → Reply A × ClientState
    after_recovery call first (r, s) =
        let again = attempt inst version call (after s) in if retries r then again else (first, s)

    unfoldable pub after_attempt :
        (ℕ → RunnerHeaders → Reply A) → ℕ → Reply A × ClientState → Reply A × ClientState
    after_attempt call gen (first, s) =
        let fallback = after_recovery call first (recover gen now (during s)) in
        if is_auth_error first then fallback else (first, during s)

    unfoldable pub retry_on_auth :
        (ℕ → RunnerHeaders → Reply A) → ClientState → Reply A × ClientState
    unfolding after_attempt
    retry_on_auth call s = after_attempt call s.generation (attempt inst version call (before s))
