-- ===== src/Proto.antt =====
-- The messages of the runner protocol (actions-proto-go, runner/v1), with the fields that the code
-- under internal/ reads. What it passes on unread is one opaque string.
use forgery.Base.{ℕ, Str, text, Bool, true, false, Option, none, some, List, Dict}

-- a value of a protobuf Struct; only strings are told apart
pub data Value : Type 0 where
  string_value : Str → Value
  other_value : Value

abbrev pub get_string_value : Option Value → Str
get_string_value none = text ""
get_string_value (some (string_value s)) = s
get_string_value (some other_value) = text ""

pub record Task : Type 0 where
  pub id : ℕ
  pub workflow_payload : Str
  pub context : Option (Dict Str Value)
  pub secrets : Dict Str Str
  pub unread : Str

-- a lookup in a map[string]string, with Go's zero value for a missing key
abbrev pub get_string : Option Str → Str
get_string none = text ""
get_string (some s) = s

pub data RunResult : Type 0 where
  unspecified success failure cancelled skipped : RunResult

abbrev pub is_final : RunResult → Bool
is_final unspecified = false
is_final _ = true

pub record UpdateTaskRequest : Type 0 where
  pub state_id : ℕ
  pub result : RunResult
  pub unread : Str

pub record UpdateLogRequest : Type 0 where
  pub task_id : ℕ
  pub unread : Str

pub record Runner : Type 0 where
  pub id : ℕ
  pub uuid : Str
  pub token : Str
  pub name : Str
  pub ephemeral : Bool
  pub labels : List Str

-- the codes of connectrpc.com/connect that the code names; the rest are one
pub data Code : Type 0 where
  unauthenticated permission_denied invalid_argument internal other_code : Code

-- An error with its code. A message that the code formats has a constructor for its format.
pub data Message : Type 0 where
  literal : Str → Message
  task_id_mismatch : ℕ → ℕ → Message
  unknown_instance : ℕ → Str → Message

pub record RpcError : Type 0 where
  pub code : Code
  pub message : Message

pub data Result {ℓ} (A : Type ℓ) : Type ℓ where
  ok : A → Result A
  err : RpcError → Result A
  -- the handler panicked
  panicked : Result A
