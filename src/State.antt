-- ===== src/State.antt =====
-- internal/state/state.go: the file of runner identities. JSON is a parameter. A write goes to a
-- temporary file that is renamed over the target, so it replaces the file or leaves it as it was.
pub mod Identities
use forgery.Base.{
  ℕ, Str, Bool, true, false, ◌==◌, nat_eq, str_eq, Option, none, some, [], Dict, lookup, insert,
  if◌then◌else◌,
}

pub record Identity : Type 0 where
  pub uuid : Str
  pub token : Str

-- `none` is a nil map, which JSON's null gives.
pub record FileFormat : Type 0 where
  pub version : ℕ
  pub identities : Option (Dict Str Identity)

abbrev pub format_version : ℕ
format_version = 1

-- encoding/json on the file format
pub record Json : Type 0 where
  pub unmarshal : Str → Option FileFormat
  pub marshal : FileFormat → Option Str

-- what os.ReadFile finds
pub data Disk : Type 0 where
  missing unreadable : Disk
  contents : Str → Disk

-- what read returns: an error, a nil file, or a file
pub data ReadResult : Type 0 where
  read_error no_file : ReadResult
  file_read : FileFormat → ReadResult

abbrev pub read_parsed : Option FileFormat → ReadResult
read_parsed none = read_error
read_parsed (some f) = if f.version == format_version then file_read f else read_error

pub data LoadResult : Type 0 where
  load_error : LoadResult
  loaded : Option Identity → LoadResult

abbrev pub stored : Option (Dict Str Identity) → Dict Str Identity
stored none = []
stored (some m) = m

module _ (json : Json) where
  abbrev pub read : Disk → ReadResult
  read missing = no_file
  read unreadable = read_error
  read (contents bytes) = read_parsed (json.unmarshal bytes)

  abbrev pub load_from : Str → ReadResult → LoadResult
  load_from url read_error = load_error
  load_from url no_file = loaded none
  load_from url (file_read f) = loaded (lookup url (stored f.identities))

  unfoldable pub load : Str → Disk → LoadResult
  load url disk = load_from url (read disk)

  -- the file that Save writes
  abbrev pub merged : Str → Identity → ReadResult → Option FileFormat
  merged url id read_error = none
  merged url id no_file =
      some (record { version = format_version; identities = some (insert url id []) })
  merged url id (file_read f) =
      some (record f { identities = some (insert url id (stored f.identities)) })

  -- `writes` is whether the temporary file is written and renamed.
  abbrev pub write : Bool → Option Str → Disk → Bool × Disk
  write writes none disk = (false, disk)
  write writes (some bytes) disk = if writes then (true, contents bytes) else (false, disk)

  abbrev pub save_merged : Bool → Option FileFormat → Disk → Bool × Disk
  save_merged writes none disk = (false, disk)
  save_merged writes (some f) disk = write writes (json.marshal f) disk

  -- whether Save succeeds, and the file afterwards
  unfoldable pub save : Bool → Str → Identity → Disk → Bool × Disk
  save writes url id disk = save_merged writes (merged url id (read disk)) disk
