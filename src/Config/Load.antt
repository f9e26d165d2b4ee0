-- ===== src/Config/Load.antt =====
-- internal/config/config.go: Load, from the file to a configuration with its defaults that has passed
-- the validation. Reading the file and decoding TOML are parameters.
use forgery.Base.{Str, List, [], ◌∷◌, Option, none, some}
use forgery.Config.{Config, Platform, ErrValidation, apply_defaults, validate}

pub data Loaded : Type 0 where
  loaded : Config → Loaded
  read_failed : Loaded
  parse_failed : Loaded
  unknown_keys : List Str → Loaded
  rejected : ErrValidation → Loaded

abbrev validated : Config → Option ErrValidation → Loaded
validated c none = loaded c
validated c (some v) = rejected v

-- toml.Decode gives the configuration and the keys that no field took.
unfoldable pub decoded : Platform → Str → Option (Config × List Str) → Loaded
decoded platform path none = parse_failed
decoded platform path (some (c, [])) =
    let c' = apply_defaults platform c path in validated c' (validate c')
decoded platform path (some (c, k ∷ ks)) = unknown_keys (k ∷ ks)

unfoldable pub load :
    Platform → (Str → Option Str) → (Str → Option (Config × List Str)) → Str → Loaded
unfolding decoded
load platform read_file decode path = elim (read_file path) [
  | none ↦ read_failed
  | some contents ↦ decoded platform path (decode contents)
]
