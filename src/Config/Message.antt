-- ===== src/Config/Message.antt =====
-- internal/config/config.go: the text of a validation error. fmt's %d and %q are parameters.
pub mod Mentions
pub mod Reports
use forgery.Base.{ℕ, Str, text, List, [], ◌∷◌, ◌++◌, map, is_empty, join, if◌then◌else◌}
use forgery.Config.{Key, global_key, instance_key, duplicate_name, ErrValidation}

-- one part of the text, if there is anything to list
abbrev pub part : Str → List Str → List Str
part title entries = if is_empty entries then [] else (title ++ join (text ", ") entries) ∷ []

module _ (decimal : ℕ → Str) (quote : Str → Str) where
  abbrev prefix : ℕ → Str
  prefix i = text "instances[" ++ decimal i ++ text "]"

  unfoldable pub missing_text : Key → Str
  missing_text (global_key name) = name
  missing_text (instance_key i name) = prefix i ++ text "." ++ name
  missing_text (duplicate_name i name prev) =
      prefix i
      ++ text ".name (duplicate instance name "
      ++ quote name
      ++ text ", already used by instances["
      ++ decimal prev
      ++ text "])"

  unfoldable pub invalid_text : Key → Str
  unfolding missing_text
  invalid_text (global_key name) = name ++ text " (must be positive)"
  invalid_text (instance_key i name) =
      missing_text (instance_key i name) ++ text " (must be positive)"
  invalid_text (duplicate_name i name prev) = missing_text (duplicate_name i name prev)

  unfoldable pub error_text : ErrValidation → Str
  error_text v = join (text "; ") (
      part (text "missing required configuration: ") (map missing_text v.missing)
      ++ part (text "invalid configuration values: ") (map invalid_text v.invalid))
