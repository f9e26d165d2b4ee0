-- ===== src/Observability.antt =====
-- internal/observability: the level and the format of the log, and the health probe. encoding/json is a
-- parameter.
pub mod Health
pub mod Levels
use forgery.Base.{
  ℕ, Str, text, Bool, true, ◌==◌, leb, str_eq, List, [], ◌∷◌, Dict, to_lower, if◌then◌else◌,
}
use forgery.Mux.{Table}

-- the levels of log/slog, from the least severe on
pub data Level : Type 0 where
  debug info warn error : Level

pub data Format : Type 0 where
  json plain_text : Format

pub record Logger : Type 0 where
  pub level : Level
  pub format : Format

level_of : Str → Level
level_of name =
    if name == text "debug"
    then debug
    else if name == text "warn"
    then warn
    else if name == text "error"
    then error
    else info

format_of : Str → Format
format_of name = if name == text "text" then plain_text else json

unfoldable pub new_logger : Str → Str → Logger
unfolding level_of format_of
new_logger level format = record {
  level = level_of (to_lower level);
  format = format_of (to_lower format);
}

-- what a handler writes
pub record Response : Type 0 where
  pub status : ℕ
  pub content_type : Str
  pub body : Str

unfoldable pub probe : (Dict Str Str → Str) → Response
probe encode = record {
  status = 200;
  content_type = text "application/json";
  body = encode ((text "status", text "ok") ∷ []);
}

-- the one handler, under its two patterns
unfoldable pub health_handler : (Dict Str Str → Str) → Table Response
unfolding probe
health_handler encode = (text "/healthz", probe encode) ∷ (text "/readyz", probe encode) ∷ []
