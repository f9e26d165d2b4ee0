-- ===== src/Observability/Levels.antt =====
-- internal/observability/log.go: which records a configured logger writes.
use forgery.Base.{
  ℕ, ◌≡◌, ◌↔◌, ◌⊎◌, inl, inr, refl, arith, Str, text, str_eq, eq_iff, to_lower, Bool, true, false,
  leb,
}
use forgery.Observability.{Level, debug, info, warn, error, new_logger, level_of}

-- the number that log/slog gives a level, raised by four
abbrev severity : Level → ℕ
severity debug = 0
severity info = 4
severity warn = 8
severity error = 12

-- A record is written if its level is at least the logger's.
abbrev pub is_written : Str → Level → Bool
is_written name l = leb (severity (new_logger name (text "json")).level) (severity l)

module _ (n : Str) where
  writes_error : leb (severity (level_of n)) 12 ≡ true
  unfolding level_of
  writes_error = ground arith

  writes_debug : (leb (severity (level_of n)) 0 ≡ true) ↔ (n ≡ text "debug")
  unfolding level_of
  writes_debug =
      (λ h. ground (arith, eq_iff n (text "debug")), λ h. ground (arith, eq_iff n (text "debug")))

  omits_info : (leb (severity (level_of n)) 4 ≡ false) ↔ ((n ≡ text "warn") ⊎ (n ≡ text "error"))
  unfolding level_of
  omits_info = (
    λ h. ground (arith, eq_iff n (text "warn"), eq_iff n (text "error")),
    λ h. elim h [ inl e ↦ rw e refl | inr e ↦ rw e refl ],
  )

-- A logger writes errors whatever its level; it writes debug records exactly if its level is `debug` in any
-- case, and info records unless its level is `warn` or `error`.
pub is_written_lem :
    (name : Str)
    → (is_written name error ≡ true)
      × ((is_written name debug ≡ true) ↔ (to_lower name ≡ text "debug"))
      × ((is_written name info ≡ false)
          ↔ ((to_lower name ≡ text "warn") ⊎ (to_lower name ≡ text "error")))
unfolding new_logger
is_written_lem name =
    (writes_error (to_lower name), writes_debug (to_lower name), omits_info (to_lower name))
