-- ===== src/Observability.antt =====
-- internal/observability/logger.go: the level of a logger. The logger itself is zerolog's.
pub mod Metrics
use qtip_challenge.Base.{String, true, ◌≡◌, refl, str_eq, if◌then◌else◌}
use qtip_challenge.Config.Validate.{is_log_level}

-- zerolog.Level
pub data Level : Type 0 where
  debug_level info_level warn_level error_level : Level

-- The switch of NewLogger.
unfoldable pub logger_level : String → Level
logger_level level =
    if str_eq level "debug"
    then debug_level
    else if str_eq level "warn"
    then warn_level
    else if str_eq level "error"
    then error_level
    else info_level

-- Validate takes a level in capitals for one that it knows, and the logger does not.
capitals_log_at_info : (is_log_level "DEBUG" ≡ true) × (logger_level "DEBUG" ≡ info_level)
unfolding is_log_level logger_level
capitals_log_at_info = (refl, refl)
