-- ===== src/Log.antt =====
-- internal/pkg/xgorm/zap_logger.go: what gorm's log calls become in the zap logger.
use hermet.Base.{
  ℕ, ◌≤◌, ◌≡◌, String, Bool, false, not, ◌&&◌, ◌||◌, Option, none, some, ltb, leb, ℤ, pos, is_zero,
  less, if◌then◌else◌, Error, is, gorm_record_not_found, arith,
}

-- gorm's levels: silent, error, warn, info.
abbrev pub LogLevel : Type 0
LogLevel = ℕ

abbrev pub silent : LogLevel
silent = 1

abbrev pub error : LogLevel
error = 2

abbrev pub warn : LogLevel
warn = 3

abbrev pub info : LogLevel
info = 4

-- Durations are signed, in nanoseconds.
pub record ZapLogger : Type 0 where
  pub log_level : LogLevel
  pub slow_threshold : ℤ
  pub ignore_record_not_found_error : Bool

-- What is written, with the statement, the time and the rows.
pub data Entry : Type 0 where
  query_error : String → ℤ → ℕ → Error → Entry
  slow_query : String → ℤ → ℕ → Entry
  query : String → ℤ → ℕ → Entry

abbrev or_default {ℓ} : {A : Type ℓ} → Option A → A → A
or_default none d = d
or_default (some a) d = a

-- The options that the provider gives, on the defaults.
unfoldable pub new_zap_logger : Option LogLevel → Option ℤ → Option Bool → ZapLogger
new_zap_logger level threshold ignore = record {
  log_level = or_default level warn;
  slow_threshold = or_default threshold (pos 100000000);
  ignore_record_not_found_error = or_default ignore false;
}

unfoldable pub log_mode : ZapLogger → LogLevel → ZapLogger
log_mode zl level = record zl { log_level = level }

-- Whether `Info`, `Warn` and `Error` write.
unfoldable pub writes : ZapLogger → LogLevel → Bool
writes zl level = not (ltb zl.log_level level)

-- The error that is reported, if it is.
abbrev reports : ZapLogger → Option Error → Bool
reports zl none = false
reports zl (some e) = not zl.ignore_record_not_found_error || not (is e gorm_record_not_found)

abbrev error_entry : String → ℤ → ℕ → Option Error → Option Entry
error_entry sql elapsed rows none = none
error_entry sql elapsed rows (some e) = some (query_error sql elapsed rows e)

unfoldable pub trace : ZapLogger → ℤ → String → ℕ → Option Error → Option Entry
trace zl elapsed sql rows e =
    if leb zl.log_level silent
    then none
    else if leb error zl.log_level && reports zl e
    then error_entry sql elapsed rows e
    else if not (is_zero zl.slow_threshold)
        && less zl.slow_threshold elapsed
        && leb warn zl.log_level
    then some (slow_query sql elapsed rows)
    else if leb info zl.log_level
    then some (query sql elapsed rows)
    else none

-- A higher level loses nothing: what is written at a level is written, the same, at each level
-- above.
pub trace-log_mode :
    (zl : ZapLogger) (level : LogLevel) (elapsed : ℤ) (sql : String) (rows : ℕ) (e : Option Error)
    (entry : Entry)
    → zl.log_level ≤ level
    → trace zl elapsed sql rows e ≡ some entry
    → trace (log_mode zl level) elapsed sql rows e ≡ some entry
unfolding trace log_mode
trace-log_mode zl level elapsed sql rows none entry le h = ground arith
trace-log_mode zl level elapsed sql rows (some x) entry le h = ground arith
