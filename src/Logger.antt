-- ===== src/Logger.antt =====
-- src/logger.hpp and src/logger.cpp. A call of `log` gives the text that it writes. The clock's time
-- is in nanoseconds; `put_time` is what `std::put_time` writes of a second, which depends on the
-- time zone.
pub mod Timestamps
use valkyrie_fs.Base.{ℕ, ◌/◌, ◌%◌, ◌++◌, Text, codes}
use valkyrie_fs.Predictor.Names.{padded}

pub data LogLevel : Type 0 where
  debug_level info_level warn_level error_level : LogLevel

-- `Logger::level_to_string`
unfoldable pub level_to_string : LogLevel → Text
level_to_string debug_level = codes "DEBUG"
level_to_string info_level = codes "INFO"
level_to_string warn_level = codes "WARN"
level_to_string error_level = codes "ERROR"

module _ (put_time : ℕ → Text) where
  -- `Logger::get_timestamp`
  unfoldable pub get_timestamp : ℕ → Text
  unfolding padded
  get_timestamp now = put_time (now / 1000000000) ++ (codes "." ++ padded 3 (now / 1000000 % 1000))

  -- `Logger::log`
  unfoldable pub log : ℕ → LogLevel → Text → Text → Text
  unfolding get_timestamp level_to_string
  log now level component message =
      get_timestamp now
      ++ (codes " "
          ++ (codes "["
              ++ (level_to_string level
                  ++ (codes "] " ++ (component ++ (codes ": " ++ (message ++ codes "\n")))))))

  unfoldable pub debug : ℕ → Text → Text → Text
  unfolding log
  debug now component message = log now debug_level component message

  unfoldable pub info : ℕ → Text → Text → Text
  unfolding log
  info now component message = log now info_level component message

  unfoldable pub warn : ℕ → Text → Text → Text
  unfolding log
  warn now component message = log now warn_level component message

  unfoldable pub error : ℕ → Text → Text → Text
  unfolding log
  error now component message = log now error_level component message
