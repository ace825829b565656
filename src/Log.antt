-- ===== src/Log.antt =====
-- include/log.h and src/log/: levels, the kinds of appenders and events. The children model the
-- formatter's patterns, the loggers, the loggers that write in a thread of their own, and their set-up from
-- a configuration.
pub mod Level
pub mod Pattern
pub mod Fields
pub mod Logger
pub mod Writing
pub mod Removing
pub mod Async
pub mod Setup
pub mod Configured
mod Tests
use echo_web_server.Prelude.{ℕ, List, [], ◌∷◌, ◌++◌, Option, none, some}
use echo_web_server.Run.{Bytes, codes, Try, returned, raise, Exception, invalid_argument}
use echo_web_server.Text.{string_to_upper}
use echo_web_server.Http.{lookup}

pub data LogLevel : Type 0 where
  debug info warn error fatal : LogLevel

-- The number of an enumerator, by which levels are compared.
abbrev pub number : LogLevel → ℕ
number debug = 0
number info = 1
number warn = 2
number error = 3
number fatal = 4

unfoldable pub level_to_string : LogLevel → Bytes
level_to_string debug = codes "Debug"
level_to_string info = codes "Info"
level_to_string warn = codes "Warn"
level_to_string error = codes "Error"
level_to_string fatal = codes "Fatal"

abbrev pub levels : List (Bytes × LogLevel)
levels =
    (codes "DEBUG", debug)
    ∷ (codes "INFO", info)
    ∷ (codes "WARN", warn)
    ∷ (codes "ERROR", error)
    ∷ (codes "FATAL", fatal)
    ∷ []

unfoldable pub string_to_level : Bytes → Try LogLevel
unfolding string_to_upper lookup
string_to_level str = elim (lookup (string_to_upper str) levels) [
  | some level ↦ returned level
  | none ↦
      raise (invalid_argument (codes "Invalid log level: '" ++ (string_to_upper str ++ codes "'")))
]

pub data AppenderType : Type 0 where
  std_out file : AppenderType

unfoldable pub appender_type_to_string : AppenderType → Bytes
appender_type_to_string std_out = codes "StdOut"
appender_type_to_string file = codes "File"

abbrev pub appender_types : List (Bytes × AppenderType)
appender_types = (codes "STDOUT", std_out) ∷ (codes "FILE", file) ∷ []

unfoldable pub string_to_appender_type : Bytes → Try AppenderType
unfolding string_to_upper lookup
string_to_appender_type str = elim (lookup (string_to_upper str) appender_types) [
  | some type ↦ returned type
  | none ↦ raise (
      invalid_argument (codes "Invalid log appender type: '" ++ (string_to_upper str ++ codes "'")))
]

-- `Event`, with the message that has been written into its stream.
pub record Event : Type 0 where
  pub level : LogLevel
  pub file_name : Bytes
  pub line_num : ℕ
  pub thread_id : ℕ
  pub time : ℕ
  pub message : Bytes
