-- ===== src/Log/Tests.antt =====
-- Tests of the loggers and the formatter, and the theorems at concrete values.
use echo_web_server.Prelude.{
  ℕ, ◌≡◌, refl, true, false, [], ◌∷◌, ◌++◌, none, some, arith, ◌≤◌, ◌<◌, ◌⊎◌,
}
use echo_web_server.Run.{Bytes, codes, ok, throw, fault, Yields, returned, invalid_argument}
use echo_web_server.Text.{string_to_upper}
use echo_web_server.Log.{
  LogLevel, warn, error, fatal, string_to_level, Event, std_out, file, appender_type_to_string,
  string_to_appender_type,
}
use echo_web_server.Log.Fields.{
  raw, tagged, is_alpha, parse_pattern, formatter_of, format, message, raw_string, level,
}
use echo_web_server.Log.Pattern.{IsStop, nothing, plain, tag, tag_with_format, parse_pattern-Writes}
use echo_web_server.Log.Logger.{
  Logger, Output, Written, log, add_appender, remove_appender, clear_appenders, set_level,
}
use echo_web_server.Log.Setup.{LoggerConfig, Setting, set_up, on_change}
use echo_web_server.Log.Configured.{IsSetUp, needs_none, can_open, set_up-IsSetUp}
use echo_web_server.Log.Writing.{done, piece, log-Pieces}
use echo_web_server.Log.Removing.{remove_appender_behaviour}
use echo_web_server.Log.Async.{
  AsyncLogger, of_capacity, Step, locks, pushes, Reach, here, next, IsDeadlocked, log-deadlocks,
  IsInOrder, Reach-IsInOrder,
}

abbrev event_of : LogLevel → Event
event_of severity = record {
  level = severity;
  file_name = codes "a.cpp";
  line_num = 12;
  thread_id = 3;
  time = 0;
  message = codes "hi";
}

-- A logger of the level `Warn` with two appenders.
abbrev two_appenders : Logger
two_appenders = record {
  name = codes "root";
  level = warn;
  capacity = 0;
  formatter = some 0;
  appenders = some 1 ∷ some 2 ∷ [];
}

abbrev nothing_written : Output
nothing_written = record { formatters = λ a. some 0; written = [] }

abbrev written_by : ℕ → Written
written_by a = record { appender = a; formatter = 0; event = event_of error }

abbrev plain_time : Bytes → ℕ → Bytes
plain_time form time = form

test_string_to_level : string_to_level (codes "wARn") ≡ returned warn
unfolding string_to_level string_to_upper
test_string_to_level = refl

test_appender_type : string_to_appender_type (appender_type_to_string file) ≡ returned file
unfolding string_to_appender_type string_to_upper appender_type_to_string
test_appender_type = refl

-- The second of two percent signs starts a field.
test_percent : parse_pattern (codes "a%%m") ≡ ok (raw (codes "a%") ∷ tagged (codes "m") [] ∷ [])
unfolding parse_pattern
test_percent = refl

test_open_brace :
    parse_pattern (codes "%d{%H")
    ≡ throw (invalid_argument (codes "Invalid log format pattern: '%d{%H'"))
unfolding parse_pattern
test_open_brace = refl

test_unknown_tag :
    formatter_of (codes "%x ") ≡ throw (invalid_argument (codes "Invalid log format field: 'x'"))
unfolding formatter_of
test_unknown_tag = refl

test_formatter :
    formatter_of (codes "[%p] %m")
    ≡ ok (raw_string (codes "[") ∷ level ∷ raw_string (codes "] ") ∷ message ∷ [])
unfolding formatter_of
test_formatter = refl

test_format :
    format plain_time
      (codes "root")
      (event_of error)
      (raw_string (codes "[") ∷ level ∷ raw_string (codes "] ") ∷ message ∷ [])
    ≡ codes "[Error] hi"
unfolding format
test_format = refl

test_add_appender :
    (add_appender 3 two_appenders nothing_written).0.appenders ≡ some 1 ∷ some 2 ∷ some 3 ∷ []
unfolding add_appender
test_add_appender = refl

test_clear_appenders : (clear_appenders two_appenders).appenders ≡ []
unfolding clear_appenders
test_clear_appenders = refl

test_set_level :
    log (event_of error) (set_level fatal two_appenders) nothing_written ≡ ok nothing_written
unfolding log set_level
test_set_level = refl

-- A null formatter is dereferenced by the next event.
test_null_formatter :
    log (event_of error) two_appenders (record { formatters = λ a. none; written = [] }) ≡ fault
unfolding log
test_null_formatter = refl

log-Pieces_example :
    ((2 ≤ 3)
      × (log (event_of error) two_appenders nothing_written
          ≡ ok (record nothing_written { written = [] ++ written_by 1 ∷ written_by 2 ∷ [] })))
    ⊎ ((3 < 2) × (log (event_of error) two_appenders nothing_written ≡ ok nothing_written))
log-Pieces_example =
    log-Pieces (event_of error) two_appenders nothing_written refl
      (piece 1 0 refl (piece 2 0 refl done))

-- An event of the logger's own level is written.
test_log_level :
    log (event_of warn) (clear_appenders two_appenders) nothing_written ≡ ok nothing_written
unfolding log clear_appenders
test_log_level = refl

remove_appender_behaviour_example :
    (remove_appender 1 (record two_appenders { appenders = [] ++ some 1 ∷ [] })
      ≡ record two_appenders { appenders = [] ++ some 1 ∷ [] })
    × (remove_appender 1 two_appenders
        ≡ record two_appenders { appenders = [] ++ ((some 2 ∷ []) ++ none ∷ []) })
    × (log (event_of error) (remove_appender 1 two_appenders) nothing_written ≡ fault)
remove_appender_behaviour_example =
    remove_appender_behaviour 1 [] (some 2) [] (event_of error) two_appenders nothing_written refl
      tt ((λ e. ground (arith, e)), tt) (omega arith)

log-deadlocks_example :
    (r : AsyncLogger) × Reach (of_capacity 1) r
    × IsDeadlocked r
    × ((q : AsyncLogger) → Step r q → q ≡ record r { closed = true; deq = [] })
log-deadlocks_example =
    log-deadlocks 1 (event_of warn) (event_of fatal) (event_of error ∷ []) (omega arith) refl

abbrev one_accepted : AsyncLogger
one_accepted = record (of_capacity 4) { deq = event_of warn ∷ []; accepted = event_of warn ∷ [] }

Reach-IsInOrder_example : IsInOrder one_accepted
Reach-IsInOrder_example =
    Reach-IsInOrder 4
      (next (next here (locks (event_of warn) refl)) (pushes (event_of warn) refl (omega arith)))

letter_d : is_alpha b'd' ≡ true
unfolding is_alpha
letter_d = refl

letter_p : is_alpha b'p' ≡ true
unfolding is_alpha
letter_p = refl

bracket : IsStop (b']' ∷ [])
unfolding is_alpha
bracket = refl

parse_pattern-Writes_example :
    parse_pattern (codes "[%d{%H}%p]")
    ≡ ok (
        raw (codes "[")
        ∷ tagged (codes "d") (codes "%H")
        ∷ tagged (codes "p") []
        ∷ raw (codes "]")
        ∷ [])
parse_pattern-Writes_example = parse_pattern-Writes (
    plain b'[' [] (refl, tt) refl
      (tag_with_format b'd' [] b'%' (codes "H") (letter_d, tt) (refl, (refl, tt))
        (tag b'p' [] (letter_p, tt) bracket (plain b']' [] (refl, tt) tt nothing))))

abbrev service : LoggerConfig
service = record {
  name = codes "net";
  level = error;
  capacity = 0;
  formatter = codes "%m";
  appenders =
      record { type = std_out; formatter = []; file = [] }
      ∷ record { type = file; formatter = []; file = codes "a.txt" }
      ∷ [];
}

abbrev no_setting : Setting
no_setting = record {
  manager = record { loggers = []; store = λ j. two_appenders; next_logger = 0 };
  output = nothing_written;
  places = λ a. none;
  fields = λ j. [];
  next_appender = 3;
  next_formatter = 1;
}

test_on_change_known :
    on_change (λ name. true) (service ∷ []) (service ∷ []) no_setting ≡ ok no_setting
unfolding on_change
test_on_change_known = refl

-- A file that cannot be opened ends the program.
test_on_change_unopened : on_change (λ name. false) [] (service ∷ []) no_setting ≡ fault
unfolding on_change
test_on_change_unopened = refl

message_only : formatter_of (codes "%m") ≡ ok (message ∷ [])
unfolding formatter_of
message_only = refl

set_up-IsSetUp_example :
    Yields (IsSetUp service no_setting) (set_up (λ name. true) service no_setting)
set_up-IsSetUp_example =
    set_up-IsSetUp (λ name. true) service no_setting refl (λ h e. refl) (message ∷ [], message_only)
      (needs_none refl, (can_open refl refl, tt))
