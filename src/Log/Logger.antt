-- ===== src/Log/Logger.antt =====
-- `Logger` and `Manager` of src/log/log.cpp, and `Appender` of src/log/appender.cpp, for loggers that
-- write at once, that is without a capacity. Appenders and formatters are shared pointers, here numbers;
-- an appender's formatter lies in a store, where a null pointer is `none`. Text goes to the appenders as
-- pairs of a formatter and an event, which the formatter's own module turns into bytes.
use echo_web_server.Prelude.{
  ℕ, suc, Bool, false, List, [], ◌∷◌, ◌++◌, Option, none, some, leb, ◌==◌, if◌then◌else◌, length,
  drop, present,
}
use echo_web_server.Run.{Bytes, Run, ok, fault, ◌>>=◌}
use echo_web_server.Http.{equal}
use echo_web_server.Log.{LogLevel, number, Event}

-- A piece of text that an appender has written.
pub record Written : Type 0 where
  pub appender : ℕ
  pub formatter : ℕ
  pub event : Event

pub record Logger : Type 0 where
  pub name : Bytes
  pub level : LogLevel
  pub capacity : ℕ
  pub formatter : Option ℕ
  pub appenders : List (Option ℕ)

-- The appenders' formatters, and what has been written.
pub record Output : Type 0 where
  pub formatters : ℕ → Option ℕ
  pub written : List Written

-- `Formatter::Default()`
abbrev pub default_formatter : ℕ
default_formatter = 0

-- `Logger(name, level, capacity)`: of a capacity that is not zero only the number is kept here, and the queue
-- and the thread that it adds are those of the asynchronous logger's model.
unfoldable pub of_name : Bytes → LogLevel → ℕ → Logger
of_name name level capacity = record {
  name = name;
  level = level;
  capacity = capacity;
  formatter = some default_formatter;
  appenders = [];
}

-- `Appender::GetFormatter`, and `Appender::SetFormatter`
unfoldable pub get_formatter : ℕ → Output → Option ℕ
get_formatter a o = o.formatters a

unfoldable pub set_formatter : ℕ → Option ℕ → Output → Output
set_formatter a formatter o = record o {
  formatters = λ b. if a == b then formatter else o.formatters b;
}

-- `Log` of an appender: a null formatter is dereferenced.
unfoldable pub append_event : ℕ → Event → Output → Run Output
append_event a e o = elim (o.formatters a) [
  | none ↦ fault
  | some f ↦
      ok
        (record o { written = o.written ++ record { appender = a; formatter = f; event = e } ∷ [] })
]

-- `SyncLog`: each appender in turn; a null appender is dereferenced.
unfoldable pub sync_log : List (Option ℕ) → Event → Output → Run Output
unfolding append_event
sync_log [] e o = ok o
sync_log (none ∷ appenders) e o = fault
sync_log (some a ∷ appenders) e o = append_event a e o >>= λ o'. sync_log appenders e o'

-- `event->Level() >= level_`
abbrev pub enabled : Logger → Event → Bool
enabled l e = leb (number l.level) (number e.level)

-- `Logger::Log`, for a logger whose capacity is zero.
unfoldable pub log : Event → Logger → Output → Run Output
unfolding sync_log
log e l o = if enabled l e then sync_log l.appenders e o else ok o

-- `AddAppender`, of a pointer that is not null.
unfoldable pub add_appender : ℕ → Logger → Output → Logger × Output
unfolding get_formatter set_formatter
add_appender a l o = (
  record l { appenders = l.appenders ++ some a ∷ [] },
  if present (get_formatter a o) then o else set_formatter a l.formatter o,
)

abbrev pub is_pointer : ℕ → Option ℕ → Bool
is_pointer a none = false
is_pointer a (some b) = b == a

-- The elements that `std::remove_if` keeps of those behind the first that it removes.
unfoldable pub kept : ℕ → List (Option ℕ) → List (Option ℕ)
kept a [] = []
kept a (x ∷ xs) = let rest = kept a xs in if is_pointer a x then rest else x ∷ rest

-- What a place holds before something is moved into it: the pointer that is removed, or a null pointer,
-- since a pointer that is kept has been moved away.
abbrev pub moved_from : ℕ → List (Option ℕ) → List (Option ℕ)
moved_from a [] = []
moved_from a (x ∷ xs) = (if is_pointer a x then x else none) ∷ moved_from a xs

-- `std::remove_if`: what is kept is moved towards the front, behind which the places stay as they are.
unfoldable pub remove_if : ℕ → List (Option ℕ) → List (Option ℕ)
unfolding kept
remove_if a [] = []
remove_if a (x ∷ xs) =
    let rest = remove_if a xs in
    if is_pointer a x
    then kept a xs ++ drop (length (kept a xs)) (x ∷ moved_from a xs)
    else x ∷ rest

-- `RemoveAppender`, which does not erase what stands behind the new end.
unfoldable pub remove_appender : ℕ → Logger → Logger
unfolding remove_if
remove_appender a l = record l { appenders = remove_if a l.appenders }

unfoldable pub clear_appenders : Logger → Logger
clear_appenders l = record l { appenders = [] }

unfoldable pub set_level : LogLevel → Logger → Logger
set_level level l = record l { level = level }

-- The loop of `SetDefaultFormatter`.
unfoldable pub set_formatters : List (Option ℕ) → Option ℕ → Output → Run Output
unfolding set_formatter
set_formatters [] formatter o = ok o
set_formatters (none ∷ appenders) formatter o = fault
set_formatters (some a ∷ appenders) formatter o =
    set_formatters appenders formatter (set_formatter a formatter o)

unfoldable pub set_default_formatter : Option ℕ → Logger → Output → Run (Logger × Output)
unfolding set_formatters
set_default_formatter formatter l o = do
  o' ← set_formatters l.appenders formatter o
  ok (record l { formatter = formatter }, o')

-- `Manager`: its loggers are shared pointers, here numbers with the loggers in a store.
pub record Manager : Type 0 where
  pub loggers : List (Bytes × ℕ)
  pub store : ℕ → Logger
  pub next_logger : ℕ

unfoldable pub find_by_name : Bytes → List (Bytes × ℕ) → Option ℕ
unfolding equal
find_by_name name [] = none
find_by_name name ((k, h) ∷ m) = if equal k name then some h else find_by_name name m

-- `FindLogger`: the logger of the name, which is created if there is none.
unfoldable pub find_logger : Bytes → LogLevel → ℕ → Manager → ℕ × Manager
unfolding find_by_name of_name
find_logger name level capacity m = elim (find_by_name name m.loggers) [
  | some h ↦ (h, m)
  | none ↦ (
    m.next_logger,
    record {
      loggers = (name, m.next_logger) ∷ m.loggers;
      store = λ j. if m.next_logger == j then of_name name level capacity else m.store j;
      next_logger = suc m.next_logger;
    },
  )
]

abbrev pub erased : Bytes → List (Bytes × ℕ) → List (Bytes × ℕ)
erased name [] = []
erased name ((k, h) ∷ m) = let rest = erased name m in if equal k name then rest else (k, h) ∷ rest

-- `RemoveLogger`. A logger without a capacity has no thread that its destructor would wait for.
unfoldable pub remove_logger : Bytes → Manager → Manager
unfolding equal
remove_logger name m = record m { loggers = erased name m.loggers }
