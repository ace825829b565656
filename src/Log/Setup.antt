-- ===== src/Log/Setup.antt =====
-- src/log/config_init.h and src/log/config_init.cpp: the listener that sets loggers up when their
-- configuration changes. It is `noexcept`: an exception ends the program. Whether a file can be opened is
-- a parameter. A logger with a capacity is made without its queue and its thread, and the loggers that are
-- removed are taken to have none to wait for.
use echo_web_server.Prelude.{
  ℕ, suc, Bool, true, false, ◌&&◌, List, [], ◌∷◌, some, ◌==◌, if◌then◌else◌, Option,
}
use echo_web_server.Run.{Bytes, Run, ok, throw, fault, out_of_fuel, ◌>>=◌}
use echo_web_server.Http.{equal}
use echo_web_server.Log.{LogLevel, number, AppenderType, std_out, file}
use echo_web_server.Log.Fields.{Field, formatter_of}
use echo_web_server.Log.Logger.{
  Logger, Output, set_formatter, add_appender, clear_appenders, set_default_formatter, Manager,
  find_logger, remove_logger,
}

pub record AppenderConfig : Type 0 where
  pub type : AppenderType
  pub formatter : Bytes
  pub file : Bytes

pub record LoggerConfig : Type 0 where
  pub name : Bytes
  pub level : LogLevel
  pub capacity : ℕ
  pub formatter : Bytes
  pub appenders : List AppenderConfig

abbrev pub same_type : AppenderType → AppenderType → Bool
same_type std_out std_out = true
same_type file file = true
same_type _ _ = false

-- `==` of the configurations.
unfoldable pub same_appender : AppenderConfig → AppenderConfig → Bool
unfolding equal
same_appender a b =
    (same_type a.type b.type && equal a.formatter b.formatter) && equal a.file b.file

unfoldable pub same_appenders : List AppenderConfig → List AppenderConfig → Bool
unfolding same_appender
same_appenders [] [] = true
same_appenders (a ∷ more) (b ∷ others) = same_appender a b && same_appenders more others
same_appenders _ _ = false

unfoldable pub same_logger : LoggerConfig → LoggerConfig → Bool
unfolding same_appenders
same_logger a b =
    (((equal a.name b.name && number a.level == number b.level) && a.capacity == b.capacity)
      && equal a.formatter b.formatter)
    && same_appenders a.appenders b.appenders

-- `old_cfgs.find(logger_cfg)`, which compares by `==` within a bucket.
unfoldable pub is_known : LoggerConfig → List LoggerConfig → Bool
unfolding same_logger
is_known c [] = false
is_known c (old ∷ olds) = let rest = is_known c olds in if same_logger old c then true else rest

-- Where an appender writes.
pub data Place : Type 0 where
  to_std_out : Place
  to_file : Bytes → Place

-- The manager, the appenders with their places, and the formatters with their fields; a new object has the
-- next number.
pub record Setting : Type 0 where
  pub manager : Manager
  pub output : Output
  pub places : ℕ → Option Place
  pub fields : ℕ → List Field
  pub next_appender : ℕ
  pub next_formatter : ℕ

abbrev pub terminating : {A : Type 0} → Run A → Run A
terminating (ok a) = ok a
terminating (throw x) = fault
terminating fault = fault
terminating out_of_fuel = out_of_fuel

-- `SetDefaultFormatter(pattern)`, unless the pattern is empty.
unfoldable pub with_pattern : Bytes → Logger → Setting → Run (Logger × Setting)
unfolding formatter_of set_default_formatter
with_pattern [] l s = ok (l, s)
with_pattern (c ∷ pattern) l s = do
  fs ← terminating (formatter_of (c ∷ pattern))
  r ← set_default_formatter (some s.next_formatter) l s.output
  ok (
    r.0,
    record s {
      output = r.1;
      fields = λ j. if s.next_formatter == j then fs else s.fields j;
      next_formatter = suc s.next_formatter;
    },
  )

-- A new appender with the logger's formatter, and `AddAppender`.
unfoldable pub added : Place → Logger → Setting → Logger × Setting
unfolding set_formatter add_appender
added place l s =
    let created = set_formatter s.next_appender l.formatter s.output in
    let r = add_appender s.next_appender l created in
    (
      r.0,
      record s {
        output = r.1;
        places = λ a. if s.next_appender == a then some place else s.places a;
        next_appender = suc s.next_appender;
      },
    )

module _ (opens : Bytes → Bool) where
  -- The `switch` on the type; a file that cannot be opened is an exception.
  unfoldable pub add_configured : AppenderConfig → Logger → Setting → Run (Logger × Setting)
  unfolding added
  add_configured a l s = elim a.type [
    | std_out ↦ ok (added to_std_out l s)
    | file ↦ if opens a.file then ok (added (to_file a.file) l s) else fault
  ]

  unfoldable pub add_all_configured :
      List AppenderConfig → Logger → Setting → Run (Logger × Setting)
  unfolding add_configured
  add_all_configured [] l s = ok (l, s)
  add_all_configured (a ∷ more) l s = do r ← add_configured a l s; add_all_configured more r.0 r.1

  -- A configuration that is new or has changed.
  unfoldable pub set_up : LoggerConfig → Setting → Run Setting
  unfolding find_logger remove_logger with_pattern clear_appenders add_all_configured
  set_up c s =
      let found = find_logger c.name c.level c.capacity (remove_logger c.name s.manager) in
      with_pattern c.formatter (found.1.store found.0) s >>= λ r.
      add_all_configured c.appenders (clear_appenders r.0) r.1 >>= λ q. ok (record q.1 {
        manager = record found.1 { store = λ j. if found.0 == j then q.0 else found.1.store j };
      })

  -- The listener of `SetListener`.
  unfoldable pub on_change : List LoggerConfig → List LoggerConfig → Setting → Run Setting
  unfolding is_known set_up
  on_change old_cfgs [] s = ok s
  on_change old_cfgs (c ∷ new_cfgs) s = elim (is_known c old_cfgs) [
    | true ↦ on_change old_cfgs new_cfgs s
    | false ↦ set_up c s >>= λ s'. on_change old_cfgs new_cfgs s'
  ]
