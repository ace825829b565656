-- ===== src/Log/Configured.antt =====
-- The logger that a changed configuration sets up.
use echo_web_server.Prelude.{
  ℕ, suc, ◌<◌, ◌≡◌, refl, sym, ap, ◌∙◌, Bool, true, List, [], ◌∷◌, ◌++◌, Option, none, some, inl,
  inr, arith, ◌==◌, if◌then◌else◌, if_true, if_false, ==_self, ne→not_==, Bool-cases, append-nil,
  append_assoc,
}
use mathlib.Core.Path.{subst}
use echo_web_server.Run.{Bytes, ok, Yields, yields, Yields-bind}
use echo_web_server.Http.{equal}
use echo_web_server.Http.Tables.{equal_self}
use echo_web_server.Log.Writing.{
  created, find_by_name-erased, find_by_name-created, find_logger-new,
}
use echo_web_server.Log.{LogLevel, std_out, file}
use echo_web_server.Log.Fields.{Field, formatter_of}
use echo_web_server.Log.Logger.{
  Logger, Output, Manager, default_formatter, of_name, clear_appenders, find_by_name, get_formatter,
  set_formatter, add_appender, remove_logger, set_default_formatter,
}
use echo_web_server.Log.Setup.{
  AppenderConfig, LoggerConfig, Setting, Place, to_std_out, to_file, with_pattern, added,
  add_configured, add_all_configured, set_up,
}

-- The place that a configuration asks for.
pub data IsAt (c : AppenderConfig) : Place → Type 0 where
  at_std_out : c.type ≡ std_out → IsAt c to_std_out
  at_file : c.type ≡ file → IsAt c (to_file c.file)

-- The appenders are those of the configurations, in order: each is there, is older than the next one, has
-- the formatter, and writes to the configured place.
abbrev pub AllReady :
    ℕ → ℕ → (ℕ → Option ℕ) → (ℕ → Option Place) → List (Option ℕ) → List AppenderConfig → Type 0
AllReady f next formatters places [] [] = Unit {0}
AllReady f next formatters places (some a ∷ rest) (c ∷ cs) =
    (a < next)
    × (formatters a ≡ some f)
    × ((place : Place) × (places a ≡ some place) × IsAt c place)
    × AllReady f next formatters places rest cs
AllReady f next formatters places _ _ = ⊥

pub record IsReady (f : ℕ) (cs : List AppenderConfig) (level : LogLevel) (capacity : ℕ)
    (r : Logger × Setting) : Type 0 where
  pub formatter : r.0.formatter ≡ some f
  pub level_kept : r.0.level ≡ level
  pub capacity_kept : r.0.capacity ≡ capacity
  pub ready : AllReady f r.1.next_appender r.1.output.formatters r.1.places r.0.appenders cs

abbrev placed : ℕ → Place → (ℕ → Option Place) → ℕ → Option Place
placed next place places a = if next == a then some place else places a

AllReady-add :
    (f next : ℕ) (o : Output) (places : ℕ → Option Place) (place : Place) (c : AppenderConfig)
    (appenders : List (Option ℕ)) (cs : List AppenderConfig)
    → IsAt c place
    → AllReady f next o.formatters places appenders cs
    → AllReady f
        (suc next)
        (set_formatter next (some f) o).formatters
        (placed next place places)
        (appenders ++ some next ∷ [])
        (cs ++ c ∷ [])
unfolding set_formatter
AllReady-add f next o places place c [] [] at h = (
  omega arith,
  if_true (some f) (o.formatters next) (next == next) (==_self next),
  (place, if_true (some place) (places next) (next == next) (==_self next), at),
  tt,
)
AllReady-add f next o places place c [] (d ∷ cs) at h = absurd h
AllReady-add f next o places place c (none ∷ rest) [] at h = absurd h
AllReady-add f next o places place c (none ∷ rest) (d ∷ cs) at h = absurd h
AllReady-add f next o places place c (some a ∷ rest) [] at h = absurd h
AllReady-add f next o places place c (some a ∷ rest) (d ∷ cs) at
      (older, has, (p, put, where_to), h) =
    let before = ne→not_== next a λ e. omega (arith, e, older) in
    (
      omega (arith, older),
      if_false (some f) (o.formatters a) (next == a) before ∙ has,
      (p, if_false (some place) (places a) (next == a) before ∙ put, where_to),
      AllReady-add f next o places place c rest cs at h,
    )

-- The new appender has a formatter, so `AddAppender` leaves it.
add_ready :
    (f next : ℕ) (l : Logger) (o : Output)
    → add_appender next l (set_formatter next (some f) o)
      ≡ (record l { appenders = l.appenders ++ some next ∷ [] }, set_formatter next (some f) o)
unfolding add_appender get_formatter set_formatter
add_ready f next l o = rw (if_true (some f) (o.formatters next) (next == next) (==_self next)) refl

added_ready :
    (f : ℕ) (place : Place) (l : Logger) (s : Setting)
    → l.formatter ≡ some f
    → added place l s ≡ (
      record l { appenders = l.appenders ++ some s.next_appender ∷ [] },
      record s {
        output = set_formatter s.next_appender (some f) s.output;
        places = placed s.next_appender place s.places;
        next_appender = suc s.next_appender;
      },
    )
unfolding added
added_ready f place l s e =
    ap (λ g. renewed (add_appender s.next_appender l (set_formatter s.next_appender g s.output))) e
    ∙ ap renewed (add_ready f s.next_appender l s.output)
  where
    renewed : Logger × Output → Logger × Setting
    renewed r = (
      r.0,
      record s {
        output = r.1;
        places = placed s.next_appender place s.places;
        next_appender = suc s.next_appender;
      },
    )

added-IsReady :
    (f : ℕ) (cs : List AppenderConfig) (level : LogLevel) (capacity : ℕ) (c : AppenderConfig)
    (place : Place) (l : Logger) (s : Setting)
    → IsAt c place
    → IsReady f cs level capacity (l, s)
    → IsReady f (cs ++ c ∷ []) level capacity (added place l s)
added-IsReady f cs level capacity c place l s at v =
    rw (added_ready f place l s v.formatter) (record {
      formatter = v.formatter;
      level_kept = v.level_kept;
      capacity_kept = v.capacity_kept;
      ready = AllReady-add f s.next_appender s.output s.places place c l.appenders cs at v.ready;
    })

module _ (opens : Bytes → Bool) where
  -- An appender of the standard output needs no file; the files of the others can be opened.
  pub data IsOpenable (c : AppenderConfig) : Type 0 where
    needs_none : c.type ≡ std_out → IsOpenable c
    can_open : c.type ≡ file → opens c.file ≡ true → IsOpenable c

  abbrev pub AllOpenable : List AppenderConfig → Type 0
  AllOpenable [] = Unit {0}
  AllOpenable (c ∷ rest) = IsOpenable c × AllOpenable rest

  add_configured-added :
      (c : AppenderConfig) (l : Logger) (s : Setting)
      → IsOpenable c
      → (place : Place) × IsAt c place × (add_configured opens c l s ≡ ok (added place l s))
  unfolding add_configured
  add_configured-added c l s (needs_none t) =
      (to_std_out, at_std_out t, rw (t, add_configured) refl)
  add_configured-added c l s (can_open t o) =
      (to_file c.file, at_file t, rw (t, o, add_configured) refl)

  add_all_configured-IsReady :
      (f : ℕ) (done : List AppenderConfig) (level : LogLevel) (capacity : ℕ)
      (cs : List AppenderConfig) (l : Logger) (s : Setting)
      → AllOpenable cs
      → IsReady f done level capacity (l, s)
      → Yields
          (λ r. IsReady f (done ++ cs) level capacity r × (r.1.fields ≡ s.fields))
          (add_all_configured opens cs l s)
  unfolding add_all_configured added
  add_all_configured-IsReady f done level capacity [] l s o v =
      yields (rw (append-nil done) v, refl)
  add_all_configured-IsReady f done level capacity (c ∷ cs) l s (o, os) v =
      let (place, at, e) = add_configured-added c l s o in
      let next = added-IsReady f done level capacity c place l s at v in
      rw (e, ← (append_assoc done (c ∷ []) cs))
        (add_all_configured-IsReady f (done ++ c ∷ []) level capacity cs (added place l s).0
          (added place l s).1 os next)

-- The formatter of a logger: the default one, or one with the fields of the pattern.
pub data Uses : Bytes → ℕ → (ℕ → List Field) → Type 0 where
  default : {fields : ℕ → List Field} → Uses [] default_formatter fields
  own :
      {pattern : Bytes} {f : ℕ} {fields : ℕ → List Field}
      → formatter_of pattern ≡ ok (fields f)
      → Uses pattern f fields

-- The pattern is empty or that of a formatter.
abbrev pub IsUsable : Bytes → Type 0
IsUsable [] = Unit {0}
IsUsable (c ∷ pattern) = (fs : List Field) × (formatter_of (c ∷ pattern) ≡ ok fs)

with_pattern-Uses :
    (pattern name : Bytes) (level : LogLevel) (capacity : ℕ) (s : Setting)
    → IsUsable pattern
    → Yields
        (λ r.
          (f : ℕ) × Uses pattern f r.1.fields
          × (r.0 ≡ record (of_name name level capacity) { formatter = some f }))
        (with_pattern pattern (of_name name level capacity) s)
unfolding with_pattern set_default_formatter of_name
with_pattern-Uses [] name level capacity s u = yields (default_formatter, default, refl)
with_pattern-Uses (c ∷ pattern) name level capacity s (fs, e) =
    let new = s.next_formatter in
    rw (e, with_pattern)
      (yields
        (new, own (e ∙ ap ok (sym (if_true fs (s.fields new) (new == new) (==_self new)))), refl))

cleared-IsReady :
    (f : ℕ) (name : Bytes) (level : LogLevel) (capacity : ℕ) (r : Logger × Setting)
    → r.0 ≡ record (of_name name level capacity) { formatter = some f }
    → IsReady f [] level capacity (clear_appenders r.0, r.1)
unfolding clear_appenders of_name
cleared-IsReady f name level capacity r e = record {
  formatter = ap (λ l. l.formatter) e;
  level_kept = ap (λ l. l.level) e;
  capacity_kept = ap (λ l. l.capacity) e;
  ready = tt;
}

replaced :
    (j name : Bytes) (level : LogLevel) (capacity : ℕ) (m : Manager)
    → find_by_name j (created name level capacity (remove_logger name m)).loggers
      ≡ (if equal name j then some m.next_logger else find_by_name j m.loggers)
unfolding remove_logger
replaced j name level capacity m =
    find_by_name-created j name level capacity (remove_logger name m)
    ∙ elim (Bool-cases (equal name j)) [
      | inl y ↦ rw y refl
      | inr n ↦ if_false _ _ (equal name j) n ∙ find_by_name-erased j name m.loggers ∙ rw n refl
    ]

-- What the configuration of a logger leaves: the manager's logger of its name, with its level and
-- formatter and an appender for each of its appenders; loggers of other names are those of before.
pub record IsSetUp (c : LoggerConfig) (s r : Setting) : Type 0 where
  pub handle : ℕ
  pub f : ℕ
  pub found :
      (j : Bytes)
      → find_by_name j r.manager.loggers
        ≡ (if equal c.name j then some handle else find_by_name j s.manager.loggers)
  pub uses : Uses c.formatter f r.fields
  pub ready : IsReady f c.appenders c.level c.capacity (r.manager.store handle, r)

module _ (opens : Bytes → Bool) where
  -- The listener of the loggers' configuration, for a configuration that is new or has changed and has no
  -- capacity, where the logger that has the name, if there is one, has none either: with an empty pattern
  -- or that of a formatter, and files that can be opened, it returns, and sets up a logger that has the
  -- level and the formatter, and an appender for each configured one, in order, which writes to the
  -- standard output or the file that is configured, with the logger's formatter. It stands in place of the
  -- logger that had the name, and other names keep their loggers.
  pub set_up-IsSetUp :
      (c : LoggerConfig) (s : Setting)
      → c.capacity ≡ 0
      → ((h : ℕ)
          → find_by_name c.name s.manager.loggers ≡ some h
          → (s.manager.store h).capacity ≡ 0)
      → IsUsable c.formatter
      → AllOpenable opens c.appenders
      → Yields (IsSetUp c s) (set_up opens c s)
  unfolding set_up remove_logger
  set_up-IsSetUp c s none_asked none_had u o =
      let m = remove_logger c.name s.manager in
      let gone : find_by_name c.name m.loggers ≡ none =
        find_by_name-erased c.name c.name s.manager.loggers
        ∙ if_true _ _ (equal c.name c.name) (equal_self c.name) in
      let fresh =
        if_true (of_name c.name c.level c.capacity) (m.store m.next_logger)
          (m.next_logger == m.next_logger) (==_self m.next_logger) in
      rw (find_logger-new c.name c.level c.capacity m gone, fresh)
        (Yields-bind (with_pattern-Uses c.formatter c.name c.level c.capacity s u) λ r (f, uses, e).
          Yields-bind
            (add_all_configured-IsReady opens f [] c.level c.capacity c.appenders
              (clear_appenders r.0) r.1 o (cleared-IsReady f c.name c.level c.capacity r e))
            λ q (v, same).
              let stored =
                if_true q.0 ((created c.name c.level c.capacity m).store m.next_logger)
                  (m.next_logger == m.next_logger) (==_self m.next_logger) in
              yields (record {
                handle = m.next_logger;
                f = f;
                found = λ j. replaced j c.name c.level c.capacity s.manager;
                uses = subst (λ fields. Uses c.formatter f fields) (sym same) uses;
                ready = rw stored (record {
                  formatter = v.formatter;
                  level_kept = v.level_kept;
                  capacity_kept = v.capacity_kept;
                  ready = v.ready;
                });
              }))
