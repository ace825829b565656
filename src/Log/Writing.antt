-- ===== src/Log/Writing.antt =====
-- What a logger writes, and the loggers of a manager.
use echo_web_server.Prelude.{
  ℕ, suc, ◌≡◌, ◌≢◌, refl, sym, ap, ◌∙◌, List, [], ◌∷◌, ◌++◌, Option, none, some, inl, inr, ◌⊎◌,
  arith, ◌==◌, if◌then◌else◌, Bool-cases, Option-cases, append-nil, append_assoc, if_true, if_false,
  leb→le, ◌≤◌, ◌<◌,
}
use echo_web_server.Run.{Bytes, ok}
use echo_web_server.Http.{equal}
use echo_web_server.Http.Tables.{equal_iff, equal_self, equal_ne}
use echo_web_server.Log.{LogLevel, number, Event}
use echo_web_server.Log.Logger.{
  Logger, Output, Written, append_event, sync_log, enabled, log, Manager, find_by_name, find_logger,
  remove_logger, erased, of_name,
}

-- The pieces of text of an event: one for each appender, in order; each appender is there and has a
-- formatter.
pub data Pieces (formatters : ℕ → Option ℕ) (e : Event)
    : List (Option ℕ) → List Written → Type 0 where
  done : Pieces formatters e [] []
  piece :
      {appenders : List (Option ℕ)} {written : List Written} (a f : ℕ)
      → formatters a ≡ some f
      → Pieces formatters e appenders written
      → Pieces formatters e
          (some a ∷ appenders)
          (record { appender = a; formatter = f; event = e } ∷ written)

sync_log-Pieces :
    (appenders : List (Option ℕ)) (e : Event) (o : Output) {written : List Written}
    → Pieces o.formatters e appenders written
    → sync_log appenders e o ≡ ok (record o { written = o.written ++ written })
unfolding sync_log append_event
sync_log-Pieces (none ∷ appenders) e o x = elim x [ ]
sync_log-Pieces [] e o done = ap (λ ws. ok (record o { written = ws })) (sym (append-nil o.written))
sync_log-Pieces (some _ ∷ appenders) e o (piece {written = rest} a f g p) =
    let first : Written = record { appender = a; formatter = f; event = e } in
    rw (g, append_event)
      (sync_log-Pieces appenders e (record o { written = o.written ++ first ∷ [] }) p
        ∙ ap (λ ws. ok (record o { written = ws })) (append_assoc o.written (first ∷ []) rest))

-- `Logger::Log`, of a logger without a capacity, with every appender there and with a formatter, writes an
-- event whose level is at least the logger's through each appender once, in order, and nothing of an event
-- of a lower level.
pub log-Pieces :
    (e : Event) (l : Logger) (o : Output) {written : List Written}
    → l.capacity ≡ 0
    → Pieces o.formatters e l.appenders written
    → ((number l.level ≤ number e.level)
        × (log e l o ≡ ok (record o { written = o.written ++ written })))
      ⊎ ((number e.level < number l.level) × (log e l o ≡ ok o))
unfolding log
log-Pieces e l o now p = elim (Bool-cases (enabled l e)) [
  | inl y ↦ inl (
    leb→le (number l.level) (number e.level) y,
    if_true _ _ (enabled l e) y ∙ sync_log-Pieces l.appenders e o p,
  )
  | inr n ↦ inr (ground (arith, n), if_false _ _ (enabled l e) n)
]

pub find_by_name-erased :
    (j name : Bytes) (m : List (Bytes × ℕ))
    → find_by_name j (erased name m) ≡ (if equal name j then none else find_by_name j m)
unfolding find_by_name
find_by_name-erased j name [] = ground arith
find_by_name-erased j name ((k, h) ∷ m) =
    ground (arith, equal_iff k name, equal_iff k j, equal_iff name j, find_by_name-erased j name m)

module _ (name : Bytes) (level : LogLevel) (capacity : ℕ) (m : Manager) where
  -- The manager with a new logger.
  abbrev pub created : Manager
  created = record {
    loggers = (name, m.next_logger) ∷ m.loggers;
    store = λ j. if m.next_logger == j then of_name name level capacity else m.store j;
    next_logger = suc m.next_logger;
  }

  pub find_logger-new :
      find_by_name name m.loggers ≡ none
      → find_logger name level capacity m ≡ (m.next_logger, created)
  unfolding find_logger
  find_logger-new e = rw (e, find_logger) refl

  find_logger-old :
      (h : ℕ) → find_by_name name m.loggers ≡ some h → find_logger name level capacity m ≡ (h, m)
  unfolding find_logger
  find_logger-old h e = rw (e, find_logger) refl

pub find_by_name-created :
    (j name : Bytes) (level : LogLevel) (capacity : ℕ) (m : Manager)
    → find_by_name j (created name level capacity m).loggers
      ≡ (if equal name j then some m.next_logger else find_by_name j m.loggers)
unfolding find_by_name
find_by_name-created j name level capacity m = refl

-- `FindLogger` gives the logger that a name has, and changes nothing, or a new one with the level and
-- the capacity asked for: from then on the name has it, whatever is asked for, until `RemoveLogger`,
-- and any other name keeps its logger.
pub find_logger_behaviour :
    (name : Bytes) (level again : LogLevel) (capacity again_capacity : ℕ) (m : Manager) (j : Bytes)
    → j ≢ name
    → (find_by_name name (find_logger name level capacity m).1.loggers
        ≡ some (find_logger name level capacity m).0)
      × (find_logger name again again_capacity (find_logger name level capacity m).1
          ≡ find_logger name level capacity m)
      × (find_by_name j (find_logger name level capacity m).1.loggers ≡ find_by_name j m.loggers)
      × (((find_by_name name m.loggers ≡ none)
            × ((find_logger name level capacity m).1.store (find_logger name level capacity m).0
                ≡ of_name name level capacity))
          ⊎ ((find_logger name level capacity m).1 ≡ m))
      × (find_by_name name (remove_logger name (find_logger name level capacity m).1).loggers
          ≡ none)
unfolding remove_logger
find_logger_behaviour name level again capacity again_capacity m j ne =
    elim (Option-cases (find_by_name name m.loggers)) [
      | inl e ↦
          let here =
            find_by_name-created name name level capacity m
            ∙ if_true _ _ (equal name name) (equal_self name) in
          rw (find_logger-new name level capacity m e) (
            here,
            find_logger-old name again again_capacity (created name level capacity m) m.next_logger
                here,
            find_by_name-created j name level capacity m
                ∙ if_false _ _ (equal name j) (equal_ne (λ same. ne (sym same))),
            inl (e, ground arith),
            find_by_name-erased name name (created name level capacity m).loggers
                ∙ if_true _ _ (equal name name) (equal_self name),
          )
      | inr (h, e) ↦ rw (find_logger-old name level capacity m h e) (
        e,
        find_logger-old name again again_capacity m h e,
        refl,
        inr refl,
        find_by_name-erased name name m.loggers ∙ if_true _ _ (equal name name) (equal_self name),
      )
    ]
