-- ===== src/Log/Removing.antt =====
-- `RemoveAppender` of src/log/log.cpp, which calls `std::remove_if` and does not erase.
use echo_web_server.Prelude.{
  ℕ, ◌≤◌, ◌≡◌, ◌≢◌, refl, sym, ap, ◌∙◌, false, List, [], ◌∷◌, ◌++◌, Option, none, some, inl, inr,
  ==_self, le→leb, ne→not_==, if_true, if_false, length, drop, Option-cases, append_assoc,
}
use echo_web_server.Run.{fault}
use echo_web_server.Log.{number, Event}
use echo_web_server.Log.Logger.{
  Logger, Output, append_event, sync_log, enabled, log, kept, moved_from, is_pointer, remove_if,
  remove_appender,
}

-- None of the pointers is the appender.
abbrev pub IsAbsent : ℕ → List (Option ℕ) → Type 0
IsAbsent a [] = Unit {0}
IsAbsent a (x ∷ xs) = (x ≢ some a) × IsAbsent a xs

other : (a : ℕ) (x : Option ℕ) → x ≢ some a → is_pointer a x ≡ false
other a none h = refl
other a (some b) h = ne→not_== b a λ e. h (ap some e)

kept-absent : (a : ℕ) (xs : List (Option ℕ)) → IsAbsent a xs → kept a xs ≡ xs
unfolding kept
kept-absent a [] h = refl
kept-absent a (x ∷ xs) h = rw (other a x h.0, kept-absent a xs h.1) refl

-- Behind the pointers that have been moved one place, the last place holds a null pointer.
drop-moved_from :
    (a : ℕ) (x : Option ℕ) (xs : List (Option ℕ))
    → IsAbsent a (x ∷ xs)
    → drop (length xs) (moved_from a (x ∷ xs)) ≡ none ∷ []
drop-moved_from a x [] h = ap (λ y. y ∷ []) (if_false x none (is_pointer a x) (other a x h.0))
drop-moved_from a x (y ∷ ys) h = drop-moved_from a y ys h.1

remove_if-before :
    (a : ℕ) (before rest : List (Option ℕ))
    → IsAbsent a before
    → remove_if a (before ++ rest) ≡ before ++ remove_if a rest
unfolding remove_if
remove_if-before a [] rest h = refl
remove_if-before a (x ∷ before) rest h =
    if_false _ _ (is_pointer a x) (other a x h.0)
    ∙ ap (λ xs. x ∷ xs) (remove_if-before a before rest h.1)

remove_if-last : (a : ℕ) → remove_if a (some a ∷ []) ≡ some a ∷ []
unfolding remove_if kept
remove_if-last a = if_true _ _ (is_pointer a (some a)) (==_self a)

remove_if-more :
    (a : ℕ) (x : Option ℕ) (after : List (Option ℕ))
    → IsAbsent a (x ∷ after)
    → remove_if a (some a ∷ x ∷ after) ≡ (x ∷ after) ++ none ∷ []
unfolding remove_if
remove_if-more a x after h =
    if_true _ _ (is_pointer a (some a)) (==_self a)
    ∙ ap (λ ks. ks ++ drop (length ks) (some a ∷ moved_from a (x ∷ after)))
        (kept-absent a (x ∷ after) h)
    ∙ ap (λ tail. (x ∷ after) ++ tail) (drop-moved_from a x after h)

-- A null pointer in the list is dereferenced.
sync_log-null :
    (appenders : List (Option ℕ)) (e : Event) (o : Output)
    → sync_log (appenders ++ none ∷ []) e o ≡ fault
unfolding sync_log append_event
sync_log-null [] e o = refl
sync_log-null (none ∷ appenders) e o = refl
sync_log-null (some a ∷ appenders) e o = elim (Option-cases (o.formatters a)) [
  | inl f ↦ rw (f, append_event) refl
  | inr (g, f) ↦ rw (f, append_event) (sync_log-null appenders e _)
]

log-null :
    (l : Logger) (appenders : List (Option ℕ)) (e : Event) (o : Output)
    → number l.level ≤ number e.level
    → log e (record l { appenders = appenders ++ none ∷ [] }) o ≡ fault
unfolding log
log-null l appenders e o on =
    if_true _ _ (enabled l e) (le→leb (number l.level) (number e.level) on)
    ∙ sync_log-null appenders e o

-- `RemoveAppender` of an appender that is in the list once. If it is the last one, the logger stays as it
-- was, so the appender goes on writing. If others follow, the others stay in their order and a null pointer
-- is added behind them: the next event of the logger's level or a higher one, of a logger without a
-- capacity, dereferences it.
pub remove_appender_behaviour :
    (a : ℕ) (before : List (Option ℕ)) (x : Option ℕ) (after : List (Option ℕ)) (e : Event)
    (l : Logger) (o : Output)
    → l.capacity ≡ 0
    → IsAbsent a before
    → IsAbsent a (x ∷ after)
    → number l.level ≤ number e.level
    → (remove_appender a (record l { appenders = before ++ some a ∷ [] })
        ≡ record l { appenders = before ++ some a ∷ [] })
      × (remove_appender a (record l { appenders = before ++ some a ∷ x ∷ after })
          ≡ record l { appenders = before ++ ((x ∷ after) ++ none ∷ []) })
      × (log e (remove_appender a (record l { appenders = before ++ some a ∷ x ∷ after })) o
          ≡ fault)
unfolding remove_appender
remove_appender_behaviour a before x after e l o now hb ha on =
    let more : remove_if a (before ++ some a ∷ x ∷ after) ≡ before ++ ((x ∷ after) ++ none ∷ []) =
      remove_if-before a before (some a ∷ x ∷ after) hb
      ∙ ap (λ xs. before ++ xs) (remove_if-more a x after ha) in
    (
      ap (λ xs. record l { appenders = xs })
          (remove_if-before a before (some a ∷ []) hb ∙ ap (λ xs. before ++ xs) (remove_if-last a)),
      ap (λ xs. record l { appenders = xs }) more,
      ap (λ xs. log e (record l { appenders = xs }) o)
            (more ∙ sym (append_assoc before (x ∷ after) (none ∷ [])))
          ∙ log-null l (before ++ x ∷ after) e o on,
    )
