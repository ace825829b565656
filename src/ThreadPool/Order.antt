-- ===== src/ThreadPool/Order.antt =====
-- The order in which the tasks are taken.
use echo_web_server.Prelude.{
  ℕ, zero, suc, ◌≡◌, refl, sym, ap, ◌∙◌, true, List, [], ◌∷◌, ◌++◌, inl, inr, Bool-cases,
  append-nil, append_assoc,
}
use echo_web_server.ThreadPool.{
  ThreadPool, Action, pushed, taken, silent, action_of, notified, notify_one, close, take_front,
  exec_proc, Step, pushes, execs, ends, wakes, closes,
}
use echo_web_server.ThreadPool.Wakeup.{push-ok, exec_proc-closed, exec_proc-open}

-- A run of the pool, with the tasks that were pushed and those that were taken, in order.
pub data Trace {T : Type 0} (p : ThreadPool T) : List T → List T → ThreadPool T → Type 0 where
  start : Trace p [] [] p
  pushing :
      {q r : ThreadPool T} {ins outs : List T} (task : T)
      → Trace p ins outs q
      → Step q (pushed task) r
      → Trace p (ins ++ task ∷ []) outs r
  taking :
      {q r : ThreadPool T} {ins outs : List T} (task : T)
      → Trace p ins outs q
      → Step q (taken task) r
      → Trace p ins (outs ++ task ∷ []) r
  other :
      {q r : ThreadPool T} {ins outs : List T}
      → Trace p ins outs q
      → Step q silent r
      → Trace p ins outs r

module _ {T : Type 0} where
  -- The tasks that a step leaves.
  abbrev Leaves : List T → Action T → List T → Type 0
  Leaves before (pushed task) after = after ≡ before ++ task ∷ []
  Leaves before (taken task) after = before ≡ task ∷ after
  Leaves before silent after = after ≡ before

  tasks-notify_one : (p : ThreadPool T) → (notify_one p).tasks ≡ p.tasks
  unfolding notify_one
  tasks-notify_one p = helper p.asleep
    where
      helper : (k : ℕ) → (notified k p).tasks ≡ p.tasks
      helper zero = refl
      helper (suc n) = refl

  exec_proc-Leaves :
      (p : ThreadPool T) → Leaves p.tasks (action_of (exec_proc p).0) (exec_proc p).1.tasks
  exec_proc-Leaves p = elim (Bool-cases p.closed) [
    | inl e ↦ rw (exec_proc-closed p e) refl
    | inr e ↦ rw (exec_proc-open p e) (helper p.tasks refl)
  ]
    where
      helper :
          (ts : List T)
          → p.tasks ≡ ts
          → Leaves ts (action_of (take_front ts p).0) (take_front ts p).1.tasks
      helper [] e = e
      helper (task ∷ rest) e = refl

  Step-Leaves : {p q : ThreadPool T} {a : Action T} → Step p a q → Leaves p.tasks a q.tasks
  unfolding close
  Step-Leaves (pushes task e) = rw (push-ok _ task e).1 (tasks-notify_one _)
  Step-Leaves (execs n e) = exec_proc-Leaves _
  Step-Leaves (ends n e) = refl
  Step-Leaves (wakes n e) = refl
  Step-Leaves closes = refl

  -- In every run the tasks are taken in the order in which they stand and are pushed, each at most
  -- once: those at hand and those pushed are those taken, and then those that are left.
  pub Trace-in_order :
      {p q : ThreadPool T} {ins outs : List T}
      → Trace p ins outs q
      → p.tasks ++ ins ≡ outs ++ q.tasks
  Trace-in_order {p} start = append-nil p.tasks
  Trace-in_order {p} (pushing {ins = ins} {outs = outs} task t s) =
      sym (append_assoc p.tasks ins (task ∷ []))
      ∙ ap (λ xs. xs ++ task ∷ []) (Trace-in_order t)
      ∙ append_assoc outs _ (task ∷ [])
      ∙ ap (λ xs. outs ++ xs) (sym (Step-Leaves s))
  Trace-in_order (taking {outs = outs} task t s) =
      Trace-in_order t
      ∙ ap (λ xs. outs ++ xs) (Step-Leaves s)
      ∙ sym (append_assoc outs (task ∷ []) _)
  Trace-in_order (other {outs = outs} t s) =
      Trace-in_order t ∙ ap (λ xs. outs ++ xs) (sym (Step-Leaves s))

  -- What a step of a closed pool can be.
  abbrev IsSilent : Action T → Type 0
  IsSilent (pushed task) = ⊥
  IsSilent (taken task) = ⊥
  IsSilent silent = Unit {0}

  closed_step :
      {p q : ThreadPool T} {a : Action T}
      → p.closed ≡ true
      → Step p a q
      → (q.closed ≡ true) × IsSilent a
  unfolding close
  closed_step c (pushes task e) = absurd (cc (sym c ∙ (push-ok _ task e).0))
  closed_step {p} c (execs n e) = rw (exec_proc-closed (record p { active = n }) c) (c, tt)
  closed_step c (ends n e) = (c, tt)
  closed_step c (wakes n e) = (c, tt)
  closed_step c closes = (refl, tt)

  -- A closed pool takes no push, stays closed, and hands out no task any more.
  pub closed-takes_nothing :
      {p q : ThreadPool T} {ins outs : List T}
      → p.closed ≡ true
      → Trace p ins outs q
      → (q.closed ≡ true) × (ins ≡ []) × (outs ≡ [])
  closed-takes_nothing c start = (c, refl, refl)
  closed-takes_nothing c (pushing task t s) = absurd (closed_step (closed-takes_nothing c t).0 s).1
  closed-takes_nothing c (taking task t s) = absurd (closed_step (closed-takes_nothing c t).0 s).1
  closed-takes_nothing c (other t s) =
      let h = closed-takes_nothing c t in ((closed_step h.0 s).0, h.1, h.2)
