-- ===== src/ThreadPool/Wakeup.antt =====
-- The wake-ups of the working threads, and their number.
use echo_web_server.Prelude.{
  ℕ, zero, suc, ◌+◌, ◌≤◌, ◌<◌, ◌≡◌, refl, ap, true, false, List, [], ◌∷◌, ◌++◌, inl, inr, none,
  arith, Bool-cases, length, length-append, if_true, if_false,
}
use echo_web_server.Run.{ok}
use echo_web_server.ThreadPool.{
  ThreadPool, Action, notified, notify_one, push, close, take_front, exec_proc, Step, pushes, execs,
  ends, wakes, closes,
}

-- While a thread is asleep, there is an active one for each task; none is asleep behind a closing; and
-- every thread is accounted for.
pub record IsAttended {T : Type 0} (p : ThreadPool T) : Type 0 where
  pub fed : 0 < p.asleep → length p.tasks ≤ p.active
  pub released : p.closed ≡ true → p.asleep ≡ 0
  pub counted : p.asleep + p.active + p.busy + p.returned ≡ p.thread_count

module _ {T : Type 0} where
  notify_one-IsAttended :
      (p : ThreadPool T)
      → (0 < p.asleep → length p.tasks ≤ suc p.active)
      → (p.closed ≡ true → p.asleep ≡ 0)
      → p.asleep + p.active + p.busy + p.returned ≡ p.thread_count
      → IsAttended (notify_one p)
  unfolding notify_one
  notify_one-IsAttended p f r c = helper p.asleep refl
    where
      helper : (k : ℕ) → p.asleep ≡ k → IsAttended (notified k p)
      helper zero e = record { fed = λ h. absurd (omega (arith, e)); released = r; counted = c }
      helper (suc n) e = record {
        fed = λ h. f (omega (arith, e));
        released = λ x. absurd (omega (arith, e, r x));
        counted = omega (arith, e, c);
      }

  -- An accepted push inserts the task at the end and notifies.
  pub push-ok :
      (p : ThreadPool T) {q : ThreadPool T} (task : T)
      → push task p ≡ ok q
      → (p.closed ≡ false) × (q ≡ notify_one (record p { tasks = p.tasks ++ task ∷ [] }))
  unfolding push
  push-ok p task e = elim (Bool-cases p.closed) [
    | inl c ↦ absurd (ground (arith, c))
    | inr c ↦ (c, ground (arith, c))
  ]

  pub exec_proc-closed :
      (p : ThreadPool T)
      → p.closed ≡ true
      → exec_proc p ≡ (none, record p { returned = suc p.returned })
  unfolding exec_proc
  exec_proc-closed p e = if_true _ _ p.closed e

  pub exec_proc-open : (p : ThreadPool T) → p.closed ≡ false → exec_proc p ≡ take_front p.tasks p
  unfolding exec_proc
  exec_proc-open p e = if_false _ _ p.closed e

  exec_proc-IsAttended :
      (p : ThreadPool T)
      → (0 < p.asleep → length p.tasks ≤ suc p.active)
      → (p.closed ≡ true → p.asleep ≡ 0)
      → p.asleep + suc p.active + p.busy + p.returned ≡ p.thread_count
      → IsAttended (exec_proc p).1
  exec_proc-IsAttended p f r c = elim (Bool-cases p.closed) [
    | inl e ↦ rw (exec_proc-closed p e) (record {
      fed = λ h. absurd (omega (arith, r e));
      released = r;
      counted = omega (arith, c);
    })
    | inr e ↦ rw (exec_proc-open p e) (helper e p.tasks refl)
  ]
    where
      helper : p.closed ≡ false → (ts : List T) → p.tasks ≡ ts → IsAttended (take_front ts p).1
      helper e [] g = record {
        fed = λ h. omega (arith, ap length g);
        released = λ x. absurd (ground (arith, e));
        counted = omega (arith, c);
      }
      helper e (task ∷ rest) g = record {
        fed = λ h. omega (arith, f h, ap length g);
        released = λ x. absurd (ground (arith, e));
        counted = omega (arith, c);
      }

  -- Every step of the pool and its threads, closing and spurious wake-ups included, loses no wake-up:
  -- while a thread is asleep there are at least as many active ones as there are tasks, none stays
  -- asleep when the pool is closed, and no thread is lost.
  pub Step-IsAttended :
      {p q : ThreadPool T} {a : Action T} → Step p a q → IsAttended p → IsAttended q
  unfolding close
  Step-IsAttended {p} (pushes task e) s =
      let longer = length-append p.tasks (task ∷ []) in
      rw (push-ok _ task e).1
        (notify_one-IsAttended _ (λ h. omega (arith, longer, s.fed h)) s.released s.counted)
  Step-IsAttended (execs n e) s =
      exec_proc-IsAttended _ (λ h. omega (arith, e, s.fed h)) s.released
        (omega (arith, e, s.counted))
  Step-IsAttended (ends n e) s = record {
    fed = λ h. omega (arith, s.fed h);
    released = s.released;
    counted = omega (arith, e, s.counted);
  }
  Step-IsAttended (wakes n e) s = record {
    fed = λ h. omega (arith, e, s.fed (omega (arith, e)));
    released = λ x. omega (arith, e, s.released x);
    counted = omega (arith, e, s.counted);
  }
  Step-IsAttended closes s = record {
    fed = λ h. absurd (omega arith);
    released = λ x. refl;
    counted = omega (arith, s.counted);
  }
