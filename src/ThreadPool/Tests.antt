-- ===== src/ThreadPool/Tests.antt =====
-- Tests of the thread pool, and its theorems at concrete runs.
use echo_web_server.Prelude.{ℕ, ◌≡◌, refl, false, [], ◌∷◌, ◌++◌, some, arith}
use echo_web_server.Run.{ok, fault}
use echo_web_server.ThreadPool.{ThreadPool, of_threads, start, push, close, exec_proc, pushes}
use echo_web_server.ThreadPool.Wakeup.{IsAttended, Step-IsAttended}
use echo_web_server.ThreadPool.Order.{Trace, pushing, taking, other, Trace-in_order}
use echo_web_server.ThreadPool.Order

-- One thread, asleep.
abbrev idle : ThreadPool ℕ
idle = record {
  closed = false;
  thread_count = 1;
  tasks = [];
  asleep = 1;
  active = 0;
  busy = 0;
  returned = 0;
}

abbrev given : ThreadPool ℕ
given = record idle { tasks = 7 ∷ []; asleep = 0; active = 1 }

test_of_threads : (of_threads {T = ℕ} (some 0) 8).thread_count ≡ 8
unfolding of_threads
test_of_threads = refl

test_start_twice : start idle ≡ fault
unfolding start
test_start_twice = refl

test_push_closed : push 7 (close idle) ≡ fault
unfolding push close
test_push_closed = refl

push_seven : push 7 idle ≡ ok given
unfolding push
push_seven = refl

Step-IsAttended_example : IsAttended given
Step-IsAttended_example =
    Step-IsAttended (pushes 7 push_seven)
      (record { fed = λ h. omega arith; released = λ e. absurd (cc e); counted = omega arith })

one_push : Trace idle (7 ∷ []) [] given
one_push = pushing 7 Order.start (pushes 7 push_seven)

Trace-in_order_example : idle.tasks ++ 7 ∷ [] ≡ [] ++ given.tasks
Trace-in_order_example = Trace-in_order one_push

test_exec_proc :
    exec_proc (record given { active = 0 })
    ≡ (some 7, record idle { tasks = []; asleep = 0; active = 0; busy = 1 })
unfolding exec_proc
test_exec_proc = refl
