-- ===== src/ThreadPool.antt =====
-- include/containers/thread_pool.h and src/containers/thread_pool/thread_pool.cpp: the tasks and the
-- working threads, as a monitor whose steps are the critical sections under its mutex. A thread is
-- asleep in `cond_.wait`, active (about to test the condition with the mutex), busy with a task, or has
-- returned.
pub mod Wakeup
pub mod Order
mod Tests
use echo_web_server.Prelude.{
  ℕ, zero, suc, ◌+◌, ◌≡◌, Bool, true, false, not, List, [], ◌∷◌, ◌++◌, Option, none, some, ◌==◌,
  if◌then◌else◌,
}
use echo_web_server.Run.{Run, ok, fault, ◌>>=◌, ◌>>◌, assert}

pub record ThreadPool (T : Type 0) : Type 0 where
  pub closed : Bool
  pub thread_count : ℕ
  pub tasks : List T
  pub asleep : ℕ
  pub active : ℕ
  pub busy : ℕ
  pub returned : ℕ

-- `thread_count.value_or(0)`
abbrev value_or_zero : Option ℕ → ℕ
value_or_zero none = 0
value_or_zero (some n) = n

-- What a step of the pool does with the tasks.
pub data Action (T : Type 0) : Type 0 where
  pushed taken : T → Action T
  silent : Action T

module _ {T : Type 0} where
  abbrev pub action_of : Option T → Action T
  action_of none = silent
  action_of (some task) = taken task

  -- `ThreadPool(thread_count)`, with the number of threads that the hardware supports.
  unfoldable pub of_threads : Option ℕ → ℕ → ThreadPool T
  of_threads thread_count hardware_concurrency = record {
    closed = true;
    thread_count =
        if value_or_zero thread_count == 0
        then hardware_concurrency
        else value_or_zero thread_count;
    tasks = [];
    asleep = 0;
    active = 0;
    busy = 0;
    returned = 0;
  }

  unfoldable pub start : ThreadPool T → Run (ThreadPool T)
  start p = do assert p.closed; ok (record p { closed = false; active = p.active + p.thread_count })

  -- One of `asleep` threads is woken, if there is one.
  abbrev pub notified : ℕ → ThreadPool T → ThreadPool T
  notified zero p = p
  notified (suc n) p = record p { asleep = n; active = suc p.active }

  -- `cond_.notify_one()`
  unfoldable pub notify_one : ThreadPool T → ThreadPool T
  notify_one p = notified p.asleep p

  -- `Push`. The code tests its assertion before it locks, here it is tested with the lock.
  unfoldable pub push : T → ThreadPool T → Run (ThreadPool T)
  unfolding notify_one
  push task p = do
    assert (not p.closed)
    ok (notify_one (record p { tasks = p.tasks ++ task ∷ [] }))

  unfoldable pub close : ThreadPool T → ThreadPool T
  close p = record p { closed = true; asleep = 0; active = p.asleep + p.active }

  -- The wait and the pop, on an open pool of the given tasks.
  abbrev pub take_front : List T → ThreadPool T → Option T × ThreadPool T
  take_front [] p = (none, record p { asleep = suc p.asleep })
  take_front (task ∷ rest) p = (some task, record p { tasks = rest; busy = suc p.busy })

  -- An active thread with the mutex, at its wait: it returns, takes a task, or falls asleep.
  unfoldable pub exec_proc : ThreadPool T → Option T × ThreadPool T
  exec_proc p =
      if p.closed then (none, record p { returned = suc p.returned }) else take_front p.tasks p

  -- One critical section, a task that ends, or a wake-up for no reason.
  pub data Step : ThreadPool T → Action T → ThreadPool T → Type 0 where
    pushes : {p q : ThreadPool T} (task : T) → push task p ≡ ok q → Step p (pushed task) q
    execs :
        {p : ThreadPool T} (n : ℕ)
        → p.active ≡ suc n
        → Step p
            (action_of (exec_proc (record p { active = n })).0)
            (exec_proc (record p { active = n })).1
    ends :
        {p : ThreadPool T} (n : ℕ)
        → p.busy ≡ suc n
        → Step p silent (record p { busy = n; active = suc p.active })
    wakes :
        {p : ThreadPool T} (n : ℕ)
        → p.asleep ≡ suc n
        → Step p silent (record p { asleep = n; active = suc p.active })
    closes : {p : ThreadPool T} → Step p silent (close p)
