-- ===== src/WebServer/Steps.antt =====
-- The steps of the server's threads: the main loop, and the threads of the pool with their tasks. A step
-- of the main thread is `ToNextTick`, `Wait`, the handling of one event, or one `AddClient` in the loop of
-- `OnListenEvent`, behind which the loop goes on. The code runs `ToNextTick` without `mtx_`: runs in which
-- a worker acts within it are not runs of this relation, nor are those in which a worker acts within the
-- handling of a client's event.
use echo_web_server.Prelude.{
  ℕ, suc, ◌+◌, ◌-◌, ◌/◌, ◌≤◌, ◌<◌, ◌≡◌, ◌≢◌, true, false, inr, present, length, size_mod, List, [],
  ◌∷◌, ◌++◌, Option, none, some, get_elem?,
}
use echo_web_server.Run.{Bytes, ok}
use echo_web_server.Files.{FileSystem}
use echo_web_server.ThreadPool.{ThreadPool, exec_proc}
use echo_web_server.Epoller.{Kernel, Epoller, Event, int_max}
use echo_web_server.Epoller.Interest.{watched}
use echo_web_server.WebServer.{
  Task, receive_from, send_to, Job, receiving, sending, waiting, World, Server, Answers, handling,
  in_phase, add_client, is_listener, main_step,
}
use echo_web_server.WebServer.Workers.{Transfers, work}

abbrev pub job_of : Task → Job
job_of (receive_from h) = receiving h
job_of (send_to h) = sending h

-- What a thread does next: more for its task, or the next task.
abbrev pub resumed : {K : Kernel} → Option Job → List Job → World K → World K
resumed (some j) jobs w = record w { jobs = j ∷ jobs }
resumed none jobs w = record w {
  jobs = jobs;
  thread_pool = record w.thread_pool {
    busy = w.thread_pool.busy - 1;
    active = suc w.thread_pool.active;
  };
}

-- Sockets that no client and no listener has, all different.
abbrev pub IsAbsent : ℕ → List (ℕ × Option ℕ) → Type 0
IsAbsent socket [] = Unit {0}
IsAbsent socket ((other, answer) ∷ more) = (socket ≢ other) × IsAbsent socket more

abbrev pub IsFresh : {K : Kernel} → World K → List (ℕ × Option ℕ) → Type 0
IsFresh w [] = Unit {0}
IsFresh w ((socket, answer) ∷ more) =
    (w.users socket ≡ none) × (is_listener w socket ≡ false) × IsAbsent socket more × IsFresh w more

abbrev pub AllWatched : {K : Kernel} → Epoller K → List Event → Type 0
AllWatched p [] = Unit {0}
AllWatched p (e ∷ es) = (present (watched p e.fd) ≡ true) × AllWatched p es

-- What the system does in the main loop's next step: it reports events of descriptors that it watches,
-- accepts new sockets, as many as the timer can count, and the waiting time is an `int`; and `Close` has
-- not been called.
pub record IsPlausible {K : Kernel} (a : Answers) (s : Server K) : Type 0 where
  pub reported : (es : List Event) → a.ready ≡ inr es → AllWatched s.world.epoller es
  pub fresh : IsFresh s.world a.accepted
  pub room : length s.timer.nodes + length a.accepted < size_mod
  pub capacity : length s.world.epoller.events ≤ int_max
  pub not_closed : s.world.thread_pool.closed ≡ false
  pub short : (d : ℕ) → s.world.phase ≡ waiting d → d / 1000000 ≤ int_max

module _ (K : Kernel) (now : ℕ → ℕ) (fs : FileSystem) (root_dir : Bytes) where
  abbrev with_pool : ThreadPool Task → List Job → Server K → Server K
  with_pool pool jobs s = record s { world = record s.world { thread_pool = pool; jobs = jobs } }

  -- A step of the main thread; an `AddClient` of its loop over `accept`, the last round of which,
  -- where `accept` or `AddClient` fails, is a step of `main`; a step of an active thread of the pool,
  -- which takes a task, or sleeps or returns; of a thread that is busy with a task; or a wake-up for
  -- no reason.
  pub data Step : Server K → Server K → Type 0 where
    main :
        {s r : Server K} (a : Answers)
        → IsPlausible a s
        → main_step K now a s.world.phase s ≡ ok r
        → Step s r
    accepts :
        {s r : Server K} (i count socket : ℕ) (e : Event)
        → s.world.phase ≡ handling i count
        → i < count
        → get_elem? s.world.epoller.events i ≡ some e
        → is_listener s.world e.fd ≡ true
        → s.world.users socket ≡ none
        → is_listener s.world socket ≡ false
        → suc (length s.timer.nodes) < size_mod
        → add_client K now socket none s ≡ ok (none, r)
        → Step s (in_phase (handling i count) r)
    takes :
        {s : Server K} (n : ℕ) (task : Task) (pool : ThreadPool Task)
        → s.world.thread_pool.active ≡ suc n
        → exec_proc (record s.world.thread_pool { active = n }) ≡ (some task, pool)
        → Step s (with_pool pool (job_of task ∷ s.world.jobs) s)
    rests :
        {s : Server K} (n : ℕ) (pool : ThreadPool Task)
        → s.world.thread_pool.active ≡ suc n
        → exec_proc (record s.world.thread_pool { active = n }) ≡ (none, pool)
        → Step s (with_pool pool s.world.jobs s)
    wakes :
        {s : Server K} (n : ℕ)
        → s.world.thread_pool.asleep ≡ suc n
        → Step s (
            with_pool
              (record s.world.thread_pool { asleep = n; active = suc s.world.thread_pool.active })
              s.world.jobs
              s)
    works :
        {s r : Server K} {o : Option Job} (a : Transfers) (before after : List Job) (j : Job)
        → s.world.jobs ≡ before ++ j ∷ after
        → work K now fs root_dir a j s ≡ ok (o, r)
        → Step s (record r { world = resumed o (before ++ after) r.world })

  pub data Reach (s : Server K) : Server K → Type 0 where
    here : Reach s s
    next : {m r : Server K} → Reach s m → Step m r → Reach s r
