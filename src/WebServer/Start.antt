-- ===== src/WebServer/Start.antt =====
-- The constructor of include/web_server.h's `WebServer`, `InitNetwork`, and `Start` up to its loop.
use echo_web_server.Prelude.{
  ℕ, ◌+◌, ◌≡◌, true, false, [], ◌⊎◌, inl, inr, Option, none, some, leb, present,
}
use echo_web_server.Run.{Run, ok, Exception, system_error, assert, ◌>>=◌, ◌>>◌}
use echo_web_server.HeapTimer.{HeapTimer}
use echo_web_server.ThreadPool.{of_threads, start}
use echo_web_server.Epoller.{Kernel, Epoller, add_file_descriptor}
use echo_web_server.Epoller.Interest.{watched}
use echo_web_server.WebServer.{ticking, Server, epoll_in, connection_of}
use echo_web_server.WebServer.InSync.{InSync, IsSound}

-- What the system answers to `InitNetwork`: the socket, and the `errno` of each further call that fails.
pub record Setup : Type 0 where
  pub socket : ℕ ⊎ ℕ
  pub set_linger : Option ℕ
  pub set_reuse : Option ℕ
  pub bind : Option ℕ
  pub listen : Option ℕ
  pub set_nonblocking : Option ℕ

-- The first call that fails ends `InitNetwork`.
abbrev pub or_then : Option ℕ → Option ℕ → Option ℕ
or_then none next = next
or_then (some errno) next = some errno

abbrev pub first_failure : Setup → Option ℕ
first_failure a =
    or_then a.set_linger (or_then a.set_reuse (or_then a.bind (or_then a.listen a.set_nonblocking)))

-- `listen_event_mode`
abbrev pub listen_event_mode : ℕ
listen_event_mode = 0x80002000

-- The timer of a new server.
abbrev no_nodes : HeapTimer
no_nodes = record { key_to_idx = λ _. none; nodes = [] }

module _ (K : Kernel) where
  -- `WebServer(port, alive_time)`, with its epoller and the number of threads of the hardware.
  unfoldable pub of_alive_time : ℕ → Epoller K → ℕ → Server K
  unfolding of_threads
  of_alive_time alive_time epoller hardware_concurrency = record {
    world = record {
      alive_time = alive_time;
      listener = none;
      thread_pool = of_threads none hardware_concurrency;
      epoller = epoller;
      users = λ _. none;
      clients = connection_of;
      next_client = 0;
      phase = ticking;
      jobs = [];
    };
    timer = no_nodes;
    readings = 0;
  }

  abbrev pub listening : Option ℕ → Epoller K → Server K → Server K
  listening listener epoller s = record s {
    world = record s.world { listener = listener; epoller = epoller };
  }

  -- The registration of the listener; on an exception it is closed again.
  abbrev pub registered : ℕ → Option Exception × Epoller K → Server K → Option Exception × Server K
  registered fd (none, epoller) s = (none, listening (some fd) epoller s)
  registered fd (some x, epoller) s = (some x, listening none epoller s)

  abbrev pub opened : ℕ ⊎ ℕ → Option ℕ → Server K → Option Exception × Server K
  opened (inl errno) failure s = (some (system_error errno), listening none s.world.epoller s)
  opened (inr fd) (some errno) s = (some (system_error errno), listening none s.world.epoller s)
  opened (inr fd) none s =
      registered fd (add_file_descriptor K fd (listen_event_mode + epoll_in) s.world.epoller) s

  unfoldable pub init_network : Setup → ℕ → Server K → Run (Option Exception × Server K)
  unfolding add_file_descriptor
  init_network a port s = do assert (leb 1024 port); ok (opened a.socket (first_failure a) s)

  -- `Start` up to its loop.
  unfoldable pub start_server : Setup → ℕ → Server K → Run (Option Exception × Server K)
  unfolding start init_network
  start_server a port s = do
    pool ← start s.world.thread_pool
    init_network a port (record s { world = record s.world { thread_pool = pool } })

-- The call that has failed, and its error: all the calls before it have succeeded.
pub data Fails : Setup → ℕ → Type 0 where
  socket_fails : {a : Setup} {errno : ℕ} → a.socket ≡ inl errno → Fails a errno
  set_linger_fails : {a : Setup} {errno : ℕ} → a.set_linger ≡ some errno → Fails a errno
  set_reuse_fails :
      {a : Setup} {errno : ℕ} → a.set_linger ≡ none → a.set_reuse ≡ some errno → Fails a errno
  bind_fails :
      {a : Setup} {errno : ℕ}
      → a.set_linger ≡ none
      → a.set_reuse ≡ none
      → a.bind ≡ some errno
      → Fails a errno
  listen_fails :
      {a : Setup} {errno : ℕ}
      → a.set_linger ≡ none
      → a.set_reuse ≡ none
      → a.bind ≡ none
      → a.listen ≡ some errno
      → Fails a errno
  set_nonblocking_fails :
      {a : Setup} {errno : ℕ}
      → a.set_linger ≡ none
      → a.set_reuse ≡ none
      → a.bind ≡ none
      → a.listen ≡ none
      → a.set_nonblocking ≡ some errno
      → Fails a errno

-- No call fails, and the socket is `fd`.
pub record Succeeds (a : Setup) (fd : ℕ) : Type 0 where
  pub socket : a.socket ≡ inr fd
  pub set_linger : a.set_linger ≡ none
  pub set_reuse : a.set_reuse ≡ none
  pub bind : a.bind ≡ none
  pub listen : a.listen ≡ none
  pub set_nonblocking : a.set_nonblocking ≡ none

-- How `Start` has reached its loop or thrown. Either no call has failed, the socket is the listener and is
-- watched, and the server is sound; or there is no listener, and the exception has the error of the first
-- call that has failed, or the epoller has refused the socket, with no other call failed.
abbrev pub IsStarted : {K : Kernel} → Setup → Epoller K → Option Exception × Server K → Type 0
IsStarted a p (none, s) =
    IsSound s
    × ((fd : ℕ) × Succeeds a fd
        × (s.world.listener ≡ some fd)
        × (present (watched s.world.epoller fd) ≡ true))
    × (s.world.thread_pool.closed ≡ false)
IsStarted {K} a p (some x, s) =
    (s.world.listener ≡ none)
    × (((errno : ℕ) × Fails a errno × (x ≡ system_error errno))
        ⊎ ((fd : ℕ) × Succeeds a fd
            × ((add_file_descriptor K fd (listen_event_mode + epoll_in) p).0 ≡ some x)
            × (present (watched s.world.epoller fd) ≡ false)))

module _ {K : Kernel} (s : Server K) (v : InSync s.world s.timer) (deaf : s.world.listener ≡ none)
    (empty : (j : ℕ) → s.world.users j ≡ none) (not_closed : s.world.thread_pool.closed ≡ false)
    (phase : s.world.phase ≡ ticking) where
  abbrev asked : ℕ → Option Exception × Epoller K
  asked fd = add_file_descriptor K fd (listen_event_mode + epoll_in) s.world.epoller
