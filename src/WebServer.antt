-- ===== src/WebServer.antt =====
-- include/web_server.h: the server's main loop and the work that its threads do for the clients. A
-- step of a worker is a critical section, a call of a connection's method or an `epoll_ctl`. A step of the
-- main loop is `ToNextTick` with its callbacks, `Wait`, the handling of one event, or an `AddClient` of the
-- loop of `OnListenEvent`. What the system answers is an argument.
-- A client is a shared pointer, here a number with its connection in a store: it outlives its entry in
-- `users_` as long as a task holds it.
pub mod Workers
pub mod Steps
pub mod InSync
pub mod Timeouts
pub mod Clients
pub mod Stale
pub mod Events
pub mod Loop
pub mod Threads
pub mod Start
mod Tests
use Prim.Native.Nat.{bit_and}
use echo_web_server.Prelude.{
  ℕ, suc, ◌+◌, ◌-◌, ◌≡◌, Bool, true, false, not, List, [], ◌∷◌, ◌++◌, Option, none, some, ◌⊎◌, inl,
  inr, ◌==◌, if◌then◌else◌,
}
use echo_web_server.Run.{
  Bytes, codes, Exception, invalid_argument, out_of_range, runtime_error, system_error, Run, ok,
  throw, fault, out_of_fuel, ◌>>=◌, ◌>>◌, assert, or_fault,
}
use echo_web_server.Buffer.{of_size}
use echo_web_server.HeapTimer.{HeapTimer, store, erase_key, contain, remove}
use echo_web_server.HeapTimer
use echo_web_server.HeapTimer.Tick.{Clocked, Callbacks, to_next_tick, adjust_for, push_for}
use echo_web_server.Files.{FileSystem, unmapped}
use echo_web_server.Connection.{Connection, try_again, receive, send, process}
use echo_web_server.ThreadPool.{ThreadPool, exec_proc, push}
use echo_web_server.ThreadPool
use echo_web_server.Epoller.{
  Kernel, Epoller, Event, events, file_descriptor, add_file_descriptor, delete_file_descriptor,
  modify_file_descriptor, wait,
}
use echo_web_server.Epoller

-- A task of the thread pool, with its client.
pub data Task : Type 0 where
  receive_from send_to : ℕ → Task

-- What a working thread does next for its task. When the events are registered the client has been
-- moved away.
pub data Job : Type 0 where
  receiving sending : ℕ → Job
  registering : ℕ → ℕ → Job
  marking : Option ℕ → Job

-- Where the main loop stands: before `ToNextTick`, before `Wait`, or before the event at a position,
-- with the number of events.
pub data Phase : Type 0 where
  ticking : Phase
  waiting : ℕ → Phase
  handling : ℕ → ℕ → Phase

-- The server but for its timer.
pub record World (K : Kernel) : Type 0 where
  pub alive_time : ℕ
  pub listener : Option ℕ
  pub thread_pool : ThreadPool Task
  pub epoller : Epoller K
  pub users : ℕ → Option ℕ
  pub clients : ℕ → Connection
  pub next_client : ℕ
  pub phase : Phase
  pub jobs : List Job

abbrev pub Server : Kernel → Type 0
Server K = Clocked (World K)

-- `EPOLLIN`, `EPOLLOUT`, `EPOLLERR | EPOLLHUP | EPOLLRDHUP`, and `connect_event_mode`
abbrev pub epoll_in : ℕ
epoll_in = 1

abbrev pub epoll_out : ℕ
epoll_out = 4

abbrev pub epoll_closing : ℕ
epoll_closing = 0x2018

abbrev pub connect_event_mode : ℕ
connect_event_mode = 0xC0002000

-- `http::Connection {socket, addr}`
abbrev pub connection_of : ℕ → Connection
connection_of socket = record {
  socket = some socket;
  keep_alive = false;
  read_buf = of_size 1000;
  write_buf = of_size 1000;
  file = unmapped;
}

-- The clients' time-out callback is the only one that the server pushes.
abbrev pub time_out_callback : ℕ
time_out_callback = 1

abbrev pub is_descriptor : Option ℕ → ℕ → Bool
is_descriptor none fd = false
is_descriptor (some l) fd = l == fd

-- `socket == listener_`
abbrev pub is_listener : {K : Kernel} → World K → ℕ → Bool
is_listener w fd = is_descriptor w.listener fd

-- A client's connection is changed where it lies.
abbrev pub put_client : {K : Kernel} → ℕ → Connection → Server K → Server K
put_client h c s = record s {
  world = record s.world { clients = λ j. if h == j then c else s.world.clients j };
}

-- `insert` leaves a key alone that is there.
abbrev pub kept_or : Option ℕ → ℕ → Option ℕ
kept_or none h = some h
kept_or (some old) h = some old

-- What an exception out of `AddClient` or `accept` leaves of `OnListenEvent`.
abbrev pub rethrown : Exception → Option Exception
rethrown (system_error errno) = if errno == try_again then none else some (system_error errno)
rethrown (invalid_argument message) = some (invalid_argument message)
rethrown (out_of_range message) = some (out_of_range message)
rethrown (runtime_error message) = some (runtime_error message)

-- An exception out of a function that lets none out ends the program.
abbrev pub noexcept {ℓ} : {A : Type ℓ} → Run A → Run A
noexcept (ok a) = ok a
noexcept (throw x) = fault
noexcept fault = fault
noexcept out_of_fuel = out_of_fuel

-- What the system answers to the main loop: `epoll_wait`, and `accept` as above.
pub record Answers : Type 0 where
  pub ready : ℕ ⊎ List Event
  pub accepted : List (ℕ × Option ℕ)
  pub accept_errno : ℕ

abbrev pub in_phase : {K : Kernel} → Phase → Server K → Server K
in_phase phase s = record s { world = record s.world { phase = phase } }

-- Behind `Wait`: the events, or the exception is logged.
abbrev pub after_wait : {K : Kernel} → Exception ⊎ ℕ → Server K → Server K
after_wait (inl x) s = in_phase ticking s
after_wait (inr count) s = in_phase (handling 0 count) s

-- Behind an event: the next one; an exception ends the loop over the events and is logged.
abbrev pub after_event :
    {K : Kernel} → Phase → Server K → Run (Option Exception × Server K) → Run (Server K)
after_event next s (ok (none, s')) = ok (in_phase next s')
after_event next s (ok (some x, s')) = ok (in_phase ticking s')
after_event next s (throw x) = ok (in_phase ticking s)
after_event next s fault = fault
after_event next s out_of_fuel = out_of_fuel

module _ (K : Kernel) where
  unfoldable pub conn : ℕ → World K → Run ℕ
  conn socket w = or_fault (w.users socket)

  -- `CloseClient`: that the socket cannot be deleted from the epoller is only logged.
  unfoldable pub close_client : ℕ → World K × HeapTimer → Run (World K × HeapTimer)
  unfolding conn delete_file_descriptor remove
  close_client socket (w, t) = do
    h ← conn socket w
    r ← remove socket t
    ok (
      record w {
        epoller = (delete_file_descriptor K socket w.epoller).1;
        users = erase_key socket w.users;
      },
      r.1,
    )

  -- The callback of `AddClient`.
  unfoldable pub time_out : ℕ → World K × HeapTimer → Run (World K × HeapTimer)
  unfolding conn close_client
  time_out socket (w, t) = do h ← conn socket w; close_client socket (w, t)

  -- The world once a callback has run: the program may have ended.
  abbrev pub settled : HeapTimer → Run (World K × HeapTimer) → Run (World K) × HeapTimer
  settled t (ok (w, t')) = (ok w, t')
  settled t (throw x) = (fault, t)
  settled t fault = (fault, t)
  settled t out_of_fuel = (out_of_fuel, t)

  unfoldable pub callbacks : Callbacks (Run (World K))
  unfolding time_out
  callbacks callback socket (w, t) = settled t (w >>= λ w'. time_out socket (w', t))

  -- `Close`
  unfoldable pub close : Server K → Server K
  unfolding ThreadPool.close Epoller.close HeapTimer.clear
  close s = record s {
    world = record s.world {
      listener = none;
      thread_pool = ThreadPool.close s.world.thread_pool;
      epoller = Epoller.close K s.world.epoller;
      users = λ _. none;
    };
    timer = HeapTimer.clear s.timer;
  }

module _ (K : Kernel) (now : ℕ → ℕ) where
  -- The new client, in the store and in `users_`.
  abbrev pub with_client : ℕ → World K → World K
  with_client socket w = record w {
    users = λ j. if socket == j then kept_or (w.users socket) w.next_client else w.users j;
    clients = λ j. if w.next_client == j then connection_of socket else w.clients j;
    next_client = suc w.next_client;
  }

  -- `AddClient`, with the `errno` of `fcntl` where it fails.
  unfoldable pub add_client : ℕ → Option ℕ → Server K → Run (Option Exception × Server K)
  unfolding add_file_descriptor push_for
  add_client socket answer s =
      let r = add_file_descriptor K socket (connect_event_mode + epoll_in) s.world.epoller in
      let w = record s.world { epoller = r.1 } in
      elim answer [
        | some errno ↦ ok (some (system_error errno), s)
        | none ↦ elim r.0 [
          | some x ↦ ok (some x, record s { world = w })
          | none ↦
              push_for now socket w.alive_time time_out_callback
                (record s { world = with_client socket w })
              >>= λ s'. ok (none, s')
        ]
      ]

  -- `OnListenEvent`: the sockets that `accept` returns, each with the answer of `fcntl`, and the `errno`
  -- of its last call.
  unfoldable pub on_listen_event :
      List (ℕ × Option ℕ) → ℕ → Server K → Run (Option Exception × Server K)
  unfolding add_client
  on_listen_event [] errno s = ok (rethrown (system_error errno), s)
  on_listen_event ((socket, answer) ∷ more) errno s = add_client socket answer s >>= λ r. elim r.0 [
    | none ↦ on_listen_event more errno r.1
    | some x ↦ ok (rethrown x, r.1)
  ]

  -- `MarkClientAsToBeClosed`; a socket that is not valid fails its assertion.
  unfoldable pub mark_client_as_to_be_closed : Option ℕ → Server K → Run (Server K)
  unfolding contain adjust_for
  mark_client_as_to_be_closed none s = fault
  mark_client_as_to_be_closed (some fd) s = do
    assert (contain fd s.timer)
    noexcept (adjust_for now fd 0 s)

  unfoldable pub extend_client_alive_time : ℕ → Server K → Run (Bool × Server K)
  unfolding contain adjust_for
  extend_client_alive_time fd s =
      if contain fd s.timer
      then (adjust_for now fd s.world.alive_time s >>= λ s'. ok (true, s'))
      else ok (false, s)

  -- `thread_pool_.Push`
  unfoldable pub push_task : Task → Server K → Run (Server K)
  unfolding push
  push_task task s = do
    pool ← push task s.world.thread_pool
    ok (record s { world = record s.world { thread_pool = pool } })

  -- `OnReceiveEvent` and `OnSendEvent`, with the kind of their task.
  unfoldable pub on_transfer_event : (ℕ → Task) → ℕ → Server K → Run (Server K)
  unfolding extend_client_alive_time conn push_task
  on_transfer_event task fd s = extend_client_alive_time fd s >>= λ r.
      let pushed : Run (Server K) = conn K fd r.1.world >>= λ h. push_task (task h) r.1 in
      if r.0 then pushed else ok r.1

  -- The events of one descriptor.
  unfoldable pub on_event :
      List (ℕ × Option ℕ) → ℕ → ℕ → ℕ → Server K → Run (Option Exception × Server K)
  unfolding on_listen_event mark_client_as_to_be_closed on_transfer_event
  on_event accepted errno fd events s =
      let quiet : Run (Server K) → Run (Option Exception × Server K) =
        λ r. r >>= λ s'. ok (none, s') in
      if is_listener s.world fd
      then on_listen_event accepted errno s
      else if not (bit_and events epoll_closing == 0)
      then quiet (mark_client_as_to_be_closed (some fd) s)
      else if not (bit_and events epoll_in == 0)
      then quiet (on_transfer_event receive_from fd s)
      else if not (bit_and events epoll_out == 0)
      then quiet (on_transfer_event send_to fd s)
      else ok (some (runtime_error (codes "Unexpected event")), s)

  -- `timer_.ToNextTick()`, whose callbacks close clients.
  unfoldable pub tick_clients : Server K → Run (ℕ × Server K)
  unfolding to_next_tick callbacks
  tick_clients s = do
    r ←
        to_next_tick (callbacks K) now
          (record { world = ok s.world; timer = s.timer; readings = s.readings })
    w ← r.1.world
    ok (r.0, record { world = w; timer = r.1.timer; readings = r.1.readings })

  unfoldable pub wait_events : Answers → ℕ → Server K → Run (Server K)
  unfolding wait
  wait_events a time_out s = do
    r ← wait K a.ready time_out s.world.epoller
    let s' = record s { world = record s.world { epoller = r.1 } }
    ok (after_wait r.0 s')

  unfoldable pub handle_event : Answers → ℕ → ℕ → Server K → Run (Server K)
  unfolding file_descriptor events on_event
  handle_event a i count s =
      let handled : Run (Server K) = do
        fd ← file_descriptor K i s.world.epoller
        wanted ← events K i s.world.epoller
        after_event (handling (i + 1) count) s (on_event a.accepted a.accept_errno fd wanted s)
      in if i == count then ok (in_phase ticking s) else handled

  -- One step of the loop of `Start`.
  unfoldable pub main_step : Answers → Phase → Server K → Run (Server K)
  unfolding tick_clients wait_events handle_event
  main_step a ticking s = tick_clients s >>= λ r. ok (in_phase (waiting r.0) r.1)
  main_step a (waiting time_out) s = wait_events a time_out s
  main_step a (handling i count) s = handle_event a i count s
