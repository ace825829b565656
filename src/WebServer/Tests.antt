-- ===== src/WebServer/Tests.antt =====
-- Tests of the server, and its theorems at a server with one client.
use echo_web_server.Prelude.{
  ℕ, zero, suc, ◌+◌, ◌≤◌, ◌<◌, ◌≡◌, ◌≢◌, refl, true, false, [], ◌∷◌, inl, inr, none, some, arith,
  Bool-cases, ◌==◌, if◌then◌else◌, present, get!, get_elem?, ◌||◌,
}
use mathlib.Core.Path.{subst}
use echo_web_server.Run.{ok, fault, Yields, ◌>>=◌}
use echo_web_server.HeapTimer.{Node, HeapTimer, store}
use echo_web_server.HeapTimer.Index.{find, key_at, IsIndexed}
use echo_web_server.HeapTimer.Expiry.{IsMonotone}
use echo_web_server.Files.{FileSystem}
use echo_web_server.Epoller.{Epoller, Event}
use echo_web_server.Epoller.Samples.{plain_kernel}
use echo_web_server.Epoller.Interest.{watched}
use echo_web_server.WebServer.{
  registering, marking, Phase, ticking, handling, Server, Answers, is_listener, connection_of,
  add_client, mark_client_as_to_be_closed, tick_clients, main_step,
}
use echo_web_server.WebServer.Workers.{Transfers, work}
use echo_web_server.WebServer.Steps.{AllWatched, IsPlausible, main, wakes, here, next}
use echo_web_server.WebServer.InSync.{InSync, IsSound}
use echo_web_server.WebServer.Timeouts.{Closes, tick_clients-Closes}
use echo_web_server.WebServer.Clients.{Adds, add_client-Adds, mark-Closes}
use echo_web_server.WebServer.Stale.{time_out-ends_program}
use echo_web_server.WebServer.Loop.{main_step-IsSound}
use echo_web_server.WebServer.Threads.{Reach-IsSound}
use echo_web_server.WebServer.Start.{Setup}

abbrev clock : ℕ → ℕ
clock n = 50 + n

clock-IsMonotone : IsMonotone clock
clock-IsMonotone i j h = omega arith

abbrev one_node : ℕ → HeapTimer
one_node expiration = record {
  key_to_idx = store 5 0 (λ _. none);
  nodes = record { key = 5; expiration = expiration; callback = 1 } ∷ [];
}

-- Listener 3 and client 5, whose time is up at `expiration`; the client has hung up.
abbrev serving : ℕ → Phase → Server plain_kernel
serving expiration phase = record {
  world = record {
    alive_time = 30;
    listener = some 3;
    thread_pool = record {
      closed = false;
      thread_count = 1;
      tasks = [];
      asleep = 1;
      active = 0;
      busy = 0;
      returned = 0;
    };
    epoller = record {
      epoll_fd = some 4;
      kernel = λ j. if j == 5 then some 1 else if j == 3 then some 1 else none;
      events = record { events = 0x2000; fd = 5 } ∷ [];
    };
    users = λ j. if j == 5 then some 0 else none;
    clients = connection_of;
    next_client = 1;
    phase = phase;
    jobs = [];
  };
  timer = one_node expiration;
  readings = 0;
}

one_node-known :
    (expiration i : ℕ)
    → i < 1
    → (one_node expiration).key_to_idx (key_at (one_node expiration) i) ≡ some i
unfolding get!
one_node-known expiration zero h = refl
one_node-known expiration (suc i) h = absurd (omega arith)

one_node-found :
    (expiration k i : ℕ)
    → (one_node expiration).key_to_idx k ≡ some i
    → (i < 1) × (key_at (one_node expiration) i ≡ k)
unfolding get!
one_node-found expiration k zero e = (omega arith, ground (arith, e))
one_node-found expiration k (suc i) e = absurd (ground (arith, e))

one_node-IsIndexed : (expiration : ℕ) → IsIndexed (one_node expiration)
one_node-IsIndexed expiration = record {
  known = one_node-known expiration;
  found = one_node-found expiration;
}

one_node-callable :
    (expiration j : ℕ) (node : Node) → find j (one_node expiration) ≡ some node → node.callback ≢ 0
unfolding find get!
one_node-callable expiration j node e = elim (Bool-cases (5 == j)) [
  | inl f ↦ let here = rw f at e in ground (arith, here)
  | inr f ↦ let gone = rw f at e in absurd (ground (arith, gone))
]

serving-InSync :
    (expiration : ℕ) (phase : Phase)
    → InSync (serving expiration phase).world (serving expiration phase).timer
unfolding find
serving-InSync expiration phase = record {
  valid = record {
    heap = λ c p q. absurd (omega arith);
    indexed = one_node-IsIndexed expiration;
    sized = omega arith;
  };
  epoll_fd = 4;
  is_open = refl;
  timed = λ j. ground arith;
  callable = one_node-callable expiration;
  watches = λ j. ground arith;
  apart = λ j e. ground (arith, e);
}

hung_up-IsPending :
    (expiration i idx : ℕ) (e : Event)
    → idx < 1
    → get_elem? (serving expiration (handling i 1)).world.epoller.events idx ≡ some e
    → (is_listener (serving expiration (handling i 1)).world e.fd
        || present ((serving expiration (handling i 1)).world.users e.fd))
      ≡ true
hung_up-IsPending expiration i zero e h g = let fd : 5 ≡ e.fd = ground (arith, g) in rw (← fd) refl
hung_up-IsPending expiration i (suc idx) e h g = absurd (omega arith)

serving-IsSound : (expiration i : ℕ) → i ≤ 1 → IsSound (serving expiration (handling i 1))
serving-IsSound expiration i h = record {
  sync = serving-InSync expiration (handling i 1);
  pending = (h, omega arith, λ idx e le lt g. hung_up-IsPending expiration i idx e lt g);
}

-- Nothing happens.
abbrev quiet : Answers
quiet = record { ready = inr []; accepted = []; accept_errno = 11 }

quiet-IsPlausible : IsPlausible quiet (serving 100 (handling 0 1))
quiet-IsPlausible = record {
  reported = λ es e.
      let same : [] ≡ es = ground (arith, e) in
      subst (AllWatched (serving 100 (handling 0 1)).world.epoller) same tt;
  fresh = tt;
  room = omega arith;
  capacity = omega arith;
  not_closed = refl;
  short = λ d e. absurd (cc e);
}

-- The client is marked.
marking_step :
    main_step plain_kernel clock quiet (handling 0 1) (serving 100 (handling 0 1))
    ≡ ok (record (serving 50 (handling 1 1)) { readings = 1 })
unfolding main_step
marking_step = refl

main_step-IsSound_example :
    Yields IsSound (main_step plain_kernel clock quiet (handling 0 1) (serving 100 (handling 0 1)))
main_step-IsSound_example =
    main_step-IsSound clock quiet (serving 100 (handling 0 1)) clock-IsMonotone quiet-IsPlausible
      (serving-IsSound 100 0 (omega arith))

abbrev no_files : FileSystem
no_files = record { stat = λ path. inl 2; mmap = λ path n. inl 2; error_message = λ errno. [] }

-- The client is marked, and then the thread of the pool wakes up.
abbrev woken : Server plain_kernel
woken = record {
  world = record (serving 50 (handling 1 1)).world {
    thread_pool = record (serving 50 (handling 1 1)).world.thread_pool { asleep = 0; active = 1 };
  };
  timer = (serving 50 (handling 1 1)).timer;
  readings = 1;
}

Reach-IsSound_example : IsSound woken
Reach-IsSound_example =
    Reach-IsSound clock no_files [] clock-IsMonotone
      (next (next here (main quiet quiet-IsPlausible marking_step)) (wakes 0 refl))
      (serving-IsSound 100 0 (omega arith))

tick_clients-Closes_example :
    Yields
      (λ r. Closes clock (serving 40 ticking) r.1)
      (tick_clients plain_kernel clock (serving 40 ticking))
tick_clients-Closes_example =
    tick_clients-Closes clock (serving 40 ticking) clock-IsMonotone (serving-InSync 40 ticking)

mark-Closes_example :
    Yields
      (λ r.
        InSync r.1.world r.1.timer
        × (r.1.world.users 5 ≡ none)
        × (watched r.1.world.epoller 5 ≡ none)
        × (find 5 r.1.timer ≡ none))
      (mark_client_as_to_be_closed plain_kernel clock (some 5) (serving 100 ticking)
        >>= tick_clients plain_kernel clock)
mark-Closes_example =
    mark-Closes clock 5 (serving 100 ticking) clock-IsMonotone (serving-InSync 100 ticking) refl

add_client-Adds_example :
    Yields
      (Adds clock 6 (serving 100 ticking))
      (add_client plain_kernel clock 6 none (serving 100 ticking))
add_client-Adds_example =
    add_client-Adds clock 6 none (serving 100 ticking) (serving-InSync 100 ticking) refl refl
      (omega arith)

abbrev nothing_sent : Transfers
nothing_sent = record { received = []; offered = [] }

find_five : find 5 (one_node 40) ≡ some (record { key = 5; expiration = 40; callback = 1 })
unfolding find get!
find_five = refl

time_out-ends_program_example :
    Yields
      (λ r.
        (work plain_kernel clock no_files [] nothing_sent (registering 5 1) r.1 ≡ fault)
        × (work plain_kernel clock no_files [] nothing_sent (marking (some 5)) r.1 ≡ fault))
      (tick_clients plain_kernel clock (serving 40 ticking))
time_out-ends_program_example =
    time_out-ends_program clock no_files [] 5 1 nothing_sent
      (record { key = 5; expiration = 40; callback = 1 }) (serving 40 ticking) clock-IsMonotone
      (serving-InSync 40 ticking) find_five (omega arith)

abbrev no_interests : Epoller plain_kernel
no_interests = record { epoll_fd = some 4; kernel = λ _. none; events = [] }

abbrev set_up : Setup
set_up = record {
  socket = inr 3;
  set_linger = none;
  set_reuse = none;
  bind = none;
  listen = none;
  set_nonblocking = none;
}
