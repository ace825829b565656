-- ===== src/WebServer/InSync.antt =====
-- The invariant of the server: its clients, their timers and the epoller's interest list agree.
use echo_web_server.Prelude.{
  ℕ, ◌≤◌, ◌<◌, ◌≡◌, ◌≢◌, refl, ◌∙◌, true, false, ◌||◌, List, inl, inr, Option, none, some,
  Option-cases, present, length, get_elem?,
}
use echo_web_server.HeapTimer.{Node, HeapTimer, contain}
use echo_web_server.HeapTimer.Index.{find, contain-absent, contain-known}
use echo_web_server.HeapTimer.Order.{IsValid}
use echo_web_server.Epoller.{Kernel, Event}
use echo_web_server.Epoller.Interest.{watched}
use echo_web_server.ThreadPool.{ThreadPool}
use echo_web_server.Connection.{Connection}
use echo_web_server.WebServer.{Task, Job, Phase, handling, World, Server, is_listener}

-- The sockets of the clients are those in the timer, each with a callback, and together with the
-- listener, which is no client, those that an open epoller watches.
pub record InSync {K : Kernel} (w : World K) (t : HeapTimer) : Type 0 where
  pub valid : IsValid t
  pub epoll_fd : ℕ
  pub is_open : w.epoller.epoll_fd ≡ some epoll_fd
  pub timed : (j : ℕ) → present (find j t) ≡ present (w.users j)
  pub callable : (j : ℕ) (node : Node) → find j t ≡ some node → node.callback ≢ 0
  pub watches : (j : ℕ) → present (watched w.epoller j) ≡ (is_listener w j || present (w.users j))
  pub apart : (j : ℕ) → is_listener w j ≡ true → w.users j ≡ none

-- The events that the main loop has still to handle are for the listener or for clients.
abbrev pub IsPending : {K : Kernel} → World K → Phase → Type 0
IsPending w (handling i count) =
    (i ≤ count)
    × (count ≤ length w.epoller.events)
    × ((idx : ℕ) (e : Event)
        → i ≤ idx
        → idx < count
        → get_elem? w.epoller.events idx ≡ some e
        → (is_listener w e.fd || present (w.users e.fd)) ≡ true)
IsPending w _ = Unit {0}

pub record IsSound {K : Kernel} (s : Server K) : Type 0 where
  pub sync : InSync s.world s.timer
  pub pending : IsPending s.world s.world.phase

pub present-some {ℓ} : {A : Type ℓ} (o : Option A) → present o ≡ true → (a : A) × (o ≡ some a)
present-some none e = cc
present-some (some a) e = (a, refl)

pub present-none {ℓ} : {A : Type ℓ} (o : Option A) → present o ≡ false → o ≡ none
present-none none e = refl
present-none (some a) e = cc

pub contain-present : (k : ℕ) (t : HeapTimer) → contain k t ≡ present (find k t)
unfolding find
contain-present k t = elim (Option-cases (t.key_to_idx k)) [
  | inl e ↦ contain-absent k t e ∙ rw e refl
  | inr (i, e) ↦ contain-known k t e ∙ rw e refl
]

-- The invariant says nothing of the pool, the connections, the phase and the jobs.
pub InSync-elsewhere :
    {K : Kernel} (w : World K) {t : HeapTimer} (pool : ThreadPool Task) (clients : ℕ → Connection)
    (phase : Phase) (jobs : List Job)
    → InSync w t
    → InSync (record w { thread_pool = pool; clients = clients; phase = phase; jobs = jobs }) t
InSync-elsewhere w pool clients phase jobs v = record {
  valid = v.valid;
  epoll_fd = v.epoll_fd;
  is_open = v.is_open;
  timed = v.timed;
  callable = v.callable;
  watches = v.watches;
  apart = v.apart;
}
