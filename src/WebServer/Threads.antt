-- ===== src/WebServer/Threads.antt =====
-- The soundness of the server along the runs of Steps.
use echo_web_server.Prelude.{
  ℕ, ◌≡◌, refl, sym, ap, ◌∙◌, List, ◌∷◌, ◌++◌, ◌⊎◌, inl, inr, Option, none, some, arith,
  Option-cases, if◌then◌else◌, present, length, get_elem?,
}
use mathlib.Core.Path.{subst}
use echo_web_server.Run.{
  Bytes, ok, Exception, Yields-weaken, Yields-at, or_fault, IfOk, returns, faults, IfOk-then,
  IfOk-bind, IfOk-weaken, IfOk-at, IfOk-if, IfOk-Yields,
}
use echo_web_server.HeapTimer.Expiry.{IsMonotone}
use echo_web_server.Files.{FileSystem}
use echo_web_server.Connection.{Connection, receive, send, process}
use echo_web_server.ThreadPool.{ThreadPool}
use echo_web_server.Epoller.{Kernel, Event, modify, modify_file_descriptor}
use echo_web_server.Epoller.Interest.{
  watched, Controls, set_file_descriptor-Controls, modify-unknown,
}
use echo_web_server.WebServer.{
  Task, Job, receiving, sending, registering, marking, Phase, ticking, waiting, handling, World,
  in_phase, Server, put_client, is_descriptor, noexcept, mark_client_as_to_be_closed,
}
use echo_web_server.WebServer.Workers.{
  Transfers, process_client, receive_from_client, send_to_client, register_client, work,
}
use echo_web_server.WebServer.Steps.{
  Step, main, accepts, takes, rests, wakes, works, Reach, here, next, resumed,
}
use echo_web_server.WebServer.InSync.{InSync, InSync-elsewhere, IsPending, IsSound}
use echo_web_server.WebServer.Clients.{mark_behaviour, Adds, add_client-Adds}
use echo_web_server.WebServer.Events.{Extends, Adds-Extends}
use echo_web_server.WebServer.Loop.{in_phase-InSync, IsPending-Extends, main_step-IsSound}

-- `r` is in sync, with the phase, listener, clients and events of `s`.
pub record Resembles {K : Kernel} (s r : Server K) : Type 0 where
  pub sync : InSync r.world r.timer
  pub users : r.world.users ≡ s.world.users
  pub listener : r.world.listener ≡ s.world.listener
  pub events : r.world.epoller.events ≡ s.world.epoller.events
  pub phase : r.world.phase ≡ s.world.phase

module _ {K : Kernel} (now : ℕ → ℕ) (fs : FileSystem) (root_dir : Bytes) where
  put_client-Resembles :
      (h : ℕ) (c : Connection) (s : Server K)
      → InSync s.world s.timer
      → Resembles s (put_client h c s)
  put_client-Resembles h c s v = record {
    sync = InSync-elsewhere s.world s.world.thread_pool _ s.world.phase s.world.jobs v;
    users = refl;
    listener = refl;
    events = refl;
    phase = refl;
  }

  register_client-Resembles :
      (fd wanted : ℕ) (s : Server K)
      → InSync s.world s.timer
      → IfOk (λ r. Resembles s r.1) (register_client K now fs root_dir fd wanted s)
  unfolding register_client
  register_client-Resembles fd wanted s v =
      elim (Option-cases (modify_file_descriptor K fd wanted s.world.epoller).0) [
        | inr (x, e) ↦ rw (e, register_client) faults
        | inl e ↦ rw (e, register_client) (returns (modified e))
      ]
    where
      controls :
          Controls modify fd wanted s.world.epoller
            (modify_file_descriptor K fd wanted s.world.epoller)
      controls =
          unfold modify_file_descriptor in
          set_file_descriptor-Controls fd wanted s.world.epoller v.is_open modify

      modified :
          (modify_file_descriptor K fd wanted s.world.epoller).0 ≡ none
          → Resembles s (record s {
            world = record s.world {
              epoller = (modify_file_descriptor K fd wanted s.world.epoller).1;
            };
          })
      modified e = record {
        sync = record {
          valid = v.valid;
          epoll_fd = v.epoll_fd;
          is_open = controls.same_epoll_fd ∙ v.is_open;
          timed = v.timed;
          callable = v.callable;
          watches = λ j. elim (Option-cases (watched s.world.epoller fd)) [
            | inl f ↦
                let no = modify-unknown fd wanted s.world.epoller v.is_open f in
                absurd (ground (arith, no, e))
            | inr (old, f) ↦ ground (arith, controls.changed e j, v.watches j, f)
          ];
          apart = v.apart;
        };
        users = refl;
        listener = refl;
        events = controls.same_events;
        phase = refl;
      }

  process_client-Resembles :
      (h : ℕ) (s : Server K)
      → InSync s.world s.timer
      → IfOk (λ r. Resembles s r.1) (process_client K now fs root_dir h s)
  unfolding process_client
  process_client-Resembles h s v =
      IfOk-then (noexcept (process fs root_dir (s.world.clients h)))
        λ r. IfOk-then (or_fault r.1.socket) λ socket. returns (put_client-Resembles h r.1 s v)

  Resembles-trans : {s m r : Server K} → Resembles s m → Resembles m r → Resembles s r
  Resembles-trans p q = record {
    sync = q.sync;
    users = q.users ∙ p.users;
    listener = q.listener ∙ p.listener;
    events = q.events ∙ p.events;
    phase = q.phase ∙ p.phase;
  }

  processing-Resembles :
      (h : ℕ) (c : Connection) (s : Server K)
      → InSync s.world s.timer
      → IfOk (λ r. Resembles s r.1) (process_client K now fs root_dir h (put_client h c s))
  processing-Resembles h c s v =
      let put = put_client-Resembles h c s v in
      IfOk-weaken (process_client-Resembles h (put_client h c s) put.sync)
        λ r x. Resembles-trans put x

  receive_from_client-Resembles :
      (answers : List (ℕ ⊎ Bytes)) (h : ℕ) (s : Server K)
      → InSync s.world s.timer
      → IfOk (λ r. Resembles s r.1) (receive_from_client K now fs root_dir answers h s)
  unfolding receive_from_client
  receive_from_client-Resembles answers h s v =
      IfOk-then (receive answers (s.world.clients h)) λ r. cases r.0 r.1
    where
      cases :
          (o : Exception ⊎ ℕ) (c : Connection)
          → IfOk
              (λ (r : Option Job × Server K). Resembles s r.1)
              (elim o [
                | inl x ↦ ok (some (marking c.socket), put_client h c s)
                | inr n ↦ process_client K now fs root_dir h (put_client h c s)
              ])
      cases (inl x) c = returns (put_client-Resembles h c s v)
      cases (inr n) c = processing-Resembles h c s v

  send_to_client-Resembles :
      (answers : List (ℕ ⊎ ℕ)) (h : ℕ) (s : Server K)
      → InSync s.world s.timer
      → IfOk (λ r. Resembles s r.1) (send_to_client K now fs root_dir answers h s)
  unfolding send_to_client
  send_to_client-Resembles answers h s v =
      IfOk-then (send answers (s.world.clients h)) λ r. cases r.0.outcome r.1
    where
      cases :
          (o : Exception ⊎ ℕ) (c : Connection)
          → IfOk
              (λ (r : Option Job × Server K). Resembles s r.1)
              (elim o [
                | inl x ↦ ok (some (marking c.socket), put_client h c s)
                | inr n ↦
                    if c.keep_alive
                    then process_client K now fs root_dir h (put_client h c s)
                    else ok (some (marking c.socket), put_client h c s)
              ])
      cases (inl x) c = returns (put_client-Resembles h c s v)
      cases (inr n) c =
          IfOk-if c.keep_alive (processing-Resembles h c s v)
            (returns (put_client-Resembles h c s v))

  mark-Resembles :
      (socket : Option ℕ) (s : Server K)
      → InSync s.world s.timer
      → IfOk (Resembles s) (mark_client_as_to_be_closed K now socket s)
  mark-Resembles none s v = unfold mark_client_as_to_be_closed in faults
  mark-Resembles (some fd) s v = elim (Option-cases (s.world.users fd)) [
    | inl e ↦ rw ((mark_behaviour now fd s v).1 e) faults
    | inr (h, e) ↦ IfOk-Yields (
        Yields-weaken ((mark_behaviour now fd s v).0 (ap present e)) λ r x. record {
          sync = x.sync;
          users = ap (λ (w : World K). w.users) x.same_world;
          listener = ap (λ (w : World K). w.listener) x.same_world;
          events = ap (λ (w : World K). w.epoller.events) x.same_world;
          phase = ap (λ (w : World K). w.phase) x.same_world;
        })
  ]

  work-Resembles :
      (a : Transfers) (j : Job) (s : Server K)
      → InSync s.world s.timer
      → IfOk (λ r. Resembles s r.1) (work K now fs root_dir a j s)
  unfolding work
  work-Resembles a (receiving h) s v = receive_from_client-Resembles a.received h s v
  work-Resembles a (sending h) s v = send_to_client-Resembles a.offered h s v
  work-Resembles a (registering fd wanted) s v = register_client-Resembles fd wanted s v
  work-Resembles a (marking socket) s v = IfOk-bind (mark-Resembles socket s v) λ r x. returns x

  -- What the invariant says of the phase depends on nothing else.
  IsPending-Resembles :
      (s r : Server K) (phase : Phase)
      → Resembles s r
      → IsPending s.world phase
      → IsPending r.world phase
  IsPending-Resembles s r ticking x p = tt
  IsPending-Resembles s r (waiting d) x p = tt
  IsPending-Resembles s r (handling i count) x p = (
    p.0,
    omega (arith, p.1, ap length x.events),
    λ idx e le lt g.
        let known =
          p.2 idx e le lt (ap (λ (es : List Event). get_elem? es idx) (sym x.events) ∙ g) in
        let same = ap (λ o. is_descriptor o e.fd) x.listener in
        let users = ap (λ (u : ℕ → Option ℕ). u e.fd) x.users in ground (arith, known, same, users),
  )

  elsewhere-Resembles :
      (pool : ThreadPool Task) (jobs : List Job) (s : Server K)
      → InSync s.world s.timer
      → Resembles s (record s { world = record s.world { thread_pool = pool; jobs = jobs } })
  elsewhere-Resembles pool jobs s v = record {
    sync = InSync-elsewhere s.world pool s.world.clients s.world.phase jobs v;
    users = refl;
    listener = refl;
    events = refl;
    phase = refl;
  }

  Resembles-IsSound : (s r : Server K) → IsSound s → Resembles s r → IsSound r
  Resembles-IsSound s r v x = record {
    sync = x.sync;
    pending = IsPending-Resembles s r r.world.phase x (rw x.phase v.pending);
  }

  elsewhere-IsSound :
      (pool : ThreadPool Task) (jobs : List Job) (s : Server K)
      → IsSound s
      → IsSound (record s { world = record s.world { thread_pool = pool; jobs = jobs } })
  elsewhere-IsSound pool jobs s v = Resembles-IsSound s _ v (elsewhere-Resembles pool jobs s v.sync)

  resumed-IsSound :
      (o : Option Job) (jobs : List Job) (r : Server K)
      → IsSound r
      → IsSound (record r { world = resumed o jobs r.world })
  resumed-IsSound none jobs r v = elsewhere-IsSound _ jobs r v
  resumed-IsSound (some j) jobs r v = elsewhere-IsSound r.world.thread_pool (j ∷ jobs) r v

  accepted-IsSound :
      (socket i count : ℕ) (s r : Server K)
      → IsSound s
      → s.world.phase ≡ handling i count
      → s.world.users socket ≡ none
      → Adds now socket s (none, r)
      → IsSound (in_phase (handling i count) r)
  accepted-IsSound socket i count s r v p fresh x =
      let extends : Extends s r = Adds-Extends fresh x in
      record {
        sync = in_phase-InSync r (handling i count) extends.sync;
        pending = IsPending-Extends s r i count (subst (IsPending s.world) p v.pending) extends;
      }

  -- Every step of the main thread and of the threads of the pool keeps the server sound.
  pub Step-IsSound :
      {s r : Server K} → IsMonotone now → Step K now fs root_dir s r → IsSound s → IsSound r
  Step-IsSound mono (main {s = s} a q e) v = Yields-at (main_step-IsSound now a s mono q v) e
  Step-IsSound mono (accepts {s = s} {r = r} i count socket x p lt g heard fresh other room e) v =
      accepted-IsSound socket i count s r v p fresh
        (Yields-at (add_client-Adds now socket none s v.sync fresh other room) e)
  Step-IsSound mono (takes {s = s} n task pool e f) v = elsewhere-IsSound pool _ s v
  Step-IsSound mono (rests {s = s} n pool e f) v = elsewhere-IsSound pool s.world.jobs s v
  Step-IsSound mono (wakes {s = s} n e) v = elsewhere-IsSound _ s.world.jobs s v
  Step-IsSound mono (works {s = s} {r = r} a before after j e f) v =
      resumed-IsSound _ (before ++ after) r
        (Resembles-IsSound s r v (IfOk-at (work-Resembles a j s v.sync) f))

  -- From a sound server every run of the steps of `Step`, with time-outs, exceptions and failures of
  -- system calls, ends in a sound server: the sockets of the clients are those in the timer and, with the
  -- listener, those that the epoller watches. In such a run no worker's step falls within the main
  -- thread's `ToNextTick`, which the code runs without `mtx_`, or within its handling of the event of one
  -- client. Otherwise the steps of the main thread and of the workers come in any order, also between two
  -- calls of `AddClient` for one event of the listener. `Close` is not called, the epoller reports
  -- descriptors that it watches only, accepted sockets are new, and the timer, the waiting time and the
  -- list of events stay within their integers.
  pub Reach-IsSound :
      {s r : Server K} → IsMonotone now → Reach K now fs root_dir s r → IsSound s → IsSound r
  Reach-IsSound mono here v = v
  Reach-IsSound mono (next reached step) v = Step-IsSound mono step (Reach-IsSound mono reached v)
