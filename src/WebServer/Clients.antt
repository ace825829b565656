-- ===== src/WebServer/Clients.antt =====
-- `AddClient`, `MarkClientAsToBeClosed` and `ExtendClientAliveTime`, and the events that use them.
use echo_web_server.Prelude.{
  ℕ, suc, ◌+◌, ◌≤◌, ◌<◌, ◌≡◌, ◌≢◌, refl, sym, ap, ◌∙◌, true, false, inl, inr, Option, none, some,
  arith, ◌==◌, Option-cases, if◌then◌else◌, present, length, size_mod,
}
use echo_web_server.Run.{
  ok, fault, Exception, Yields, yields, Yields-bind, Yields-weaken, Yields-value, ◌>>=◌,
}
use echo_web_server.HeapTimer.{Node, HeapTimer, contain, adjust}
use echo_web_server.HeapTimer.Index.{find, find-key}
use echo_web_server.HeapTimer.Insert.{Puts, push-Puts, adjust_node-Puts}
use echo_web_server.HeapTimer.Tick.{adjust_for, push_for}
use echo_web_server.Epoller.{Kernel, add, add_file_descriptor}
use echo_web_server.Epoller.Interest.{watched, Controls, set_file_descriptor-Controls}
use echo_web_server.WebServer.{
  World, Server, is_listener, with_client, add_client, mark_client_as_to_be_closed,
  extend_client_alive_time, time_out_callback, connection_of, tick_clients, epoll_in,
  connect_event_mode,
}
use echo_web_server.HeapTimer.Expiry.{IsMonotone}
use echo_web_server.WebServer.Timeouts.{tick_clients-Closes}
use echo_web_server.WebServer.InSync.{InSync, present-some, contain-present}

-- `r` is the server `s` with the expiration of the client's node set anew, by a reading of the clock.
pub record Reset {K : Kernel} (now : ℕ → ℕ) (fd duration : ℕ) (s r : Server K) : Type 0 where
  pub sync : InSync r.world r.timer
  pub same_world : r.world ≡ s.world
  pub read_once : r.readings ≡ suc s.readings
  pub node : Node
  pub before : find fd s.timer ≡ some node
  pub timer :
      (j : ℕ)
      → find j r.timer ≡ (
          if fd == j
          then some (record node { expiration = now s.readings + duration })
          else find j s.timer)

abbrev connect_in : ℕ
connect_in = connect_event_mode + epoll_in

module _ {K : Kernel} (now : ℕ → ℕ) where
  adjust_for-Reset :
      (fd duration : ℕ) (s : Server K)
      → InSync s.world s.timer
      → contain fd s.timer ≡ true
      → Yields (Reset now fd duration s) (adjust_for now fd duration s)
  unfolding adjust_for adjust
  adjust_for-Reset fd duration s v c =
      let (node, here) = present-some (find fd s.timer) (sym (contain-present fd s.timer) ∙ c) in
      let same_key = find-key fd s.timer node v.valid.indexed here in
      Yields-bind ((adjust_node-Puts fd (now s.readings + duration) none v.valid).0 node here)
        λ t x. yields (record {
          sync = record {
            valid = x.valid;
            epoll_fd = v.epoll_fd;
            is_open = v.is_open;
            timed = λ j. ground (arith, x.same j, same_key, v.timed j, here);
            callable = λ j other e.
                ground (arith, x.same j, same_key, v.callable j other, v.callable fd node here);
            watches = v.watches;
            apart = v.apart;
          };
          same_world = refl;
          node = node;
          before = here;
          read_once = refl;
          timer = λ j. ground (arith, same_key, x.same j);
        })

  -- `MarkClientAsToBeClosed`, in sync: for a client it makes the present reading of the clock the
  -- expiration of the client's node and changes nothing else; for any other socket it ends the program.
  pub mark_behaviour :
      (fd : ℕ) (s : Server K)
      → InSync s.world s.timer
      → (present (s.world.users fd) ≡ true
          → Yields (Reset now fd 0 s) (mark_client_as_to_be_closed K now (some fd) s))
        × (s.world.users fd ≡ none → mark_client_as_to_be_closed K now (some fd) s ≡ fault)
  unfolding mark_client_as_to_be_closed
  mark_behaviour fd s v =
      let known = contain-present fd s.timer ∙ v.timed fd in
      (
        (λ user.
            let c = known ∙ user in
            let (r, e, x) = Yields-value (adjust_for-Reset fd 0 s v c) in rw c (rw e (yields x))),
        (λ absent. rw known (rw absent refl)),
      )

  pub extend_behaviour :
      (fd : ℕ) (s : Server K)
      → InSync s.world s.timer
      → (present (s.world.users fd) ≡ true
          → Yields
              (λ r. (r.0 ≡ true) × Reset now fd s.world.alive_time s r.1)
              (extend_client_alive_time K now fd s))
        × (s.world.users fd ≡ none → extend_client_alive_time K now fd s ≡ ok (false, s))
  unfolding extend_client_alive_time
  extend_behaviour fd s v =
      let known = contain-present fd s.timer ∙ v.timed fd in
      (
        (λ user.
            let c = known ∙ user in
            rw c
              (Yields-bind (adjust_for-Reset fd s.world.alive_time s v c) λ r x. yields (refl, x))),
        (λ absent. rw known (rw absent refl)),
      )

  -- A marked client is closed by the next `ToNextTick`, which still leaves the server in sync.
  pub mark-Closes :
      (fd : ℕ) (s : Server K)
      → IsMonotone now
      → InSync s.world s.timer
      → present (s.world.users fd) ≡ true
      → Yields
          (λ r.
            InSync r.1.world r.1.timer
            × (r.1.world.users fd ≡ none)
            × (watched r.1.world.epoller fd ≡ none)
            × (find fd r.1.timer ≡ none))
          (mark_client_as_to_be_closed K now (some fd) s >>= tick_clients K now)
  mark-Closes fd s mono v user = Yields-bind ((mark_behaviour fd s v).0 user) λ m x.
      Yields-weaken (tick_clients-Closes now m mono x.sync) λ r c.
        let node = record x.node { expiration = now s.readings + 0 } in
        let here : find fd m.timer ≡ some node = ground (arith, x.timer fd) in
        elim (c.each fd node here) [
          | inl (recent, later, _, _) ↦
              let due = mono s.readings c.last (omega (arith, x.read_once, recent)) in
              absurd (omega (arith, due, later))
          | inr (_, left, unseen, gone) ↦ (c.sync, left, unseen, gone)
        ]

  -- What `AddClient` leaves: on an exception the clients and the timer as they were; else the new client,
  -- alive for its time.
  pub record Adds (socket : ℕ) (s : Server K) (r : Option Exception × Server K) : Type 0 where
    pub sync : InSync r.1.world r.1.timer
    pub refused :
        (x : Exception) → r.0 ≡ some x → (r.1.world.users ≡ s.world.users) × (r.1.timer ≡ s.timer)
    pub added :
        r.0 ≡ none
        → (r.1.world.users socket ≡ some s.world.next_client)
          × (r.1.world.clients s.world.next_client ≡ connection_of socket)
          × (find socket r.1.timer
              ≡ some (record {
                key = socket;
                expiration = now s.readings + s.world.alive_time;
                callback = time_out_callback;
              }))
    pub others :
        (j : ℕ)
        → j ≢ socket
        → (r.1.world.users j ≡ s.world.users j) × (find j r.1.timer ≡ find j s.timer)
    pub same_listener : r.1.world.listener ≡ s.world.listener
    pub same_events : r.1.world.epoller.events ≡ s.world.epoller.events
    pub smaller : length r.1.timer.nodes ≤ suc (length s.timer.nodes)

  module _ (socket : ℕ) (s : Server K) (v : InSync s.world s.timer)
      (fresh : s.world.users socket ≡ none) (other : is_listener s.world socket ≡ false) where
    -- The world behind the epoller's answer.
    abbrev asked : World K
    asked = record s.world { epoller = (add_file_descriptor K socket connect_in s.world.epoller).1 }

    controls :
        Controls add socket connect_in s.world.epoller
          (add_file_descriptor K socket connect_in s.world.epoller)
    unfolding add_file_descriptor
    controls = set_file_descriptor-Controls socket connect_in s.world.epoller v.is_open add

    refused-InSync :
        (x : Exception)
        → (add_file_descriptor K socket connect_in s.world.epoller).0 ≡ some x
        → InSync asked s.timer
    refused-InSync x e = record {
      valid = v.valid;
      epoll_fd = v.epoll_fd;
      is_open = controls.same_epoll_fd ∙ v.is_open;
      timed = v.timed;
      callable = v.callable;
      watches = λ j. ap present (controls.kept x e j) ∙ v.watches j;
      apart = v.apart;
    }

    added-InSync :
        {t : HeapTimer} (expiration : ℕ)
        → (add_file_descriptor K socket connect_in s.world.epoller).0 ≡ none
        → Puts
            (record { key = socket; expiration = expiration; callback = time_out_callback })
            s.timer
            t
        → InSync (with_client K now socket asked) t
    added-InSync expiration e x = record {
      valid = x.valid;
      epoll_fd = v.epoll_fd;
      is_open = controls.same_epoll_fd ∙ v.is_open;
      timed = λ j. ground (arith, x.same j, v.timed j, fresh);
      callable = λ j node f. ground (arith, x.same j, v.callable j node);
      watches = λ j. ground (arith, controls.changed e j, v.watches j, fresh, other);
      apart = λ j f. ground (arith, v.apart j f, other);
    }

    added-Adds :
        {t : HeapTimer}
        → (add_file_descriptor K socket connect_in s.world.epoller).0 ≡ none
        → Puts
            (record {
              key = socket;
              expiration = now s.readings + s.world.alive_time;
              callback = time_out_callback;
            })
            s.timer
            t
        → Adds socket s (
          none,
          record { world = with_client K now socket asked; timer = t; readings = suc s.readings },
        )
    added-Adds e x = record {
      sync = added-InSync (now s.readings + s.world.alive_time) e x;
      refused = λ y f. absurd (ground arith);
      added = λ _. (ground (arith, fresh), ground arith, ground (arith, x.same socket));
      others = λ j ne. (ground (arith, ne), ground (arith, x.same j, ne));
      same_listener = refl;
      same_events = controls.same_events;
      smaller = x.grows;
    }

    pushed-Adds :
        (add_file_descriptor K socket connect_in s.world.epoller).0 ≡ none
        → suc (length s.timer.nodes) < size_mod
        → Yields
            (λ r. Adds socket s (none, r))
            (push_for now socket s.world.alive_time time_out_callback
              (record s { world = with_client K now socket asked }))
    unfolding push_for
    pushed-Adds e room =
        Yields-bind
          (push-Puts socket (now s.readings + s.world.alive_time) time_out_callback v.valid room)
          λ t x. yields (added-Adds e x)

    refused-Adds :
        (x : Exception)
        → (add_file_descriptor K socket connect_in s.world.epoller).0 ≡ some x
        → Adds socket s (some x, record s { world = asked })
    refused-Adds x e = record {
      sync = refused-InSync x e;
      refused = λ y f. (refl, refl);
      added = λ f. absurd (ground arith);
      others = λ j ne. (refl, refl);
      same_listener = refl;
      same_events = controls.same_events;
      smaller = omega arith;
    }

  -- `AddClient` of a socket that is new, in sync and with room in the timer, leaves the server in sync
  -- and every other client alone: the new client is known to the epoller and lives for its time, or an
  -- exception has left the clients and the timer as they were.
  pub add_client-Adds :
      (socket : ℕ) (answer : Option ℕ) (s : Server K)
      → InSync s.world s.timer
      → s.world.users socket ≡ none
      → is_listener s.world socket ≡ false
      → suc (length s.timer.nodes) < size_mod
      → Yields (Adds socket s) (add_client K now socket answer s)
  unfolding add_client
  add_client-Adds socket (some errno) s v fresh other room = yields (record {
    sync = v;
    refused = λ y f. (refl, refl);
    added = λ f. absurd (ground arith);
    others = λ j ne. (refl, refl);
    same_listener = refl;
    same_events = refl;
    smaller = omega arith;
  })
  add_client-Adds socket none s v fresh other room =
      elim (Option-cases (add_file_descriptor K socket connect_in s.world.epoller).0) [
        | inl e ↦
            rw (e, add_client)
              (Yields-bind (pushed-Adds socket s v fresh other e room) λ r a. yields a)
        | inr (x, e) ↦ rw (e, add_client) (yields (refused-Adds socket s v fresh other x e))
      ]
