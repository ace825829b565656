-- ===== src/WebServer/Events.antt =====
-- What the events of the main loop leave of the server.
use echo_web_server.Prelude.{
  ℕ, ◌+◌, ◌<◌, ◌≡◌, ◌≢◌, refl, sym, ap, ◌∙◌, true, false, ◌||◌, List, [], ◌∷◌, inl, inr, Option,
  none, some, arith, Bool-cases, present, length, size_mod,
}
use echo_web_server.Run.{
  Run, ok, Exception, Yields, yields, Yields-bind, Yields-weaken, Yields-if, Yields-else,
  Yields-then, ◌>>=◌,
}
use echo_web_server.ThreadPool.{push}
use echo_web_server.Epoller.{Kernel}
use echo_web_server.WebServer.{
  Task, receive_from, send_to, World, Server, is_descriptor, is_listener, rethrown, conn,
  on_listen_event, push_task, on_transfer_event, on_event,
}
use echo_web_server.WebServer.Steps.{IsAbsent, IsFresh}
use echo_web_server.WebServer.InSync.{InSync, InSync-elsewhere, present-some}
use echo_web_server.WebServer.Clients.{
  Reset, mark_behaviour, extend_behaviour, Adds, add_client-Adds,
}

-- `r` is in sync, with the clients of `s` and possibly more.
pub record Extends {K : Kernel} (s r : Server K) : Type 0 where
  pub sync : InSync r.world r.timer
  pub users : (j : ℕ) → present (s.world.users j) ≡ true → r.world.users j ≡ s.world.users j
  pub same_listener : r.world.listener ≡ s.world.listener
  pub same_events : r.world.epoller.events ≡ s.world.epoller.events

module _ {K : Kernel} where
  Extends-refl : {s : Server K} → InSync s.world s.timer → Extends s s
  Extends-refl v = record {
    sync = v;
    users = λ j e. refl;
    same_listener = refl;
    same_events = refl;
  }

  Extends-trans : {s m r : Server K} → Extends s m → Extends m r → Extends s r
  Extends-trans p q = record {
    sync = q.sync;
    users = λ j e. q.users j (ap present (p.users j e) ∙ e) ∙ p.users j e;
    same_listener = q.same_listener ∙ p.same_listener;
    same_events = q.same_events ∙ p.same_events;
  }

  Reset-Extends :
      {now : ℕ → ℕ} {fd duration : ℕ} {s r : Server K} → Reset now fd duration s r → Extends s r
  Reset-Extends x = record {
    sync = x.sync;
    users = λ j e. ap (λ (w : World K). w.users j) x.same_world;
    same_listener = ap (λ (w : World K). w.listener) x.same_world;
    same_events = ap (λ (w : World K). w.epoller.events) x.same_world;
  }

  pub Adds-Extends :
      {now : ℕ → ℕ} {socket : ℕ} {s : Server K} {r : Option Exception × Server K}
      → s.world.users socket ≡ none
      → Adds now socket s r
      → Extends s r.1
  Adds-Extends {socket = socket} fresh x = record {
    sync = x.sync;
    users = λ j e. (x.others j (λ same. ground (arith, e, fresh, same))).0;
    same_listener = x.same_listener;
    same_events = x.same_events;
  }

-- Behind a new client the other new sockets are still fresh.
IsFresh-after :
    {K : Kernel} (w r : World K) (socket : ℕ) (more : List (ℕ × Option ℕ))
    → IsAbsent socket more
    → ((j : ℕ) → j ≢ socket → r.users j ≡ w.users j)
    → r.listener ≡ w.listener
    → IsFresh w more
    → IsFresh r more
IsFresh-after w r socket [] a u l f = tt
IsFresh-after w r socket ((other, answer) ∷ more) a u l f = (
  u other (λ e. a.0 (sym e)) ∙ f.0,
  ap (λ o. is_descriptor o other) l ∙ f.1,
  f.2,
  IsFresh-after w r socket more a.1 u l f.3,
)

-- The rest of `OnListenEvent` behind `AddClient`.
listen_rest :
    {K : Kernel} {now : ℕ → ℕ} (errno : ℕ) (s : Server K) {socket : ℕ} (more : List (ℕ × Option ℕ))
    (o : Option Exception) (r : Server K)
    → Adds now socket s (o, r)
    → s.world.users socket ≡ none
    → (InSync r.world r.timer → Yields (λ q. Extends r q.1) (on_listen_event K now more errno r))
    → Yields
        (λ q. Extends s q.1)
        (elim o [ none ↦ on_listen_event K now more errno r | some x ↦ ok (rethrown x, r) ])
listen_rest errno s more none r x fresh rest =
    Yields-weaken (rest x.sync) λ q y. Extends-trans (Adds-Extends fresh x) y
listen_rest errno s more (some y) r x fresh rest = yields (Adds-Extends fresh x)

-- A handler that throws nothing.
Extends-quiet :
    {K : Kernel} {s : Server K} {r : Run (Server K)}
    → Yields (Extends s) r
    → Yields
        (λ (q : Option Exception × Server K). Extends s q.1)
        (r >>= λ s'. let p : Option Exception × Server K = (none, s') in ok p)
Extends-quiet y = Yields-bind y λ q z. yields z

module _ {K : Kernel} (now : ℕ → ℕ) where
  on_listen_event-Extends :
      (accepted : List (ℕ × Option ℕ)) (errno : ℕ) (s : Server K)
      → InSync s.world s.timer
      → IsFresh s.world accepted
      → length s.timer.nodes + length accepted < size_mod
      → Yields (λ r. Extends s r.1) (on_listen_event K now accepted errno s)
  unfolding on_listen_event
  on_listen_event-Extends [] errno s v f room = yields (Extends-refl v)
  on_listen_event-Extends ((socket, answer) ∷ more) errno s v f room =
      Yields-bind (add_client-Adds now socket answer s v f.0 f.1 (omega (arith, room))) λ r x.
        listen_rest errno s more r.0 r.1 x f.0 λ sync.
          on_listen_event-Extends more errno r.1 sync
            (IsFresh-after s.world r.1.world socket more f.2 (λ j ne. (x.others j ne).0)
              x.same_listener f.3)
            (omega (arith, room, x.smaller))

  push_task-Extends :
      (task : Task) (s : Server K)
      → InSync s.world s.timer
      → s.world.thread_pool.closed ≡ false
      → Yields (Extends s) (push_task K now task s)
  unfolding push_task push
  push_task-Extends task s v o =
      rw (o, push)
        (yields (record {
          sync = InSync-elsewhere s.world _ s.world.clients s.world.phase s.world.jobs v;
          users = λ j e. refl;
          same_listener = refl;
          same_events = refl;
        }))

  on_transfer_event-Extends :
      (task : ℕ → Task) (fd : ℕ) (s : Server K)
      → InSync s.world s.timer
      → s.world.thread_pool.closed ≡ false
      → present (s.world.users fd) ≡ true
      → Yields (Extends s) (on_transfer_event K now task fd s)
  unfolding on_transfer_event conn
  on_transfer_event-Extends task fd s v o user =
      let (h, e) = present-some (s.world.users fd) user in
      Yields-bind ((extend_behaviour now fd s v).0 user) λ r (x, y). rw (x) (
        rw (ap (λ (w : World K). w.users fd) y.same_world ∙ e) (
          Yields-weaken
            (push_task-Extends (task h) r.1 y.sync
              (ap (λ (w : World K). w.thread_pool.closed) y.same_world ∙ o))
            λ q z. Extends-trans (Reset-Extends y) z))

  -- An event of the listener or of a client, in sync, with an open pool and new sockets that are fresh,
  -- does not end the program, and leaves it in sync with every client kept.
  pub on_event-Extends :
      (accepted : List (ℕ × Option ℕ)) (errno fd events : ℕ) (s : Server K)
      → InSync s.world s.timer
      → s.world.thread_pool.closed ≡ false
      → IsFresh s.world accepted
      → length s.timer.nodes + length accepted < size_mod
      → (is_listener s.world fd || present (s.world.users fd)) ≡ true
      → Yields (λ r. Extends s r.1) (on_event K now accepted errno fd events s)
  unfolding on_event
  on_event-Extends accepted errno fd events s v o f room known =
      elim (Bool-cases (is_listener s.world fd)) [
        | inl e ↦
            Yields-then _ (is_listener s.world fd) e
              (on_listen_event-Extends accepted errno s v f room)
        | inr e ↦
            let user : present (s.world.users fd) ≡ true = ground (arith, e, known) in
            Yields-else _ (is_listener s.world fd) e (
              Yields-if _
                (Extends-quiet
                  (Yields-weaken ((mark_behaviour now fd s v).0 user) λ r x. Reset-Extends x))
                (Yields-if _ (Extends-quiet (on_transfer_event-Extends receive_from fd s v o user))
                  (Yields-if _ (Extends-quiet (on_transfer_event-Extends send_to fd s v o user))
                    (yields (Extends-refl v)))))
      ]
