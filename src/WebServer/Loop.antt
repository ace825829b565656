-- ===== src/WebServer/Loop.antt =====
-- The soundness of the main loop and of the working threads.
use echo_web_server.Prelude.{
  ℕ, zero, suc, ◌+◌, ◌/◌, ◌<◌, ◌≡◌, ◌≢◌, refl, sym, ap, ◌∙◌, true, List, [], ◌∷◌, ◌++◌, ◌⊎◌, inl,
  inr, Option, none, some, arith, ◌==◌, Bool-cases, present, length, length-append, get_elem?, take,
  drop, le→leb, lt→ltb,
}
use echo_web_server.Run.{
  Run, ok, throw, fault, out_of_fuel, Exception, Yields, yields, Yields-bind, Yields-ok,
}
use echo_web_server.HeapTimer.Expiry.{IsMonotone}
use echo_web_server.Epoller.{
  Kernel, Epoller, Event, interrupted, int_max, waited, wait, file_descriptor, events,
}
use echo_web_server.Epoller.Interest.{watched}
use echo_web_server.WebServer.{
  Phase, ticking, waiting, handling, Server, Answers, is_descriptor, in_phase, after_wait,
  after_event, wait_events, handle_event, main_step,
}
use echo_web_server.WebServer.Steps.{AllWatched, IsPlausible}
use echo_web_server.WebServer.InSync.{InSync, InSync-elsewhere, IsPending, IsSound}
use echo_web_server.WebServer.Timeouts.{tick_clients-Closes}
use echo_web_server.WebServer.Events.{Extends, on_event-Extends}

AllWatched-at :
    {K : Kernel} (p : Epoller K) (n : ℕ) (es rest : List Event) (idx : ℕ) (e : Event)
    → AllWatched p es
    → idx < length (take n es)
    → get_elem? (take n es ++ rest) idx ≡ some e
    → present (watched p e.fd) ≡ true
AllWatched-at p zero es rest idx e w h g = absurd (omega arith)
AllWatched-at p (suc n) [] rest idx e w h g = absurd (omega arith)
AllWatched-at p (suc n) (x ∷ es) rest zero e w h g = ground (arith, w.0)
AllWatched-at p (suc n) (x ∷ es) rest (suc idx) e w h g =
    AllWatched-at p n es rest idx e w.1 (omega arith) g

get_elem?-some : (xs : List Event) (i : ℕ) → i < length xs → (e : Event) × (get_elem? xs i ≡ some e)
get_elem?-some [] i h = absurd (omega arith)
get_elem?-some (x ∷ xs) zero h = (x, refl)
get_elem?-some (x ∷ xs) (suc i) h = get_elem?-some xs i (omega arith)

module _ {K : Kernel} where
  pub in_phase-InSync :
      (s : Server K) (phase : Phase)
      → InSync s.world s.timer
      → InSync (in_phase phase s).world s.timer
  in_phase-InSync s phase v =
      InSync-elsewhere s.world s.world.thread_pool s.world.clients phase s.world.jobs v

  ticking-IsSound : (s : Server K) → InSync s.world s.timer → IsSound (in_phase ticking s)
  ticking-IsSound s v = record { sync = in_phase-InSync s ticking v; pending = tt }

  -- The events are as before, where the clients can have become more.
  pub IsPending-Extends :
      (s r : Server K) (i count : ℕ)
      → IsPending s.world (handling i count)
      → Extends s r
      → IsPending r.world (handling i count)
  IsPending-Extends s r i count p x = (
    p.0,
    omega (arith, p.1, ap length x.same_events),
    λ idx e le lt g.
        let known =
          p.2 idx e le lt (ap (λ (es : List Event). get_elem? es idx) (sym x.same_events) ∙ g) in
        let same = ap (λ o. is_descriptor o e.fd) x.same_listener in
        ground (arith, known, same, x.users e.fd),
  )

  -- The events that are left behind one.
  IsPending-after :
      (s r : Server K) (i count : ℕ)
      → IsPending s.world (handling i count)
      → i ≢ count
      → Extends s r
      → IsPending r.world (handling (i + 1) count)
  IsPending-after s r i count p ne x =
      let q = IsPending-Extends s r i count p x in
      (omega (arith, p.0, ne), q.1, λ idx e le lt g. q.2 idx e (omega (arith, le)) lt g)

  after_event-IsSound :
      (s : Server K) (i count : ℕ) (outcome : Run (Option Exception × Server K))
      → IsPending s.world (handling i count)
      → i ≢ count
      → Yields (λ r. Extends s r.1) outcome
      → Yields IsSound (after_event (handling (i + 1) count) s outcome)
  after_event-IsSound s i count (ok (none, r)) p ne y =
      let x : Extends s r = Yields-ok y in
      yields (record {
        sync = in_phase-InSync r (handling (i + 1) count) x.sync;
        pending = IsPending-after s r i count p ne x;
      })
  after_event-IsSound s i count (ok (some e, r)) p ne y =
      let x : Extends s r = Yields-ok y in yields (ticking-IsSound r x.sync)
  after_event-IsSound s i count (throw e) p ne y = elim y [ ]
  after_event-IsSound s i count fault p ne y = elim y [ ]
  after_event-IsSound s i count out_of_fuel p ne y = elim y [ ]

  waited-IsPending :
      (s : Server K) (es : List Event)
      → InSync s.world s.timer
      → AllWatched s.world.epoller es
      → (let filled = take (length s.world.epoller.events) es in
          let rest = drop (length filled) s.world.epoller.events in
          IsPending
            (record s.world { epoller = record s.world.epoller { events = filled ++ rest } })
            (handling 0 (length filled)))
  waited-IsPending s es v w =
      let filled = take (length s.world.epoller.events) es in
      let rest = drop (length filled) s.world.epoller.events in
      (
        omega arith,
        omega (arith, length-append filled rest),
        λ idx e le lt g.
            sym (v.watches e.fd)
            ∙ AllWatched-at s.world.epoller (length s.world.epoller.events) es rest idx e w lt g,
      )

  -- The server with the epoller as `Wait` leaves it.
  abbrev with_epoller : Server K → Epoller K → Server K
  with_epoller s p = record s { world = record s.world { epoller = p } }

  no_events-IsPending : (s : Server K) → IsPending s.world (handling 0 0)
  no_events-IsPending s = (omega arith, omega arith, λ idx x le lt z. absurd (omega (arith, lt)))

  waited-IsSound :
      (s : Server K) (answer : ℕ ⊎ List Event)
      → InSync s.world s.timer
      → ((es : List Event) → answer ≡ inr es → AllWatched s.world.epoller es)
      → IsSound (
          after_wait
            (waited K answer s.world.epoller).0
            (with_epoller s (waited K answer s.world.epoller).1))
  waited-IsSound s (inl errno) v w = elim (Bool-cases (errno == interrupted)) [
    | inl g ↦
        rw g (record { sync = in_phase-InSync s (handling 0 0) v; pending = no_events-IsPending s })
    | inr g ↦ rw g (ticking-IsSound s v)
  ]
  waited-IsSound s (inr es) v w = record {
    sync = record {
      valid = v.valid;
      epoll_fd = v.epoll_fd;
      is_open = v.is_open;
      timed = v.timed;
      callable = v.callable;
      watches = v.watches;
      apart = v.apart;
    };
    pending = waited-IsPending s es v (w es refl);
  }

  wait_events-IsSound :
      (now : ℕ → ℕ) (a : Answers) (d : ℕ) (s : Server K)
      → InSync s.world s.timer
      → s.world.phase ≡ waiting d
      → IsPlausible a s
      → Yields IsSound (wait_events K now a d s)
  unfolding wait_events wait
  wait_events-IsSound now a d s v e q =
      rw
        (
          le→leb (length s.world.epoller.events) int_max q.capacity,
          le→leb (d / 1000000) int_max (q.short d e),
        )
        (yields (waited-IsSound s a.ready v q.reported))

  handle_event-IsSound :
      (now : ℕ → ℕ) (a : Answers) (i count : ℕ) (s : Server K)
      → InSync s.world s.timer
      → IsPending s.world (handling i count)
      → IsPlausible a s
      → Yields IsSound (handle_event K now a i count s)
  unfolding handle_event file_descriptor events
  handle_event-IsSound now a i count s v p q = elim (Bool-cases (i == count)) [
    | inl e ↦ rw e (yields (ticking-IsSound s v))
    | inr e ↦
        let ne : i ≢ count = ground (arith, e) in
        let lt : i < length s.world.epoller.events = omega (arith, p.0, p.1, ne) in
        let (x, f) = get_elem?-some s.world.epoller.events i lt in
        let known = p.2 i x (omega arith) (omega (arith, p.0, ne)) f in
        rw e (
          rw (lt→ltb i (length s.world.epoller.events) lt) (
            rw f (
              after_event-IsSound s i count _ p ne (
                on_event-Extends now a.accepted a.accept_errno x.fd x.events s v q.not_closed
                  q.fresh q.room known))))
  ]

  -- A step of the main loop on a sound server that is not closed, with a clock that does not run backwards
  -- and plausible answers of the system, does not end the program, and leaves the server sound, whatever
  -- exceptions are thrown on the way.
  pub main_step-IsSound :
      (now : ℕ → ℕ) (a : Answers) (s : Server K)
      → IsMonotone now
      → IsPlausible a s
      → IsSound s
      → Yields IsSound (main_step K now a s.world.phase s)
  unfolding main_step
  main_step-IsSound now a s mono q v = helper s.world.phase refl v.pending
    where
      helper :
          (phase : Phase)
          → s.world.phase ≡ phase
          → IsPending s.world phase
          → Yields IsSound (main_step K now a phase s)
      helper ticking e p =
          Yields-bind (tick_clients-Closes now s mono v.sync)
            λ r c. yields (record { sync = in_phase-InSync r.1 (waiting r.0) c.sync; pending = tt })
      helper (waiting d) e p = wait_events-IsSound now a d s v.sync e q
      helper (handling i count) e p = handle_event-IsSound now a i count s v.sync p q
