-- ===== src/Log/Async.antt =====
-- `Logger::Log` and `AsyncLogProc` of src/log/log.cpp, for a logger with a capacity: producers hand their
-- events to the writer's thread over the blocking queue. What each thread does with the logger's mutex
-- is a step of its own; a step of the queue is one too.
use echo_web_server.Prelude.{
  ℕ, ◌+◌, ◌≤◌, ◌<◌, ◌≡◌, ◌≢◌, refl, sym, ap, ◌∙◌, Bool, true, false, List, [], ◌∷◌, ◌++◌, arith,
  length, length-append, append-nil, append_assoc,
}
use echo_web_server.Log.{Event}

-- Who holds `mtx_`: a producer in `PushBack` with its event, or the writer in `SyncLog`.
pub data Holder : Type 0 where
  nobody : Holder
  producer writer : Event → Holder

-- The writer's thread: before `Pop`, before `SyncLog` with an event, in `SyncLog`, or returned.
pub data Writer : Type 0 where
  popping : Writer
  popped : Event → Writer
  logging : Event → Writer
  returned : Writer

-- The queue, the mutex and the writer; `accepted` and `written` are the events that a producer has
-- brought to `PushBack`'s end and that `SyncLog` is through with, in order.
pub record AsyncLogger : Type 0 where
  pub capacity : ℕ
  pub closed : Bool
  pub deq : List Event
  pub mtx : Holder
  pub thread : Writer
  pub accepted : List Event
  pub written : List Event

abbrev pub of_capacity : ℕ → AsyncLogger
of_capacity capacity = record {
  capacity = capacity;
  closed = false;
  deq = [];
  mtx = nobody;
  thread = popping;
  accepted = [];
  written = [];
}

pub data Step (s : AsyncLogger) : AsyncLogger → Type 0 where
  -- `Log` with an enabled event takes the mutex,
  locks : (e : Event) → s.mtx ≡ nobody → Step s (record s { mtx = producer e })
  -- and keeps it until the queue has space.
  pushes :
      (e : Event)
      → s.mtx ≡ producer e
      → length s.deq < s.capacity
      → Step s (record s { mtx = nobody; deq = s.deq ++ e ∷ []; accepted = s.accepted ++ e ∷ [] })
  pops :
      (e : Event) (deq : List Event)
      → s.thread ≡ popping
      → s.closed ≡ false
      → s.deq ≡ e ∷ deq
      → Step s (record s { thread = popped e; deq = deq })
  returns : s.thread ≡ popping → s.closed ≡ true → Step s (record s { thread = returned })
  takes :
      (e : Event)
      → s.thread ≡ popped e
      → s.mtx ≡ nobody
      → Step s (record s { thread = logging e; mtx = writer e })
  logs :
      (e : Event)
      → s.thread ≡ logging e
      → Step s (record s { thread = popping; mtx = nobody; written = s.written ++ e ∷ [] })
  -- The destructor's `event_deque_->Close()`.
  closes : Step s (record s { closed = true; deq = [] })

pub data Reach (s : AsyncLogger) : AsyncLogger → Type 0 where
  here : Reach s s
  next : {m r : AsyncLogger} → Reach s m → Step m r → Reach s r

-- The queue is full, a producer waits for its space with the mutex, and the writer waits for the mutex
-- with the event that it has popped.
pub record IsDeadlocked (s : AsyncLogger) : Type 0 where
  pub waiting : Event
  pub holds : s.mtx ≡ producer waiting
  pub event : Event
  pub stuck : s.thread ≡ popped event
  pub full : s.capacity ≤ length s.deq
  pub not_closed : s.closed ≡ false

-- In a deadlock no thread can do anything: nothing more happens until the logger is destroyed.
pub deadlock-stays :
    {s r : AsyncLogger} → IsDeadlocked s → Step s r → r ≡ record s { closed = true; deq = [] }
deadlock-stays d (locks e h) = absurd (cc (sym h ∙ d.holds))
deadlock-stays d (pushes e h f) = absurd (omega (arith, f, d.full))
deadlock-stays d (pops e deq t c f) = absurd (cc (sym t ∙ d.stuck))
deadlock-stays d (returns t c) = absurd (cc (sym t ∙ d.stuck))
deadlock-stays d (takes e t h) = absurd (cc (sym h ∙ d.holds))
deadlock-stays d (logs e t) = absurd (cc (sym t ∙ d.stuck))
deadlock-stays d closes = refl

Reach-trans : {s m r : AsyncLogger} → Reach s m → Reach m r → Reach s r
Reach-trans p here = p
Reach-trans p (next q x) = next (Reach-trans p q) x

-- A logger that is not closed and has written nothing yet, with nobody holding its mutex.
abbrev quiet : ℕ → List Event → Writer → List Event → AsyncLogger
quiet capacity deq thread accepted = record {
  capacity = capacity;
  closed = false;
  deq = deq;
  mtx = nobody;
  thread = thread;
  accepted = accepted;
  written = [];
}

-- The queue is filled while the writer does nothing.
fill :
    (c : ℕ) (thread : Writer) (es deq accepted : List Event)
    → length deq + length es ≤ c
    → Reach (quiet c deq thread accepted) (quiet c (deq ++ es) thread (accepted ++ es))
fill c thread [] deq accepted h = rw (append-nil deq, append-nil accepted) here
fill c thread (e ∷ es) deq accepted h =
    let one : Reach (quiet c deq thread accepted)
        (quiet c (deq ++ e ∷ []) thread (accepted ++ e ∷ [])) =
      next (next here (locks e refl)) (pushes e refl (omega (arith, h))) in
    let rest =
      fill c thread es (deq ++ e ∷ []) (accepted ++ e ∷ [])
        (omega (arith, h, length-append deq (e ∷ []))) in
    Reach-trans one (rw (append_assoc deq (e ∷ []) es, append_assoc accepted (e ∷ []) es) at rest)

-- Every capacity allows a deadlock: with the first event popped by the writer, as many events as the
-- queue holds and one more are logged before the writer has got the mutex.
pub log-deadlocks :
    (c : ℕ) (first last : Event) (es : List Event)
    → 0 < c
    → length es ≡ c
    → (r : AsyncLogger) × Reach (of_capacity c) r
      × IsDeadlocked r
      × ((q : AsyncLogger) → Step r q → q ≡ record r { closed = true; deq = [] })
log-deadlocks c first last es pos full =
    let r = record (quiet c es (popped first) (first ∷ es)) { mtx = producer last } in
    let stuck : IsDeadlocked r = record {
      waiting = last;
      holds = refl;
      event = first;
      stuck = refl;
      full = omega (arith, full);
      not_closed = refl;
    } in
    (
      r,
      next
          (Reach-trans popping_one (fill c (popped first) es [] (first ∷ []) (omega (arith, full))))
          (locks last refl),
      stuck,
      λ q x. deadlock-stays stuck x,
    )
  where
    popping_one : Reach (of_capacity c) (quiet c [] (popped first) (first ∷ []))
    popping_one =
        next (fill c popping (first ∷ []) [] [] (omega (arith, pos))) (pops first [] refl refl refl)

-- The event that the writer has in hand.
abbrev in_hand : Writer → List Event
in_hand popping = []
in_hand (popped e) = e ∷ []
in_hand (logging e) = e ∷ []
in_hand returned = []

-- Until the logger is closed no event is lost and their order is kept, the queue is within its
-- capacity, and the writer has the mutex whenever it is in `SyncLog`.
pub record IsInOrder (s : AsyncLogger) : Type 0 where
  pub ordered : s.closed ≡ false → s.accepted ≡ s.written ++ (in_hand s.thread ++ s.deq)
  pub bounded : length s.deq ≤ s.capacity
  pub exclusive : (e : Event) → s.thread ≡ logging e → s.mtx ≡ writer e
  pub unreturned : s.closed ≡ false → s.thread ≢ returned

Step-IsInOrder : {s r : AsyncLogger} → Step s r → IsInOrder s → IsInOrder r
Step-IsInOrder (locks e h) v = record {
  ordered = v.ordered;
  bounded = v.bounded;
  exclusive = λ e' t. absurd (cc (sym h ∙ v.exclusive e' t));
  unreturned = v.unreturned;
}
Step-IsInOrder {s} (pushes e h f) v = record {
  ordered = λ c.
      ap (λ es. es ++ e ∷ []) (v.ordered c)
      ∙ append_assoc s.written (in_hand s.thread ++ s.deq) (e ∷ [])
      ∙ ap (λ es. s.written ++ es) (append_assoc (in_hand s.thread) s.deq (e ∷ []));
  bounded = omega (arith, f, length-append s.deq (e ∷ []));
  exclusive = λ e' t. absurd (cc (sym h ∙ v.exclusive e' t));
  unreturned = v.unreturned;
}
Step-IsInOrder {s} (pops e deq t c f) v = record {
  ordered = λ _.
      v.ordered c ∙ ap (λ w. s.written ++ (in_hand w ++ s.deq)) t ∙ ap (λ es. s.written ++ es) f;
  bounded = omega (arith, v.bounded, ap length f);
  exclusive = λ e' x. absurd (cc x);
  unreturned = λ _ x. cc x;
}
Step-IsInOrder (returns t c) v = record {
  ordered = λ x. absurd (cc (sym c ∙ x));
  bounded = v.bounded;
  exclusive = λ e' x. absurd (cc x);
  unreturned = λ x. absurd (cc (sym c ∙ x));
}
Step-IsInOrder {s} (takes e t h) v = record {
  ordered = λ c. v.ordered c ∙ ap (λ w. s.written ++ (in_hand w ++ s.deq)) t;
  bounded = v.bounded;
  exclusive = λ e' x. ground (arith, x);
  unreturned = λ c x. cc x;
}
Step-IsInOrder {s} (logs e t) v = record {
  ordered = λ c.
      v.ordered c
      ∙ ap (λ w. s.written ++ (in_hand w ++ s.deq)) t
      ∙ sym (append_assoc s.written (e ∷ []) s.deq);
  bounded = v.bounded;
  exclusive = λ e' x. absurd (cc x);
  unreturned = λ c x. cc x;
}
Step-IsInOrder closes v = record {
  ordered = λ c. absurd (cc c);
  bounded = omega arith;
  exclusive = v.exclusive;
  unreturned = λ c. absurd (cc c);
}

of_capacity-IsInOrder : (c : ℕ) → IsInOrder (of_capacity c)
of_capacity-IsInOrder c = record {
  ordered = λ x. refl;
  bounded = omega arith;
  exclusive = λ e x. absurd (cc x);
  unreturned = λ c x. cc x;
}

-- In every run of a logger with its writer's thread, until it is closed, the events that were accepted
-- are those written, the one that the writer has in hand, and those in the queue, in this order; the
-- queue holds no more than its capacity, and who is in `SyncLog` holds the mutex.
pub Reach-IsInOrder : (c : ℕ) {r : AsyncLogger} → Reach (of_capacity c) r → IsInOrder r
Reach-IsInOrder c here = of_capacity-IsInOrder c
Reach-IsInOrder c (next p x) = Step-IsInOrder x (Reach-IsInOrder c p)
