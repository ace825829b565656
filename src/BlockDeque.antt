-- ===== src/BlockDeque.antt =====
-- include/containers/block_deque.h: the blocking queue, as a monitor whose steps are the critical
-- sections under its mutex. A thread that waits on a condition variable is asleep until it is notified
-- or wakes for no reason, is awake until it has the mutex again, and then tests its condition.
pub mod Wakeup
pub mod Clearing
mod Tests
use echo_web_server.Prelude.{
  ℕ, zero, suc, ◌+◌, ◌-◌, ◌≤◌, ◌<◌, ◌≡◌, Bool, true, false, not, List, [], ◌∷◌, ◌++◌, Option, none,
  some, leb, ltb, ◌==◌, if◌then◌else◌, length,
}
use echo_web_server.Run.{Run, ok, fault, ◌>>=◌, ◌>>◌, assert}

pub record BlockDeque (T : Type 0) : Type 0 where
  pub closed : Bool
  pub capacity : ℕ
  pub deq : List T

-- `BlockDeque(capacity)`
unfoldable pub of_capacity : {T : Type 0} → ℕ → Run (BlockDeque T)
of_capacity capacity = do
  assert (ltb 0 capacity)
  ok (record { closed = false; capacity = capacity; deq = [] })

-- Which end a push is for, and its item.
pub data Push (T : Type 0) : Type 0 where
  push_back push_front : T → Push T

-- The queue with its threads: the producers and the consumers that wait, asleep or awake.
pub record Monitor (T : Type 0) : Type 0 where
  pub queue : BlockDeque T
  pub producers : List (Push T)
  pub awake_producers : List (Push T)
  pub consumers : ℕ
  pub awake_consumers : ℕ

module _ {T : Type 0} where
  unfoldable pub empty : BlockDeque T → Bool
  empty q = length q.deq == 0

  unfoldable pub size : BlockDeque T → ℕ
  size q = length q.deq

  unfoldable pub full : BlockDeque T → Run Bool
  unfolding size
  full q = do assert (leb (size q) q.capacity); ok (size q == q.capacity)

  unfoldable pub front : BlockDeque T → Run T
  front q = elim q.deq [ [] ↦ fault | x ∷ xs ↦ ok x ]

  unfoldable pub back : BlockDeque T → Run T
  back q = last q.deq
    where
      last : List T → Run T
      last [] = fault
      last (x ∷ []) = ok x
      last (x ∷ y ∷ xs) = last (y ∷ xs)

  unfoldable pub clear_no_lock : BlockDeque T → BlockDeque T
  clear_no_lock q = record q { deq = [] }

  abbrev pub inserted : Push T → List T → List T
  inserted (push_back x) deq = deq ++ x ∷ []
  inserted (push_front x) deq = x ∷ deq

  -- `consumer_cond_.notify_one()`
  unfoldable pub flush : Monitor T → Monitor T
  flush m = elim m.consumers [
    | zero ↦ m
    | suc n ↦ record m { consumers = n; awake_consumers = suc m.awake_consumers }
  ]

  -- `PushBack` and `PushFront` with the mutex: they wait for space, or insert and notify.
  unfoldable pub push : Push T → Monitor T → Monitor T
  unfolding flush
  push p m =
      if ltb (length m.queue.deq) m.queue.capacity
      then flush (record m { queue = record m.queue { deq = inserted p m.queue.deq } })
      else record m { producers = p ∷ m.producers }

  -- `Pop` with the mutex, whose condition does not hold: it waits.
  unfoldable pub await : Monitor T → Monitor T
  await m = record m { consumers = suc m.consumers }

  unfoldable pub clear : Monitor T → Monitor T
  unfolding clear_no_lock
  clear m = record m { queue = clear_no_lock m.queue }

  unfoldable pub close : Monitor T → Monitor T
  unfolding clear_no_lock
  close m = record m {
    queue = record (clear_no_lock m.queue) { closed = true };
    producers = [];
    awake_producers = m.producers ++ m.awake_producers;
    consumers = 0;
    awake_consumers = m.consumers + m.awake_consumers;
  }

-- `notify_one` of the producers: it wakes any one that is asleep.
pub data NotifiesProducer {T : Type 0} : Monitor T → Monitor T → Type 0 where
  nobody : {m : Monitor T} → m.producers ≡ [] → NotifiesProducer m m
  wakes :
      {m : Monitor T} (before after : List (Push T)) (p : Push T)
      → m.producers ≡ before ++ p ∷ after
      → NotifiesProducer m
          (record m { producers = before ++ after; awake_producers = p ∷ m.awake_producers })

-- The part of `Pop` behind its wait, with the item that it returns.
pub data Pops {T : Type 0} : Monitor T → Option T → Monitor T → Type 0 where
  pops_nothing : {m : Monitor T} → m.queue.closed ≡ true → Pops m none m
  pops_front :
      {m n : Monitor T} (x : T) (deq : List T)
      → m.queue.closed ≡ false
      → m.queue.deq ≡ x ∷ deq
      → NotifiesProducer (record m { queue = record m.queue { deq = deq } }) n
      → Pops m (some x) n

-- One critical section of some thread, or a wake-up for no reason.
pub data Step {T : Type 0} : Monitor T → Monitor T → Type 0 where
  pushes : {m : Monitor T} (p : Push T) → Step m (push p m)
  pushes_again :
      {m : Monitor T} (before after : List (Push T)) (p : Push T)
      → m.awake_producers ≡ before ++ p ∷ after
      → Step m (push p (record m { awake_producers = before ++ after }))
  pops : {m n : Monitor T} {o : Option T} → Pops m o n → Step m n
  pops_again :
      {m n : Monitor T} {o : Option T} (k : ℕ)
      → m.awake_consumers ≡ suc k
      → Pops (record m { awake_consumers = k }) o n
      → Step m n
  awaits : {m : Monitor T} → m.queue.closed ≡ false → m.queue.deq ≡ [] → Step m (await m)
  awaits_again :
      {m : Monitor T} (k : ℕ)
      → m.awake_consumers ≡ suc k
      → m.queue.closed ≡ false
      → m.queue.deq ≡ []
      → Step m (await (record m { awake_consumers = k }))
  times_out :
      {m : Monitor T} (k : ℕ)
      → m.consumers ≡ suc k
      → m.queue.closed ≡ false
      → m.queue.deq ≡ []
      → Step m (record m { consumers = k })
  times_out_awake :
      {m : Monitor T} (k : ℕ)
      → m.awake_consumers ≡ suc k
      → m.queue.closed ≡ false
      → m.queue.deq ≡ []
      → Step m (record m { awake_consumers = k })
  consumer_wakes :
      {m : Monitor T} (k : ℕ)
      → m.consumers ≡ suc k
      → Step m (record m { consumers = k; awake_consumers = suc m.awake_consumers })
  producer_wakes :
      {m : Monitor T} (before after : List (Push T)) (p : Push T)
      → m.producers ≡ before ++ p ∷ after
      → Step m (record m { producers = before ++ after; awake_producers = p ∷ m.awake_producers })
  flushes : {m : Monitor T} → Step m (flush m)
  closes : {m : Monitor T} → Step m (close m)
  clears : {m : Monitor T} → Step m (clear m)
