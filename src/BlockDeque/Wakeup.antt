-- ===== src/BlockDeque/Wakeup.antt =====
-- The capacity of the blocking queue, and the wake-ups of its threads.
use echo_web_server.Prelude.{
  ℕ, zero, suc, ◌≤◌, ◌<◌, ◌≡◌, refl, sym, ap, ◌∙◌, true, List, [], ◌∷◌, Option, inl, inr, arith,
  ltb, Bool-cases, length, length-append,
}
use echo_web_server.BlockDeque.{
  Push, push_back, push_front, Monitor, inserted, flush, push, await, clear, close, clear_no_lock,
  NotifiesProducer, nobody, wakes, Pops, pops_nothing, pops_front, Step, pushes, pushes_again, pops,
  pops_again, awaits, awaits_again, times_out, times_out_awake, consumer_wakes, producer_wakes,
  flushes, closes, clears,
}

-- No more items than the capacity; while a consumer is asleep, for each item one is awake; and none is
-- asleep behind a closing.
pub record IsServed {T : Type 0} (m : Monitor T) : Type 0 where
  pub bounded : length m.queue.deq ≤ m.queue.capacity
  pub fed : 0 < m.consumers → length m.queue.deq ≤ m.awake_consumers
  pub released : m.queue.closed ≡ true → m.consumers ≡ 0

module _ {T : Type 0} where
  length-inserted : (p : Push T) (deq : List T) → length (inserted p deq) ≡ suc (length deq)
  length-inserted (push_back x) deq = omega (arith, length-append deq (x ∷ []))
  length-inserted (push_front x) deq = refl

  flush-IsServed :
      (m : Monitor T)
      → length m.queue.deq ≤ m.queue.capacity
      → (0 < m.consumers → length m.queue.deq ≤ suc m.awake_consumers)
      → (m.queue.closed ≡ true → m.consumers ≡ 0)
      → IsServed (flush m)
  unfolding flush
  flush-IsServed m b f r = helper m.consumers refl
    where
      helper :
          (k : ℕ)
          → m.consumers ≡ k
          → IsServed (elim k [
            | zero ↦ m
            | suc n ↦ record m { consumers = n; awake_consumers = suc m.awake_consumers }
          ])
      helper zero e = record { bounded = b; fed = λ h. absurd (omega (arith, e)); released = r }
      helper (suc n) e = record {
        bounded = b;
        fed = λ h. f (omega (arith, e));
        released = λ c. absurd (omega (arith, e, r c));
      }

  push-IsServed : (p : Push T) (m : Monitor T) → IsServed m → IsServed (push p m)
  unfolding push
  push-IsServed p m s = elim (Bool-cases (ltb (length m.queue.deq) m.queue.capacity)) [
    | inl e ↦
        let longer = length-inserted p m.queue.deq in
        rw e (
          flush-IsServed _ (ground (arith, longer)) (λ h. omega (arith, longer, s.fed h))
            s.released)
    | inr e ↦ rw e (record { bounded = s.bounded; fed = s.fed; released = s.released })
  ]

  notified-IsServed : {m n : Monitor T} → NotifiesProducer m n → IsServed m → IsServed n
  notified-IsServed (nobody e) s = s
  notified-IsServed (wakes before after p e) s = record {
    bounded = s.bounded;
    fed = s.fed;
    released = s.released;
  }

  -- One item fewer, and at most one awake consumer fewer.
  Pops-IsServed :
      {m n : Monitor T} {o : Option T}
      → Pops m o n
      → length m.queue.deq ≤ m.queue.capacity
      → (0 < m.consumers → length m.queue.deq ≤ suc m.awake_consumers)
      → (m.queue.closed ≡ true → m.consumers ≡ 0)
      → IsServed n
  Pops-IsServed (pops_nothing e) b f c = record {
    bounded = b;
    fed = λ h. absurd (omega (arith, c e));
    released = c;
  }
  Pops-IsServed (pops_front x deq o e k) b f c =
      let shorter = ap length e in
      notified-IsServed k (record {
        bounded = omega (arith, b, shorter);
        fed = λ h. omega (arith, f h, shorter);
        released = c;
      })

  -- Every step of the threads, spurious wake-ups, time-outs, clearing and closing included, keeps the
  -- queue within its capacity and loses no wake-up of a consumer: while one is asleep, there are at
  -- least as many awake as there are items, and none stays asleep when the queue is closed.
  pub Step-IsServed : {m n : Monitor T} → Step m n → IsServed m → IsServed n
  unfolding await close clear clear_no_lock
  Step-IsServed (pushes p) s = push-IsServed p _ s
  Step-IsServed (pushes_again before after p e) s =
      push-IsServed p _ (record { bounded = s.bounded; fed = s.fed; released = s.released })
  Step-IsServed (pops k) s = Pops-IsServed k s.bounded (λ h. omega (arith, s.fed h)) s.released
  Step-IsServed (pops_again j e k) s =
      Pops-IsServed k s.bounded (λ h. omega (arith, e, s.fed h)) s.released
  Step-IsServed (awaits o e) s = record {
    bounded = s.bounded;
    fed = λ h. omega (arith, ap length e);
    released = λ c. cc (sym o ∙ c);
  }
  Step-IsServed (awaits_again k a o e) s = record {
    bounded = s.bounded;
    fed = λ h. omega (arith, ap length e);
    released = λ c. cc (sym o ∙ c);
  }
  Step-IsServed (times_out k a o e) s = record {
    bounded = s.bounded;
    fed = λ h. omega (arith, ap length e);
    released = λ c. cc (sym o ∙ c);
  }
  Step-IsServed (times_out_awake k a o e) s = record {
    bounded = s.bounded;
    fed = λ h. omega (arith, ap length e);
    released = s.released;
  }
  Step-IsServed (consumer_wakes k e) s = record {
    bounded = s.bounded;
    fed = λ h. omega (arith, e, s.fed (omega (arith, e)));
    released = λ c. omega (arith, e, s.released c);
  }
  Step-IsServed (producer_wakes before after p e) s = record {
    bounded = s.bounded;
    fed = s.fed;
    released = s.released;
  }
  Step-IsServed flushes s = flush-IsServed _ s.bounded (λ h. omega (arith, s.fed h)) s.released
  Step-IsServed closes s = record {
    bounded = omega arith;
    fed = λ h. absurd (omega arith);
    released = λ c. refl;
  }
  Step-IsServed clears s = record {
    bounded = omega arith;
    fed = λ h. omega arith;
    released = s.released;
  }
