-- ===== src/BlockDeque/Clearing.antt =====
-- `Clear` of the blocking queue and the producers that wait for space.
use echo_web_server.Prelude.{
  ℕ, zero, suc, ◌<◌, ◌≡◌, ◌≢◌, refl, sym, ◌∙◌, false, List, [], ◌∷◌, ◌++◌, Option, length,
}
use echo_web_server.BlockDeque.{
  Push, Monitor, flush, await, clear, clear_no_lock, Pops, pops_nothing, pops_front, Step, pushes,
  pushes_again, pops, pops_again, awaits, awaits_again, times_out, times_out_awake, consumer_wakes,
  producer_wakes, flushes, closes, clears,
}

-- The queue is open and has space, a producer is asleep for want of it, and no producer is awake.
pub record IsStranded {T : Type 0} (m : Monitor T) : Type 0 where
  pub asleep : 0 < length m.producers
  pub nobody_awake : m.awake_producers ≡ []
  pub emptied : m.queue.deq ≡ []
  pub has_space : 0 < m.queue.capacity
  pub opened : m.queue.closed ≡ false

-- The step is no new push, no closing, and no wake-up of a producer for no reason. Whether it wakes a
-- producer is left to what it does.
abbrev pub IsUnaided : {T : Type 0} {m n : Monitor T} → Step m n → Type 0
IsUnaided (pushes p) = ⊥
IsUnaided (pushes_again before after p e) = Unit {0}
IsUnaided (pops k) = Unit {0}
IsUnaided (pops_again j e k) = Unit {0}
IsUnaided (awaits o e) = Unit {0}
IsUnaided (awaits_again k a o e) = Unit {0}
IsUnaided (times_out k a o e) = Unit {0}
IsUnaided (times_out_awake k a o e) = Unit {0}
IsUnaided (consumer_wakes k e) = Unit {0}
IsUnaided (producer_wakes before after p e) = ⊥
IsUnaided flushes = Unit {0}
IsUnaided closes = ⊥
IsUnaided clears = Unit {0}

-- A run of such steps.
pub data Quiet {T : Type 0} : Monitor T → Monitor T → Type 0 where
  rests : {m : Monitor T} → Quiet m m
  goes_on : {m n k : Monitor T} (t : Step m n) → IsUnaided t → Quiet n k → Quiet m k

module _ {T : Type 0} where
  not_nil : (before after : List (Push T)) (p : Push T) → [] ≢ before ++ p ∷ after
  not_nil [] after p e = cc
  not_nil (q ∷ before) after p e = cc

  no_Pops :
      {m n : Monitor T} {o : Option T} → m.queue.deq ≡ [] → m.queue.closed ≡ false → Pops m o n → ⊥
  no_Pops e c (pops_nothing d) = cc (sym c ∙ d)
  no_Pops e c (pops_front x deq d f k) = cc (sym e ∙ f)

  kept :
      {m : Monitor T} {i j : ℕ}
      → IsStranded m
      → IsStranded (record m { consumers = i; awake_consumers = j })
  kept s = record {
    asleep = s.asleep;
    nobody_awake = s.nobody_awake;
    emptied = s.emptied;
    has_space = s.has_space;
    opened = s.opened;
  }

  flush-IsStranded : (m : Monitor T) → IsStranded m → IsStranded (flush m)
  unfolding flush
  flush-IsStranded m s = by_sleepers m.consumers
    where
      by_sleepers :
          (k : ℕ)
          → IsStranded (elim k [
            | zero ↦ m
            | suc n ↦ record m { consumers = n; awake_consumers = suc m.awake_consumers }
          ])
      by_sleepers zero = s
      by_sleepers (suc n) = kept s

  Step-IsStranded : {m n : Monitor T} (t : Step m n) → IsUnaided t → IsStranded m → IsStranded n
  unfolding await clear clear_no_lock
  Step-IsStranded (pushes p) u s = absurd u
  Step-IsStranded (pushes_again before after p e) u s =
      absurd (not_nil before after p (sym s.nobody_awake ∙ e))
  Step-IsStranded (pops k) u s = absurd (no_Pops s.emptied s.opened k)
  Step-IsStranded (pops_again j e k) u s = absurd (no_Pops s.emptied s.opened k)
  Step-IsStranded (awaits o e) u s = kept s
  Step-IsStranded (awaits_again k a o e) u s = kept s
  Step-IsStranded (times_out k a o e) u s = kept s
  Step-IsStranded (times_out_awake k a o e) u s = kept s
  Step-IsStranded (consumer_wakes k e) u s = kept s
  Step-IsStranded (producer_wakes before after p e) u s = absurd u
  Step-IsStranded (flushes {m}) u s = flush-IsStranded m s
  Step-IsStranded closes u s = absurd u
  Step-IsStranded clears u s = record {
    asleep = s.asleep;
    nobody_awake = s.nobody_awake;
    emptied = refl;
    has_space = s.has_space;
    opened = s.opened;
  }

  Quiet-IsStranded : {m n : Monitor T} → Quiet m n → IsStranded m → IsStranded n
  Quiet-IsStranded rests s = s
  Quiet-IsStranded (goes_on t u k) s = Quiet-IsStranded k (Step-IsStranded t u s)

  -- `Clear` makes space and notifies no producer: where producers are asleep for want of space, and
  -- none is awake, every run of the threads behind it, in which consumers pop, wait, wake and time out and
  -- others flush and clear, leaves the queue empty and the producers asleep, as long as nobody calls
  -- `PushBack`, `PushFront` or `Close` and no producer wakes up for no reason.
  pub clear-strands :
      (m : Monitor T) {n : Monitor T}
      → 0 < length m.producers
      → m.awake_producers ≡ []
      → 0 < m.queue.capacity
      → m.queue.closed ≡ false
      → Quiet (clear m) n
      → IsStranded n
  unfolding clear clear_no_lock
  clear-strands m a b c d k =
      Quiet-IsStranded k
        (record { asleep = a; nobody_awake = b; emptied = refl; has_space = c; opened = d })
