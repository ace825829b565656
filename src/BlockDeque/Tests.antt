-- ===== src/BlockDeque/Tests.antt =====
-- Tests of the blocking queue, and its theorems at concrete monitors.
use echo_web_server.Prelude.{ℕ, ◌≡◌, refl, true, false, [], ◌∷◌, arith}
use echo_web_server.Run.{ok, fault}
use echo_web_server.BlockDeque.{
  push_back, push_front, Monitor, of_capacity, empty, full, front, push, await, clear, close,
  clear_no_lock, pushes, awaits,
}
use echo_web_server.BlockDeque.Wakeup.{IsServed, Step-IsServed}
use echo_web_server.BlockDeque.Clearing.{IsStranded, Quiet, rests, goes_on, clear-strands}

-- One item of one, a producer asleep.
abbrev crowded : Monitor ℕ
crowded = record {
  queue = record { closed = false; capacity = 1; deq = 5 ∷ [] };
  producers = push_back 6 ∷ [];
  awake_producers = [];
  consumers = 0;
  awake_consumers = 0;
}

test_of_capacity : of_capacity {T = ℕ} 0 ≡ fault
unfolding of_capacity
test_of_capacity = refl

test_queue :
    (full crowded.queue ≡ ok true) × (front crowded.queue ≡ ok 5) × (empty crowded.queue ≡ false)
unfolding full front empty
test_queue = (refl, refl, refl)

test_push_waits :
    push (push_front 7) crowded ≡ record crowded { producers = push_front 7 ∷ push_back 6 ∷ [] }
unfolding push
test_push_waits = refl

test_push_notifies :
    push (push_front 7) (record crowded {
      queue = record { closed = false; capacity = 2; deq = 5 ∷ [] };
      consumers = 1;
    })
    ≡ record crowded {
      queue = record { closed = false; capacity = 2; deq = 7 ∷ 5 ∷ [] };
      awake_consumers = 1;
    }
unfolding push
test_push_notifies = refl

test_close : (close crowded).awake_producers ≡ push_back 6 ∷ []
unfolding close
test_close = refl

crowded-IsServed : IsServed crowded
crowded-IsServed = record {
  bounded = omega arith;
  fed = λ h. absurd (omega arith);
  released = λ c. refl;
}

Step-IsServed_example : IsServed (push (push_back 7) crowded)
Step-IsServed_example = Step-IsServed (pushes (push_back 7)) crowded-IsServed

-- A consumer comes to the cleared queue, and waits.
waiting : Quiet (clear crowded) (await (clear crowded))
unfolding clear clear_no_lock
waiting = goes_on (awaits refl refl) tt rests

clear-strands_example : IsStranded (await (clear crowded))
clear-strands_example = clear-strands crowded (omega arith) refl (omega arith) refl waiting
