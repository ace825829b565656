-- ===== src/HeapTimer/Tests.antt =====
-- Tests of the timer, and its theorems at concrete timers.
use echo_web_server.Prelude.{
  ℕ, zero, suc, ◌+◌, ◌≤◌, ◌<◌, ◌≡◌, ◌≢◌, refl, Bool, List, [], ◌∷◌, none, some, inl, inr,
  Option-cases, arith, length, get!, swap_elems, add_size,
}
use echo_web_server.Run.{Run, ok, throw, fault, out_of_fuel, Yields, Yields-value}
use echo_web_server.HeapTimer.{
  Node, node_inhabited, Index, HeapTimer, store, adjust, push, remove, pop,
}
use echo_web_server.HeapTimer.Index.{key_at, expiration_at, IsIndexed, find}
use echo_web_server.HeapTimer.Order.{IsHeap, IsValid}
use echo_web_server.HeapTimer.Insert.{Puts, push-Puts}
use echo_web_server.HeapTimer.Remove.{Takes, remove_behaviour, pop_behaviour}
use echo_web_server.HeapTimer.Tick.{Clocked, Callbacks, tick, to_next_tick, invoke}
use echo_web_server.HeapTimer.Expiry.{IsCallable, IsTame, IsMonotone, Swept, tick-Swept}
use echo_web_server.HeapTimer.Waiting.{IsNextTick, to_next_tick-IsNextTick}
use echo_web_server.HeapTimer.Reentry.{invoke-removes_another}

abbrev four_and_seven : Index
four_and_seven = store 7 1 (store 4 0 (λ _. none))

-- Keys 4 and 7; the first expires at `a`, the second at `b`.
abbrev two_nodes : ℕ → ℕ → HeapTimer
two_nodes a b = record {
  key_to_idx = four_and_seven;
  nodes =
      record { key = 4; expiration = a; callback = 1 }
      ∷ record { key = 7; expiration = b; callback = 2 }
      ∷ [];
}

two_nodes-IsIndexed : (a b : ℕ) → IsIndexed (two_nodes a b)
unfolding get!
two_nodes-IsIndexed a b = record { known = known; found = found }
  where
    known : (i : ℕ) → i < 2 → four_and_seven (key_at (two_nodes a b) i) ≡ some i
    known zero h = refl
    known (suc zero) h = refl
    known (suc (suc i)) h = absurd (omega arith)

    found : (k i : ℕ) → four_and_seven k ≡ some i → (i < 2) × (key_at (two_nodes a b) i ≡ k)
    found k zero e = ground arith
    found k (suc zero) e = ground arith
    found k (suc (suc i)) e = absurd (ground arith)

two_nodes-IsHeap : (a b : ℕ) → a ≤ b → IsHeap (two_nodes a b)
unfolding get!
two_nodes-IsHeap a b h zero p q = absurd (omega arith)
two_nodes-IsHeap a b h (suc zero) p q = h
two_nodes-IsHeap a b h (suc (suc c)) p q = absurd (omega arith)

abbrev timer : HeapTimer
timer = two_nodes 10 20

timer-IsValid : IsValid timer
timer-IsValid = record {
  heap = two_nodes-IsHeap 10 20 (omega arith);
  indexed = two_nodes-IsIndexed 10 20;
  sized = omega arith;
}

-- The keys and times of the nodes, and of those that a run leaves.
abbrev summary : List Node → List (ℕ × ℕ)
summary [] = []
summary (n ∷ ns) = (n.key, n.expiration) ∷ summary ns

abbrev left_by : Run HeapTimer → List (ℕ × ℕ)
left_by (ok t) = summary t.nodes
left_by (throw _) = []
left_by fault = []
left_by out_of_fuel = []

test_push : left_by (push 9 5 3 timer) ≡ (9, 5) ∷ (7, 20) ∷ (4, 10) ∷ []
unfolding push swap_elems get! add_size
test_push = refl

test_push_again : left_by (push 4 30 3 timer) ≡ (7, 20) ∷ (4, 30) ∷ []
unfolding push swap_elems get! add_size
test_push_again = refl

test_adjust : left_by (adjust 7 5 timer) ≡ (7, 5) ∷ (4, 10) ∷ []
unfolding adjust swap_elems get! add_size
test_adjust = refl

abbrev second : {A : Type 0} → Run (A × HeapTimer) → Run HeapTimer
second (ok r) = ok r.1
second (throw e) = throw e
second fault = fault
second out_of_fuel = out_of_fuel

test_remove : left_by (second (remove 4 timer)) ≡ (7, 20) ∷ []
unfolding remove swap_elems get! add_size
test_remove = refl

test_pop : left_by (second (pop timer)) ≡ (7, 20) ∷ []
unfolding pop swap_elems get! add_size
test_pop = refl

-- Callbacks that leave the timer alone, and callbacks that remove the key's node.
abbrev idle : Callbacks Unit
idle c k s = s

idle-IsTame : IsTame Unit idle
idle-IsTame = record {
  valid = λ c k w t v. v;
  no_growth = λ c k w t v. omega arith;
  others = λ c k w t j v e. refl;
}

abbrev or_timer : HeapTimer → Run (Bool × HeapTimer) → HeapTimer
or_timer t (ok r) = r.1
or_timer t (throw _) = t
or_timer t fault = t
or_timer t out_of_fuel = t

abbrev removing : Callbacks Unit
removing c k (w, t) = (w, or_timer t (remove k t))

abbrev clock : ℕ → ℕ
clock i = 10 + i

clock-IsMonotone : IsMonotone clock
clock-IsMonotone i j h = omega arith

abbrev start : Clocked Unit
start = record { world = tt; timer = timer; readings = 0 }

timer-IsCallable : IsCallable timer
unfolding find get!
timer-IsCallable j node e = elim (Option-cases (four_and_seven j)) [
  | inl n ↦ absurd (cc (rw n at e))
  | inr (i, n) ↦
      let here : node ≡ get! timer.nodes i = cc (rw n at e) in
      rw here (set_up i (timer-IsValid.indexed.found j i n).0)
]
  where
    set_up : (i : ℕ) → i < 2 → (get! timer.nodes i).callback ≢ 0
    set_up zero h = omega arith
    set_up (suc zero) h = omega arith
    set_up (suc (suc i)) h = absurd (omega arith)

pop_behaviour_example :
    (0 < length timer.nodes
      → Yields
          (λ r.
            Takes r.0 timer r.1
            × ((j : ℕ) (node : Node)
                → find j timer ≡ some node
                → expiration_at timer 0 ≤ node.expiration)
            × (find r.0 timer ≡ some (get! timer.nodes 0)))
          (pop timer))
    × (length timer.nodes ≡ 0 → pop timer ≡ fault)
pop_behaviour_example = pop_behaviour timer-IsValid

push-Puts_example :
    Yields (Puts (record { key = 9; expiration = 5; callback = 3 }) timer) (push 9 5 3 timer)
push-Puts_example = push-Puts 9 5 3 timer-IsValid (omega arith)

tick-Swept_example : Yields (Swept idle clock start) (tick idle clock start)
tick-Swept_example =
    tick-Swept idle clock start idle-IsTame clock-IsMonotone timer-IsValid timer-IsCallable

to_next_tick-IsNextTick_example :
    Yields (λ r. IsNextTick idle clock start r.0 r.1) (to_next_tick idle clock start)
to_next_tick-IsNextTick_example =
    to_next_tick-IsNextTick idle clock start idle-IsTame clock-IsMonotone timer-IsValid
      timer-IsCallable

abbrev after_removal : HeapTimer
after_removal = or_timer timer (remove 4 timer)

after_removal-Takes : IsValid after_removal × (find 4 after_removal ≡ none)
after_removal-Takes =
    let (r, e, p) = Yields-value (remove_behaviour 4 timer-IsValid) in rw e (p.1, p.2 4)

invoke-removes_another_example :
    (length after_removal.nodes ≤ 0 → invoke removing clock 4 start ≡ fault)
    × (0 < length after_removal.nodes
        → (key_at after_removal 0 ≢ 4)
          × (find (key_at after_removal 0) after_removal ≡ some (get! after_removal.nodes 0))
          × Yields
              (λ r. find (key_at after_removal 0) r.timer ≡ none)
              (invoke removing clock 4 start))
invoke-removes_another_example =
    invoke-removes_another removing clock 4 start timer-IsValid 0 refl (unfold get! in omega arith)
      after_removal-Takes.0 after_removal-Takes.1
