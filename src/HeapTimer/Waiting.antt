-- ===== src/HeapTimer/Waiting.antt =====
-- How long `ToNextTick` lets the server wait.
use echo_web_server.Prelude.{
  ℕ, suc, ◌-◌, ◌≤◌, ◌<◌, ◌≡◌, refl, inl, inr, none, some, arith, length, ◌==◌, ==_iff, Bool-cases,
}
use echo_web_server.Run.{Yields, yields, Yields-bind}
use echo_web_server.HeapTimer.{Node, empty}
use echo_web_server.HeapTimer.Index.{expiration_at, find, read-ok}
use echo_web_server.HeapTimer.Order.{IsValid}
use echo_web_server.HeapTimer.Remove.{find_least}
use echo_web_server.HeapTimer.Tick.{Clocked, Callbacks, to_next_tick}
use echo_web_server.HeapTimer.Expiry.{IsCallable, IsTame, IsMonotone, Swept, tick-Swept}

module _ {W : Type 0} (call : Callbacks W) (now : ℕ → ℕ) where
  -- An interval for which the server may wait: no node that is left expires sooner, the top expires
  -- right after it unless it has by then, and it is zero where no node is left.
  pub record IsNextTick (s : Clocked W) (d : ℕ) (r : Clocked W) : Type 0 where
    pub valid : IsValid r.timer
    pub no_new : (j : ℕ) → find j s.timer ≡ none → find j r.timer ≡ none
    pub safe :
        (j : ℕ) (node : Node)
        → find j r.timer ≡ some node
        → d ≤ node.expiration - now (r.readings - 1)
    pub exact : 0 < length r.timer.nodes → d ≡ expiration_at r.timer 0 - now (r.readings - 1)
    pub idle : length r.timer.nodes ≡ 0 → d ≡ 0

  idle-IsNextTick :
      {s m : Clocked W} → Swept call now s m → length m.timer.nodes ≡ 0 → IsNextTick s 0 m
  idle-IsNextTick w none_left = record {
    valid = w.valid;
    no_new = w.no_new;
    safe = λ j node e. omega arith;
    exact = λ h. absurd (omega arith);
    idle = λ h. refl;
  }

  waiting-IsNextTick :
      {s m : Clocked W} (d : ℕ)
      → Swept call now s m
      → 0 < length m.timer.nodes
      → d ≡ expiration_at m.timer 0 - now m.readings
      → IsNextTick s d (record m { readings = suc m.readings })
  waiting-IsNextTick {s} {m} d w h e =
      let last : suc m.readings - 1 ≡ m.readings = omega arith in
      record {
        valid = w.valid;
        no_new = w.no_new;
        safe = λ j node f. rw last (omega (arith, e, find_least w.valid j node f));
        exact = λ g. rw last e;
        idle = λ z. absurd (omega arith);
      }

  -- `ToNextTick`, where `Tick` does its work, returns the time from its own reading of the clock to the
  -- expiration of the top, or zero where that is past or no node is left: no node that is left expires
  -- sooner than after that time.
  pub to_next_tick-IsNextTick :
      (s : Clocked W)
      → IsTame W call
      → IsMonotone now
      → IsValid s.timer
      → IsCallable s.timer
      → Yields (λ r. IsNextTick s r.0 r.1) (to_next_tick call now s)
  unfolding to_next_tick empty
  to_next_tick-IsNextTick s tame mono v callable =
      Yields-bind (tick-Swept call now s tame mono v callable) λ m w.
        elim (Bool-cases (length m.timer.nodes == 0)) [
          | inl none_left ↦ rw none_left (yields (idle-IsNextTick w ((==_iff _ _).0 none_left)))
          | inr some_left ↦
              let h : 0 < length m.timer.nodes = ground arith in
              rw some_left
                (rw (read-ok 0 m.timer h) (yields (waiting-IsNextTick _ w h (ground arith))))
        ]
