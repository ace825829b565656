-- ===== src/HeapTimer/Keeping.antt =====
-- What the callbacks keep of the state around the timer, `Tick` keeps.
use echo_web_server.Prelude.{
  ℕ, zero, suc, ◌+◌, ◌≤◌, ◌<◌, ◌≡◌, refl, false, inl, inr, none, some, arith, length, get!, leb,
  ◌==◌, Bool-cases, if◌then◌else◌,
}
use echo_web_server.Run.{Yields, yields, Yields-bind, Yields-value, Yields-both}
use echo_web_server.HeapTimer.{Node, node_inhabited, HeapTimer, size, empty}
use echo_web_server.HeapTimer.Index.{key_at, find, find-key_at, read-ok}
use echo_web_server.HeapTimer.Order.{IsValid}
use echo_web_server.HeapTimer.Tick.{Clocked, Callbacks, expire, tick_loop, tick, to_next_tick}
use echo_web_server.HeapTimer.Expiry.{
  IsCallable, IsTame, IsMonotone, Swept, pop-moved, expire-Expired, IsCallable-after, tick-Swept,
}

module _ {W : Type 0} (call : Callbacks W) (now : ℕ → ℕ) (P : W → HeapTimer → Type 0) where
  -- A callback on a timer that its node has just left keeps `P`.
  abbrev pub Keeping : Type 0
  Keeping =
      (w : W) (t t' : HeapTimer) (node : Node)
      → P w t
      → IsValid t'
      → find node.key t ≡ some node
      → ((j : ℕ) → find j t' ≡ (if node.key == j then none else find j t))
      → P (call node.callback node.key (w, t')).0 (call node.callback node.key (w, t')).1

  expire-keeps :
      (s : Clocked W)
      → Keeping
      → IsValid s.timer
      → IsCallable s.timer
      → 0 < length s.timer.nodes
      → P s.world s.timer
      → Yields (λ r. P r.world r.timer) (expire call now (get! s.timer.nodes 0) s)
  unfolding expire
  expire-keeps s keep v callable h p =
      let present = find-key_at s.timer 0 v.indexed h in
      let filled : ((get! s.timer.nodes 0).callback == 0) ≡ false =
        ground (arith, callable (key_at s.timer 0) (get! s.timer.nodes 0) present) in
      let (r, e, popped) = Yields-value (pop-moved v h) in
      rw e (
        rw filled
          (yields (keep s.world s.timer r.1 (get! s.timer.nodes 0) p popped.0 present popped.2)))

  tick_loop-keeps :
      (fuel : ℕ) (s : Clocked W)
      → IsTame W call
      → Keeping
      → length s.timer.nodes < fuel
      → IsValid s.timer
      → IsCallable s.timer
      → P s.world s.timer
      → Yields (λ r. P r.world r.timer) (tick_loop call now fuel s)
  unfolding tick_loop
  tick_loop-keeps zero s tame keep f v callable p = absurd (omega arith)
  tick_loop-keeps (suc fuel) s tame keep f v callable p =
      elim (Bool-cases (length s.timer.nodes == 0)) [
        | inl none_left ↦ rw (none_left, empty) (yields p)
        | inr some_left ↦
            let h : 0 < length s.timer.nodes = ground arith in
            rw (some_left, empty)
              (rw (read-ok 0 s.timer h)
                (elim (Bool-cases (leb (get! s.timer.nodes 0).expiration (now s.readings))) [
                  | inl due ↦ rw due (
                      Yields-bind
                        (Yields-both (expire-Expired call now s tame v callable h)
                          (expire-keeps s keep v callable h p))
                        λ m x.
                          tick_loop-keeps fuel m tame keep (omega (arith, x.0.fewer)) x.0.valid
                            (IsCallable-after call now x.0 callable) x.1)
                  | inr later ↦ rw later (yields p)
                ]))
      ]

  -- What `ToNextTick` leaves, from `s`: `Tick` has swept the timer, and `P` holds.
  pub record Kept (s : Clocked W) (d : ℕ) (r : Clocked W) : Type 0 where
    pub swept_at : Clocked W
    pub swept : Swept call now s swept_at
    pub same_timer : r.timer ≡ swept_at.timer
    pub holds : P r.world r.timer
    pub later : swept_at.readings ≤ r.readings

  pub to_next_tick-Kept :
      (s : Clocked W)
      → IsTame W call
      → Keeping
      → IsMonotone now
      → IsValid s.timer
      → IsCallable s.timer
      → P s.world s.timer
      → Yields (λ r. Kept s r.0 r.1) (to_next_tick call now s)
  unfolding to_next_tick empty tick size
  to_next_tick-Kept s tame keep mono v callable p =
      Yields-bind
        (Yields-both (tick-Swept call now s tame mono v callable)
          (tick_loop-keeps (length s.timer.nodes + 1) s tame keep (omega arith) v callable p))
        λ m w. elim (Bool-cases (length m.timer.nodes == 0)) [
          | inl none_left ↦ rw none_left (
              yields (record {
                swept_at = m;
                swept = w.0;
                same_timer = refl;
                holds = w.1;
                later = omega arith;
              }))
          | inr some_left ↦
              let h : 0 < length m.timer.nodes = ground arith in
              rw some_left (
                rw (read-ok 0 m.timer h) (
                  yields (record {
                    swept_at = m;
                    swept = w.0;
                    same_timer = refl;
                    holds = w.1;
                    later = omega arith;
                  })))
        ]
