-- ===== src/HeapTimer/Expiry.antt =====
-- What `Tick` removes from the timer.
use echo_web_server.Prelude.{
  ℕ, zero, suc, ◌+◌, ◌-◌, ◌≤◌, ◌<◌, ◌≡◌, ◌≢◌, refl, ◌∙◌, false, inl, inr, ◌⊎◌, none, some, Option,
  arith, length, set, get!, leb, ◌==◌, leb→le, ==_iff, Bool-cases, Option-cases, if◌then◌else◌,
}
use echo_web_server.Run.{Yields, yields, Yields-bind, Yields-weaken, Yields-value}
use echo_web_server.HeapTimer.{Node, node_inhabited, HeapTimer, parent_of, size, empty, pop}
use echo_web_server.HeapTimer.Index.{key_at, expiration_at, find, find-key_at, read-ok}
use echo_web_server.HeapTimer.Order.{IsValid}
use echo_web_server.HeapTimer.Insert.{
  length-replaced, get!-replaced, replaced-IsIndexed, find-replaced,
}
use echo_web_server.HeapTimer.Remove.{pop-Takes, find_least}
use echo_web_server.HeapTimer.Tick.{Clocked, Callbacks, expire, tick_loop, tick}

abbrev pub IsCallable : HeapTimer → Type 0
IsCallable t = (j : ℕ) (node : Node) → find j t ≡ some node → node.callback ≢ 0

-- What the server's callbacks keep: the timer stays valid and gains no node, and a client sees no
-- change under another key than that of the callback's node, which has gone and stays so.
pub record IsTame (W : Type 0) (call : Callbacks W) : Type 0 where
  pub valid : (c k : ℕ) (w : W) (t : HeapTimer) → IsValid t → IsValid (call c k (w, t)).1
  pub no_growth :
      (c k : ℕ) (w : W) (t : HeapTimer)
      → IsValid t
      → length (call c k (w, t)).1.nodes ≤ length t.nodes
  pub others :
      (c k : ℕ) (w : W) (t : HeapTimer) (j : ℕ)
      → IsValid t
      → find k t ≡ none
      → find j (call c k (w, t)).1 ≡ find j t

-- The readings do not run backwards.
abbrev pub IsMonotone : (ℕ → ℕ) → Type 0
IsMonotone now = (i j : ℕ) → i ≤ j → now i ≤ now j

-- A node of the earlier state is still there and expires after the reading `at`, or it has gone and
-- has expired by then.
abbrev pub KeptOrExpired : ℕ → Option Node → Node → Type 0
KeptOrExpired reading o node =
    ((o ≡ some node) × (reading < node.expiration)) ⊎ ((o ≡ none) × (node.expiration ≤ reading))

-- The top with its callback moved out, as `Tick` pops it.
module _ {t : HeapTimer} (v : IsValid t) (h : 0 < length t.nodes) where
  abbrev pub emptied : Node
  emptied = record (get! t.nodes 0) { callback = 0 }

  abbrev pub moved : HeapTimer
  moved = record t { nodes = set t.nodes 0 emptied }

  moved-IsValid : IsValid moved
  moved-IsValid =
      let len = length-replaced 0 t emptied h refl in
      let at = get!-replaced 0 t emptied h refl in
      record {
        heap = λ c p q. ground (arith, len, at c, at (parent_of c), v.heap c);
        indexed = replaced-IsIndexed 0 t emptied h refl v.indexed;
        sized = omega (arith, len, v.sized);
      }

  pub pop-moved :
      Yields
        (λ r.
          IsValid r.1
          × (length r.1.nodes < length t.nodes)
          × ((j : ℕ) → find j r.1 ≡ (if key_at t 0 == j then none else find j t)))
        (pop moved)
  pop-moved =
      let len = length-replaced 0 t emptied h refl in
      let same_key : key_at moved 0 ≡ key_at t 0 =
        ground (arith, get!-replaced 0 t emptied h refl 0) in
      Yields-weaken (pop-Takes moved-IsValid (omega (arith, len))) λ r p. (
        p.1.valid,
        omega (arith, len, p.1.smaller),
        λ j. ground (arith, same_key, p.1.same j, find-replaced 0 t emptied h refl j v.indexed),
      )

module _ {W : Type 0} (call : Callbacks W) (now : ℕ → ℕ) where
  -- From `s` to `r` exactly the nodes have gone that the last reading of the clock finds expired.
  pub record Swept (s r : Clocked W) : Type 0 where
    pub valid : IsValid r.timer
    pub no_earlier : s.readings ≤ r.readings
    pub looked : 0 < length r.timer.nodes → s.readings < r.readings
    pub no_new : (j : ℕ) → find j s.timer ≡ none → find j r.timer ≡ none
    pub each :
        (j : ℕ) (node : Node)
        → find j s.timer ≡ some node
        → KeptOrExpired (now (r.readings - 1)) (find j r.timer) node

  -- One round that expires the top.
  pub record Expired (s r : Clocked W) : Type 0 where
    pub valid : IsValid r.timer
    pub fewer : length r.timer.nodes < length s.timer.nodes
    pub same : (j : ℕ) → find j r.timer ≡ (if key_at s.timer 0 == j then none else find j s.timer)
    pub read_once : r.readings ≡ suc s.readings

  pub expire-Expired :
      (s : Clocked W)
      → IsTame W call
      → IsValid s.timer
      → IsCallable s.timer
      → 0 < length s.timer.nodes
      → Yields (Expired s) (expire call now (get! s.timer.nodes 0) s)
  unfolding expire
  expire-Expired s tame v callable h =
      let present = find-key_at s.timer 0 v.indexed h in
      let filled : ((get! s.timer.nodes 0).callback == 0) ≡ false =
        ground (arith, callable (key_at s.timer 0) (get! s.timer.nodes 0) present) in
      let (r, e, popped) = Yields-value (pop-moved v h) in
      let c = (get! s.timer.nodes 0).callback in
      let k = key_at s.timer 0 in
      let gone : find k r.1 ≡ none = ground (arith, popped.2 k) in
      rw e (
        rw filled (
          yields (record {
            valid = tame.valid c k s.world r.1 popped.0;
            fewer = omega (arith, popped.1, tame.no_growth c k s.world r.1 popped.0);
            same = λ j. tame.others c k s.world r.1 j popped.0 gone ∙ popped.2 j;
            read_once = refl;
          })))

  stop-Swept :
      (s : Clocked W)
      → IsValid s.timer
      → now s.readings < expiration_at s.timer 0
      → Swept s (record s { readings = suc s.readings })
  stop-Swept s v later = record {
    valid = v;
    no_earlier = omega arith;
    looked = λ h. omega arith;
    no_new = λ j e. e;
    each = λ j node e.
        let last : suc s.readings - 1 ≡ s.readings = omega arith in
        inl (e, rw last (omega (arith, later, find_least v j node e)));
  }

  empty-Swept : (s : Clocked W) → IsValid s.timer → length s.timer.nodes ≡ 0 → Swept s s
  unfolding find
  empty-Swept s v none_left = record {
    valid = v;
    no_earlier = omega arith;
    looked = λ h. absurd (omega (arith, none_left));
    no_new = λ j e. e;
    each = λ j node e. elim (Option-cases (s.timer.key_to_idx j)) [
      | inl n ↦ absurd (ground arith)
      | inr (c, n) ↦ absurd (omega (arith, (v.indexed.found j c n).0))
    ];
  }

  again-Swept :
      (s : Clocked W) {m r : Clocked W}
      → IsMonotone now
      → IsValid s.timer
      → 0 < length s.timer.nodes
      → expiration_at s.timer 0 ≤ now s.readings
      → Expired s m
      → Swept m r
      → Swept s r
  again-Swept s {m} {r} mono v h due x w = record {
    valid = w.valid;
    no_earlier = omega (arith, w.no_earlier, x.read_once);
    looked = λ g. omega (arith, w.looked g, x.read_once);
    no_new = λ j e. w.no_new j (ground (arith, x.same j));
    each = λ j node e.
        let top = find-key_at s.timer 0 v.indexed h in
        let later = mono s.readings (r.readings - 1) (omega (arith, w.no_earlier, x.read_once)) in
        elim (Bool-cases (key_at s.timer 0 == j)) [
          | inl same ↦
              let this : key_at s.timer 0 ≡ j = (==_iff _ _).0 same in
              let is_top : node ≡ get! s.timer.nodes 0 = ground (arith, rw this at top) in
              inr (w.no_new j (ground (arith, x.same j)), rw is_top (omega (arith, due, later)))
          | inr other ↦ w.each j node (ground (arith, x.same j))
        ];
  }

  pub IsCallable-after : {s r : Clocked W} → Expired s r → IsCallable s.timer → IsCallable r.timer
  IsCallable-after {s} x callable j node e = callable j node (ground (arith, x.same j))

  tick_loop-Swept :
      (fuel : ℕ) (s : Clocked W)
      → IsTame W call
      → IsMonotone now
      → length s.timer.nodes < fuel
      → IsValid s.timer
      → IsCallable s.timer
      → Yields (Swept s) (tick_loop call now fuel s)
  unfolding tick_loop
  tick_loop-Swept zero s tame mono f v callable = absurd (omega arith)
  tick_loop-Swept (suc fuel) s tame mono f v callable =
      elim (Bool-cases (length s.timer.nodes == 0)) [
        | inl none_left ↦
            rw (none_left, empty) (yields (empty-Swept s v ((==_iff _ _).0 none_left)))
        | inr some_left ↦
            let h : 0 < length s.timer.nodes = ground arith in
            rw (some_left, empty)
              (rw (read-ok 0 s.timer h)
                (elim (Bool-cases (leb (expiration_at s.timer 0) (now s.readings))) [
                  | inl due ↦ rw due (
                      Yields-bind (expire-Expired s tame v callable h) λ m x.
                        Yields-weaken
                          (tick_loop-Swept fuel m tame mono (omega (arith, x.fewer)) x.valid
                            (IsCallable-after x callable))
                          λ r w. again-Swept s mono v h (leb→le _ _ due) x w)
                  | inr later ↦ rw later (yields (stop-Swept s v (ground arith)))
                ]))
      ]

  -- `Tick`, on a valid timer of callable nodes, with callbacks that keep the timer valid, add no node
  -- and touch no other key, and a clock that does not run backwards, ends after at most one round more
  -- than there are nodes: it removes exactly the nodes that the last reading of the clock finds
  -- expired, keeps the others as they were, and leaves a valid timer.
  pub tick-Swept :
      (s : Clocked W)
      → IsTame W call
      → IsMonotone now
      → IsValid s.timer
      → IsCallable s.timer
      → Yields (Swept s) (tick call now s)
  unfolding tick size
  tick-Swept s tame mono v callable =
      tick_loop-Swept (length s.timer.nodes + 1) s tame mono (omega arith) v callable
