-- ===== src/HeapTimer/Up.antt =====
-- `ShiftUp` restores the order where only the edge above one node may be out of order, and brings a
-- node with the least time to the top.
use echo_web_server.Prelude.{
  ℕ, zero, suc, ◌+◌, ◌≤◌, ◌<◌, ◌≡◌, ◌≢◌, inl, inr, none, some, arith, length, leb, ◌==◌, leb→le,
  lt→ltb, Bool-cases, if◌then◌else◌,
}
use echo_web_server.Run.{ok, Yields, yields, Yields-weaken}
use echo_web_server.HeapTimer.{
  node_inhabited, HeapTimer, parent_of, valid_index, parent, swapped, shift_up_loop, shift_up,
}
use echo_web_server.HeapTimer.Index.{
  key_at, expiration_at, IsIndexed, read-ok, swap-ok, get!-swapped, length-swapped,
}
use echo_web_server.HeapTimer.Order.{IsBridged, Keeps-refl, Keeps-trans, swapped-Keeps, Sifted}

pub record UpInv (t : HeapTimer) (i : ℕ) : Type 0 where
  pub inside : i < length t.nodes
  pub edges :
      (c : ℕ)
      → 0 < c
      → c < length t.nodes
      → c ≢ i
      → expiration_at t (parent_of c) ≤ expiration_at t c
  pub bridged : IsBridged t i

-- Shifted up from `i`; a node at `i` with the least time is at the top.
pub record Risen (t : HeapTimer) (i : ℕ) (r : HeapTimer) : Type 0 where
  pub sifted : Sifted t r
  pub to_top : expiration_at t i ≡ 0 → key_at r 0 ≡ key_at t i

module _ (t : HeapTimer) (i : ℕ) (inside : i < length t.nodes) where
  pub parent-ok : parent i t ≡ ok (if i == 0 then none else some (parent_of i))
  unfolding parent valid_index
  parent-ok = rw (lt→ltb i (length t.nodes) inside)

  swapped-UpInv :
      UpInv t i
      → 0 < i
      → expiration_at t i ≤ expiration_at t (parent_of i)
      → UpInv (swapped (parent_of i) i t) (parent_of i)
  swapped-UpInv v pos below =
      let above : parent_of i < length t.nodes = omega arith in
      let len = length-swapped (parent_of i) i t above inside in
      let at = get!-swapped (parent_of i) i t above inside in
      record {
        inside = omega (arith, len);
        edges = λ c p q ne. ground (arith, len, at c, at (parent_of c), v.edges c, v.bridged c);
        bridged = λ c p q e z.
            ground
              (arith, len, at c, at (parent_of (parent_of i)), v.edges c, v.edges (parent_of i));
      }

  rise-Risen :
      {r : HeapTimer}
      → IsIndexed t
      → 0 < i
      → expiration_at t i ≤ expiration_at t (parent_of i)
      → Risen (swapped (parent_of i) i t) (parent_of i) r
      → Risen t i r
  rise-Risen x pos below done =
      let above : parent_of i < length t.nodes = omega arith in
      let ne : parent_of i ≢ i = omega arith in
      let at = get!-swapped (parent_of i) i t above inside (parent_of i) in
      record {
        sifted = record {
          heap = done.sifted.heap;
          kept = Keeps-trans (swapped-Keeps (parent_of i) i t above inside ne x) done.sifted.kept;
        };
        to_top = λ z. ground (arith, at, done.to_top);
      }

  stay-Risen :
      UpInv t i
      → IsIndexed t
      → ((0 < i) → expiration_at t (parent_of i) < expiration_at t i)
      → Risen t i t
  stay-Risen v x above = record {
    sifted = record { heap = λ c p q. ground (arith, v.edges c, above); kept = Keeps-refl x };
    to_top = λ z. ground (arith, above);
  }

shift_up_loop-Risen :
    (fuel : ℕ) (i : ℕ) (t : HeapTimer)
    → i < fuel
    → UpInv t i
    → IsIndexed t
    → Yields (Risen t i) (shift_up_loop fuel i t)
unfolding shift_up_loop
shift_up_loop-Risen zero i t f v x = absurd (omega arith)
shift_up_loop-Risen (suc fuel) i t f v x = elim (Bool-cases (i == 0)) [
  | inl top ↦
      rw (parent-ok t i v.inside)
        (rw top (yields (stay-Risen t i v.inside v x (λ pos. absurd (ground arith)))))
  | inr low ↦
      let pos : 0 < i = ground arith in
      let above : parent_of i < length t.nodes = omega (arith, v.inside) in
      let ne : parent_of i ≢ i = omega arith in
      rw (parent-ok t i v.inside) (
        rw
          (
            low,
            lt→ltb (parent_of i) i (omega arith),
            read-ok (parent_of i) t above,
            read-ok i t v.inside,
          )
          (elim (Bool-cases (leb (expiration_at t i) (expiration_at t (parent_of i)))) [
            | inl rises ↦
                let below = leb→le _ _ rises in
                rw (rises, swap-ok (parent_of i) i t above v.inside ne)
                  (Yields-weaken
                    (shift_up_loop-Risen fuel (parent_of i) (swapped (parent_of i) i t)
                      (omega arith) (swapped-UpInv t i v.inside v pos below)
                      (swapped-Keeps (parent_of i) i t above v.inside ne x).indexed)
                    λ r done. rise-Risen t i v.inside x pos below done)
            | inr stays ↦ rw stays (yields (stay-Risen t i v.inside v x (λ p. ground arith)))
          ]))
]

-- `ShiftUp(i)`, where at most the edge above `i` is out of order and the map is right, ends with the
-- heap order restored, the map right and every node kept; a node with the least time ends at the top.
pub shift_up-Risen :
    (i : ℕ) (t : HeapTimer) → UpInv t i → IsIndexed t → Yields (Risen t i) (shift_up i t)
unfolding shift_up valid_index
shift_up-Risen i t v x =
    rw (lt→ltb i (length t.nodes) v.inside) (shift_up_loop-Risen (i + 1) i t (omega arith) v x)
