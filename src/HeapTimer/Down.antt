-- ===== src/HeapTimer/Down.antt =====
-- `ShiftDown` restores the order where only the edges below one node may be out of order.
use echo_web_server.Prelude.{
  ℕ, zero, suc, ◌+◌, ◌*◌, ◌%◌, ◌≤◌, ◌<◌, ◌≡◌, ◌≢◌, false, inl, inr, ◌⊎◌, none, some, Option, arith,
  length, ltb, ltb→lt, lt→ltb, Bool-cases, Option-cases, if◌then◌else◌, ◌&&◌, size_mod, add_size,
  add_size_exact,
}
use native.Mathlib.Decide.{ℕ_discrete}
use echo_web_server.Run.{Yields, yields, Yields-weaken, Yields-value}
use echo_web_server.HeapTimer.{
  node_inhabited, HeapTimer, parent_of, valid_index, right_is_smaller, small_child, swapped,
  shift_down_loop, shift_down, size,
}
use echo_web_server.HeapTimer.Index.{
  expiration_at, IsIndexed, read-ok, swap-ok, get!-swapped, length-swapped,
}
use echo_web_server.HeapTimer.Order.{IsBridged, Keeps-refl, Keeps-trans, swapped-Keeps, Sifted}

pub record DownInv (t : HeapTimer) (i : ℕ) : Type 0 where
  pub inside : i < length t.nodes
  pub edges :
      (c : ℕ)
      → 0 < c
      → c < length t.nodes
      → parent_of c ≢ i
      → expiration_at t (parent_of c) ≤ expiration_at t c
  pub bridged : IsBridged t i

-- What `SmallChild(i)` answers: a child that expires no later than any, or nothing where there is none.
abbrev IsSmallChild : HeapTimer → ℕ → Option ℕ → Type 0
IsSmallChild t i none = length t.nodes ≤ i * 2 + 1
IsSmallChild t i (some s) =
    (i < s)
    × (s < length t.nodes)
    × (parent_of s ≡ i)
    × ((c : ℕ)
        → 0 < c
        → c < length t.nodes
        → parent_of c ≡ i
        → expiration_at t s ≤ expiration_at t c)

child_cases : (i c : ℕ) → 0 < c → parent_of c ≡ i → (c ≡ i * 2 + 1) ⊎ (c ≡ i * 2 + 2)
child_cases i c p e = ground arith

-- A bound for both children is a bound for all.
bound_children :
    (t : HeapTimer) (i b : ℕ)
    → (i * 2 + 1 < length t.nodes → b ≤ expiration_at t (i * 2 + 1))
    → (i * 2 + 2 < length t.nodes → b ≤ expiration_at t (i * 2 + 2))
    → (c : ℕ) → 0 < c
    → c < length t.nodes
    → parent_of c ≡ i
    → b ≤ expiration_at t c
bound_children t i b left right c p q e = elim (child_cases i c p e) [
  | inl l ↦ rw l (left (omega arith))
  | inr r ↦ rw r (right (omega arith))
]

module _ (t : HeapTimer) (i : ℕ) (inside : i < length t.nodes)
    (sized : length t.nodes < size_mod) where
  right_is_smaller-ok :
      i * 2 + 1 < length t.nodes
      → Yields
          (λ b. IsSmallChild t i (some (if b then i * 2 + 2 else i * 2 + 1)))
          (right_is_smaller i (i * 2 + 1) (i * 2 + 2) t)
  unfolding right_is_smaller valid_index
  right_is_smaller-ok h = elim (Bool-cases (ltb (i * 2 + 2) (length t.nodes))) [
    | inl two ↦
        let both = ltb→lt _ _ two in
        rw
          (
            two,
            lt→ltb i (i * 2 + 2) (omega arith),
            read-ok (i * 2 + 2) t both,
            read-ok (i * 2 + 1) t h,
          )
          (elim (Bool-cases (ltb (expiration_at t (i * 2 + 2)) (expiration_at t (i * 2 + 1)))) [
            | inl smaller ↦
                let le = ltb→lt _ _ smaller in
                rw smaller (
                  yields (
                    omega arith,
                    both,
                    omega arith,
                    bound_children t i _ (λ l. omega arith) (λ r. omega arith),
                  ))
            | inr larger ↦
                let ge : expiration_at t (i * 2 + 1) ≤ expiration_at t (i * 2 + 2) = ground arith in
                rw larger (
                  yields (
                    omega arith,
                    h,
                    omega arith,
                    bound_children t i _ (λ l. omega arith) (λ r. omega arith),
                  ))
          ])
    | inr one ↦ rw one (
        yields (
          omega arith,
          h,
          omega arith,
          bound_children t i _ (λ l. omega arith) (λ r. absurd (ground arith)),
        ))
  ]

  -- A left child whose position wraps around would lie past the end.
  pub small_child-ok : Yields (IsSmallChild t i) (small_child i t)
  unfolding small_child valid_index
  small_child-ok = elim (Bool-cases (ltb (i * 2 + 1) (length t.nodes))) [
    | inl one ↦
        let h = ltb→lt _ _ one in
        let left : (i * 2 + 1) % size_mod ≡ i * 2 + 1 = omega arith in
        let (b, e, s) = Yields-value (right_is_smaller-ok h) in
        let right : add_size (i * 2 + 1) 1 ≡ i * 2 + 2 =
          omega (arith, add_size_exact (i * 2 + 1) 1) in
        rw (lt→ltb i (length t.nodes) inside, left)
          (rw (one, lt→ltb i (i * 2 + 1) (omega arith), right) (rw e (yields s)))
    | inr childless ↦
        let left = (i * 2 + 1) % size_mod in
        let off : (ltb left (length t.nodes) && ltb i left) ≡ false =
          elim (Bool-cases (ltb (i * 2 + 1) size_mod)) [
            | inl fits ↦ ground arith
            | inr wraps ↦ ground arith
          ] in
        rw (lt→ltb i (length t.nodes) inside) (rw off (yields (ground arith)))
  ]

  swapped-DownInv :
      (s : ℕ)
      → DownInv t i
      → IsSmallChild t i (some s)
      → expiration_at t s < expiration_at t i
      → DownInv (swapped s i t) s
  swapped-DownInv s v c below =
      let len = length-swapped s i t c.1 inside in
      let at = get!-swapped s i t c.1 inside in
      record {
        inside = omega (arith, len, c.1);
        edges = λ d p q ne. ground (
          arith,
          len,
          c.0,
          c.2,
          at d,
          at (parent_of d),
          v.edges d,
          v.bridged d,
          v.bridged s,
          c.3 d,
        );
        bridged = λ d p q e z.
            ground (arith, len, c.0, c.2, at d, at (parent_of s), v.edges d, v.bridged s);
      }

  sink-Sifted :
      {s : ℕ} {r : HeapTimer}
      → IsIndexed t
      → IsSmallChild t i (some s)
      → Sifted (swapped s i t) r
      → Sifted t r
  sink-Sifted {s} x c done = record {
    heap = done.heap;
    kept = Keeps-trans (swapped-Keeps s i t c.1 inside (omega (arith, c.0)) x) done.kept;
  }

  stay-Sifted :
      DownInv t i
      → IsIndexed t
      → ((c : ℕ)
          → 0 < c
          → c < length t.nodes
          → parent_of c ≡ i
          → expiration_at t i ≤ expiration_at t c)
      → Sifted t t
  stay-Sifted v x least = record {
    heap = λ c p q. elim (ℕ_discrete (parent_of c) i) [
      | yes e ↦ rw e (least c p q e)
      | no ne ↦ v.edges c p q ne
    ];
    kept = Keeps-refl x;
  }

shift_down_loop-Sifted :
    (fuel : ℕ) (i : ℕ) (t : HeapTimer)
    → length t.nodes ≤ fuel + i
    → length t.nodes < size_mod
    → DownInv t i
    → IsIndexed t
    → Yields (Sifted t) (shift_down_loop fuel i t)
unfolding shift_down_loop
shift_down_loop-Sifted zero i t f z v x = absurd (omega (arith, v.inside))
shift_down_loop-Sifted (suc fuel) i t f z v x =
    let (o, answered, c) = Yields-value (small_child-ok t i v.inside z) in
    elim (Option-cases o) [
      | inl e ↦
          let childless : length t.nodes ≤ i * 2 + 1 = rw e at c in
          rw answered
            (rw e (yields (stay-Sifted t i v.inside z v x λ d p q a. absurd (omega arith))))
      | inr (s, e) ↦
          let small : IsSmallChild t i (some s) = rw e at c in
          rw answered (
            rw (e, lt→ltb i s small.0, read-ok i t v.inside, read-ok s t small.1)
              (elim (Bool-cases (ltb (expiration_at t s) (expiration_at t i))) [
                | inl sinks ↦
                    let len = length-swapped s i t small.1 v.inside in
                    rw (sinks, swap-ok s i t small.1 v.inside (omega (arith, small.0)))
                      (Yields-weaken
                        (shift_down_loop-Sifted fuel s (swapped s i t) (omega (arith, len, small.0))
                          (omega (arith, len))
                          (swapped-DownInv t i v.inside z s v small (ltb→lt _ _ sinks))
                          (swapped-Keeps s i t small.1 v.inside (omega (arith, small.0)) x).indexed)
                        λ r done. sink-Sifted t i v.inside z x small done)
                | inr stays ↦
                    rw stays
                      (yields (stay-Sifted t i v.inside z v x λ d p q a. ground (arith, small.3 d)))
              ]))
    ]

-- `ShiftDown(i)`, where at most the edges below `i` are out of order and the map is right, ends with
-- the heap order restored, the map right and every node kept.
pub shift_down-Sifted :
    (i : ℕ) (t : HeapTimer)
    → length t.nodes < size_mod
    → DownInv t i
    → IsIndexed t
    → Yields (Sifted t) (shift_down i t)
unfolding shift_down valid_index size
shift_down-Sifted i t z v x =
    rw (lt→ltb i (length t.nodes) v.inside)
      (shift_down_loop-Sifted (length t.nodes) i t (omega arith) z v x)
