-- ===== src/HeapTimer/Remove.antt =====
-- Removing a node by its position, by its key, and from the top.
use echo_web_server.Prelude.{
  ℕ, suc, ◌-◌, ◌≤◌, ◌<◌, ◌≡◌, refl, sym, ap, ◌∙◌, true, false, inl, inr, none, some, Option, arith,
  length, set, length-take, get!, get!-take, swap_elems, get!-swap_elems, length-swap_elems, ◌==◌,
  lt→ltb, ==_iff, Bool-cases, Option-cases, if◌then◌else◌,
}
use echo_web_server.Run.{fault, Yields, yields, Yields-bind, Yields-weaken}
use echo_web_server.HeapTimer.{
  Node, node_inhabited, HeapTimer, parent_of, clear, size, empty, valid_index, contain, drop_top,
  shift_up, remove_by_index, remove, pop,
}
use echo_web_server.HeapTimer.Index.{
  key_at, expiration_at, IsIndexed, node_of, find, read-ok, contain-absent, contain-known,
}
use echo_web_server.HeapTimer.Order.{IsHeap, IsValid, Sifted, Sifted-IsValid, top_least}
use echo_web_server.HeapTimer.Up.{Risen, shift_up-Risen}
use echo_web_server.HeapTimer.Down.{DownInv, shift_down-Sifted}
use echo_web_server.HeapTimer.Insert.{
  length-replaced, get!-replaced, replaced-IsIndexed, find-replaced, replaced-UpInv,
}

-- `r` is a valid timer of the nodes of `t` but for the one of `k`.
pub record Takes (k : ℕ) (t r : HeapTimer) : Type 0 where
  pub valid : IsValid r
  pub same : (j : ℕ) → find j r ≡ (if k == j then none else find j t)
  pub smaller : suc (length r.nodes) ≡ length t.nodes

module _ (t : HeapTimer) (x : IsIndexed t) (several : 1 < length t.nodes) where
  abbrev dropped : HeapTimer
  dropped = drop_top (key_at t 0) t

  abbrev last : ℕ
  last = length t.nodes - 1

  at_ends :
      (c : ℕ)
      → get! (swap_elems t.nodes 0 last) c ≡ (
          if last == c
          then get! t.nodes 0
          else if 0 == c
          then get! t.nodes last
          else get! t.nodes c)
  at_ends c = get!-swap_elems t.nodes 0 last c (omega arith) (omega arith)

  length-dropped : length dropped.nodes ≡ last
  length-dropped =
      omega (arith, length-take last (swap_elems t.nodes 0 last), length-swap_elems t.nodes 0 last)

  get!-dropped :
      (c : ℕ)
      → c < last
      → get! dropped.nodes c ≡ (if 0 == c then get! t.nodes last else get! t.nodes c)
  get!-dropped c h = get!-take last (swap_elems t.nodes 0 last) c h ∙ ground (arith, at_ends c)

  dropped_idx :
      (j : ℕ)
      → dropped.key_to_idx j
        ≡ (if key_at t 0 == j then none else if key_at t last == j then some 0 else t.key_to_idx j)
  dropped_idx j = ground (arith, at_ends 0, at_ends last, x.known 0, x.known last)

  dropped-IsIndexed : IsIndexed dropped
  dropped-IsIndexed = record {
    known = λ c h.
        dropped_idx (key_at dropped c)
        ∙ ground (arith, length-dropped, get!-dropped c, x.known c, x.known 0, x.known last);
    found = λ j c e. ground (
      arith,
      sym (dropped_idx j) ∙ e,
      length-dropped,
      get!-dropped c,
      x.found j c,
      x.known 0,
      x.known last,
    );
  }

  find-dropped_at :
      (j : ℕ) (o : Option ℕ)
      → t.key_to_idx j ≡ o
      → node_of dropped (if key_at t 0 == j then none else if key_at t last == j then some 0 else o)
        ≡ (if key_at t 0 == j then none else node_of t o)
  find-dropped_at j none e = ground (arith, x.known last)
  find-dropped_at j (some c) e =
      ground (arith, get!-dropped c, get!-dropped 0, x.found j c, x.known 0, x.known last)

  find-dropped : (j : ℕ) → find j dropped ≡ (if key_at t 0 == j then none else find j t)
  unfolding find
  find-dropped j = ap (node_of dropped) (dropped_idx j) ∙ find-dropped_at j (t.key_to_idx j) refl

  dropped-DownInv : IsHeap t → DownInv dropped 0
  dropped-DownInv h = record {
    inside = omega (arith, length-dropped);
    edges =
        λ c p q ne. ground (arith, length-dropped, get!-dropped c, get!-dropped (parent_of c), h c);
    bridged = λ c p q e z. absurd (omega arith);
  }

module _ (i : ℕ) {t : HeapTimer} (v : IsValid t) (hi : i < length t.nodes) where
  -- The node at `i` with the least time.
  abbrev lowered : Node
  lowered = record (get! t.nodes i) { expiration = 0 }

  abbrev sunk : HeapTimer
  sunk = record t { nodes = set t.nodes i lowered }

  lowered-Risen : Yields (Risen sunk i) (shift_up i sunk)
  lowered-Risen =
      shift_up-Risen i sunk (replaced-UpInv i t lowered hi refl v.heap (omega arith))
        (replaced-IsIndexed i t lowered hi refl v.indexed)

  taken-Takes :
      {r s : HeapTimer}
      → 1 < length t.nodes
      → Risen sunk i r
      → key_at r 0 ≡ key_at t i
      → Sifted (drop_top (key_at t i) r) s
      → Takes (key_at t i) t s
  taken-Takes {r} {s} several risen top sifted =
      let kept = risen.sifted.kept in
      let len : length r.nodes ≡ length t.nodes =
        kept.same_size ∙ length-replaced i t lowered hi refl in
      let many : 1 < length r.nodes = omega (arith, len) in
      let sifted' : Sifted (drop_top (key_at r 0) r) s = rw top sifted in
      let short = length-dropped r kept.indexed many in
      record {
        valid = Sifted-IsValid (omega (arith, v.sized, short, len)) sifted';
        same = λ j.
            sifted'.kept.same j
            ∙ find-dropped r kept.indexed many j
            ∙ ground (arith, top, kept.same j, find-replaced i t lowered hi refl j v.indexed);
        smaller = omega (arith, short, len, sifted'.kept.same_size);
      }

  clear-Takes : length t.nodes ≡ 1 → Takes (key_at t i) t (clear t)
  unfolding clear find
  clear-Takes one = record {
    valid = record {
      heap = λ c p q. absurd (omega arith);
      indexed = record { known = λ c h. absurd (omega arith); found = λ k c e. absurd (cc) };
      sized = omega arith;
    };
    same = λ j. elim (Option-cases (t.key_to_idx j)) [
      | inl e ↦ rw e (ground arith)
      | inr (c, e) ↦
          let hc = v.indexed.found j c e in
          let here : c ≡ i = omega (arith, hc.0) in ground (arith, hc.1, here)
    ];
    smaller = omega (arith, one);
  }

  -- `RemoveByIndex(i)` on a valid timer with a node at `i` returns that node's key, and leaves a valid
  -- timer without that node and with every other one.
  pub remove_by_index-Takes :
      Yields (λ r. (r.0 ≡ key_at t i) × Takes (key_at t i) t r.1) (remove_by_index i t)
  unfolding remove_by_index valid_index size
  remove_by_index-Takes = elim (Bool-cases (length t.nodes == 1)) [
    | inl one ↦
        rw (lt→ltb i (length t.nodes) hi, read-ok i t hi)
          (rw one (yields (refl, clear-Takes ((==_iff _ _).0 one))))
    | inr more ↦
        let several : 1 < length t.nodes = ground arith in
        rw (lt→ltb i (length t.nodes) hi, read-ok i t hi)
          (rw more (
            Yields-bind lowered-Risen λ r risen.
              let top : key_at r 0 ≡ key_at t i =
                ground (arith, risen.to_top, get!-replaced i t lowered hi refl i) in
              let kept = risen.sifted.kept in
              let len = kept.same_size ∙ length-replaced i t lowered hi refl in
              let many : 1 < length r.nodes = omega (arith, len) in
              let ends = rw top at (dropped-DownInv r kept.indexed many risen.sifted.heap) in
              let index = rw top at (dropped-IsIndexed r kept.indexed many) in
              let short = length-dropped r kept.indexed many in
              rw (read-ok 0 r (omega arith), (==_iff (key_at r 0) (key_at t i)).1 top)
                (Yields-bind
                  (shift_down-Sifted 0 (drop_top (key_at t i) r)
                    (omega (arith, v.sized, len, short)) ends index)
                  λ s sifted. yields (refl, taken-Takes several risen top sifted))))
  ]

-- `Remove(k)` on a valid timer answers whether it held a node of `k`, and leaves a valid timer without
-- such a node and with every other one.
pub remove_behaviour :
    (k : ℕ) {t : HeapTimer}
    → IsValid t
    → Yields
        (λ r.
          (r.0 ≡ contain k t)
          × IsValid r.1
          × ((j : ℕ) → find j r.1 ≡ (if k == j then none else find j t)))
        (remove k t)
unfolding remove
remove_behaviour k {t} v = elim (Option-cases (t.key_to_idx k)) [
  | inl e ↦ rw (contain-absent k t e) (yields (refl, v, λ j. unfold find in ground (arith, e)))
  | inr (i, e) ↦
      let (hi, same) = v.indexed.found k i e in
      rw (contain-known k t e) (
        rw e (
          Yields-bind (remove_by_index-Takes i v hi)
            λ r p. yields (refl, p.1.valid, λ j. rw same at (p.1.same j))))
]

pub find_least :
    {t : HeapTimer}
    → IsValid t
    → (j : ℕ) (node : Node) → find j t ≡ some node
    → expiration_at t 0 ≤ node.expiration
unfolding find
find_least {t} v j node e = elim (Option-cases (t.key_to_idx j)) [
  | inl n ↦ absurd (ground arith)
  | inr (c, n) ↦
      let here : node ≡ get! t.nodes c = ground arith in
      rw here (top_least t c v.heap (v.indexed.found j c n).0)
]

pub pop-Takes :
    {t : HeapTimer}
    → IsValid t
    → 0 < length t.nodes
    → Yields (λ r. (r.0 ≡ key_at t 0) × Takes (key_at t 0) t r.1) (pop t)
unfolding pop empty
pop-Takes {t} v h =
    let some_left : (length t.nodes == 0) ≡ false = ground arith in
    rw some_left (remove_by_index-Takes 0 v h)

-- `Pop` on a valid timer that is not empty returns the key of a node that expires no later than any
-- other, and leaves a valid timer of the other nodes; on an empty timer it fails its assertion.
pub pop_behaviour :
    {t : HeapTimer}
    → IsValid t
    → (0 < length t.nodes
        → Yields
            (λ r.
              Takes r.0 t r.1
              × ((j : ℕ) (node : Node) → find j t ≡ some node → expiration_at t 0 ≤ node.expiration)
              × (find r.0 t ≡ some (get! t.nodes 0)))
            (pop t))
      × (length t.nodes ≡ 0 → pop t ≡ fault)
unfolding pop empty find
pop_behaviour {t} v = (
  λ h.
      Yields-weaken (pop-Takes v h)
        λ r p. let top = p.0 in (rw top p.1, find_least v, rw top (rw (v.indexed.known 0 h))),
  λ h. let none_left : (length t.nodes == 0) ≡ true = ground arith in rw none_left,
)

-- Removing adds no node.
pub remove-no_growth :
    (k : ℕ) {t : HeapTimer}
    → IsValid t
    → Yields (λ r. length r.1.nodes ≤ length t.nodes) (remove k t)
unfolding remove
remove-no_growth k {t} v = elim (Option-cases (t.key_to_idx k)) [
  | inl e ↦ rw (contain-absent k t e) (yields (omega arith))
  | inr (i, e) ↦
      let (hi, same) = v.indexed.found k i e in
      rw (contain-known k t e) (
        rw e
          (Yields-bind (remove_by_index-Takes i v hi) λ r x. yields (omega (arith, x.1.smaller))))
]
