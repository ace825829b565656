-- ===== src/HeapTimer/Order.antt =====
-- The heap order, the invariant of the timer, and what a shift keeps.
use echo_web_server.Prelude.{ℕ, zero, suc, ◌≤◌, ◌<◌, ◌≡◌, ◌≢◌, refl, ◌∙◌, length, arith, size_mod}
use echo_web_server.HeapTimer.{node_inhabited, HeapTimer, parent_of, swapped}
use echo_web_server.HeapTimer.Index.{
  expiration_at, IsIndexed, find, swapped-IsIndexed, find-swapped, length-swapped,
}

-- No node expires before its parent.
abbrev pub IsHeap : HeapTimer → Type 0
IsHeap t = (c : ℕ) → 0 < c → c < length t.nodes → expiration_at t (parent_of c) ≤ expiration_at t c

-- The children of `i` do not expire before the parent of `i`.
abbrev pub IsBridged : HeapTimer → ℕ → Type 0
IsBridged t i =
    (c : ℕ)
    → 0 < c
    → c < length t.nodes
    → parent_of c ≡ i
    → 0 < i
    → expiration_at t (parent_of i) ≤ expiration_at t c

-- The order, the map, and a size that positions can count.
pub record IsValid (t : HeapTimer) : Type 0 where
  pub heap : IsHeap t
  pub indexed : IsIndexed t
  pub sized : length t.nodes < size_mod

-- The same nodes under the same keys, indexed and at as many positions.
pub record Keeps (t r : HeapTimer) : Type 0 where
  pub indexed : IsIndexed r
  pub same_size : length r.nodes ≡ length t.nodes
  pub same : (k : ℕ) → find k r ≡ find k t

pub Keeps-refl : {t : HeapTimer} → IsIndexed t → Keeps t t
Keeps-refl x = record { indexed = x; same_size = refl; same = λ k. refl }

pub Keeps-trans : {t r s : HeapTimer} → Keeps t r → Keeps r s → Keeps t s
Keeps-trans p q = record {
  indexed = q.indexed;
  same_size = q.same_size ∙ p.same_size;
  same = λ k. q.same k ∙ p.same k;
}

pub swapped-Keeps :
    (i j : ℕ) (t : HeapTimer)
    → i < length t.nodes
    → j < length t.nodes
    → i ≢ j
    → IsIndexed t
    → Keeps t (swapped i j t)
swapped-Keeps i j t hi hj ne x = record {
  indexed = swapped-IsIndexed i j t hi hj ne x;
  same_size = length-swapped i j t hi hj;
  same = find-swapped i j t hi hj ne x;
}

-- Ordered again, with the same nodes.
pub record Sifted (t r : HeapTimer) : Type 0 where
  pub heap : IsHeap r
  pub kept : Keeps t r

pub Sifted-IsValid : {t r : HeapTimer} → length t.nodes < size_mod → Sifted t r → IsValid r
Sifted-IsValid h s = record {
  heap = s.heap;
  indexed = s.kept.indexed;
  sized = omega (arith, s.kept.same_size);
}

top_least_below :
    (k : ℕ) (t : HeapTimer) (i : ℕ)
    → IsHeap t
    → i < k
    → i < length t.nodes
    → expiration_at t 0 ≤ expiration_at t i
top_least_below zero t i h f p = absurd (omega arith)
top_least_below (suc k) t i h f p = ground (arith, h i, top_least_below k t (parent_of i) h)

-- The node at the top expires no later than any other.
pub top_least :
    (t : HeapTimer) (i : ℕ) → IsHeap t → i < length t.nodes → expiration_at t 0 ≤ expiration_at t i
top_least t i h p = top_least_below (suc i) t i h (omega arith) p
