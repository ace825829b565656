-- ===== src/HeapTimer/Index.antt =====
-- The map from keys to positions, and the timer as a map from keys to nodes.
use echo_web_server.Prelude.{
  Option-cases, inl, inr, ℕ, ◌<◌, ◌≡◌, ◌≢◌, refl, sym, ap, ◌∙◌, true, false, Option, none, some,
  arith, length, get!, get!-swap_elems, length-swap_elems, get_elem?-get!, ◌==◌, if◌then◌else◌,
}
use echo_web_server.Run.{codes, out_of_range, ok, throw}
use echo_web_server.HeapTimer.{Node, node_inhabited, HeapTimer, at, contain, read, swapped, swap}

abbrev pub key_at : HeapTimer → ℕ → ℕ
key_at t i = (get! t.nodes i).key

abbrev pub expiration_at : HeapTimer → ℕ → ℕ
expiration_at t i = (get! t.nodes i).expiration

-- The map sends each node's key to the node's position, and holds no other key.
pub record IsIndexed (t : HeapTimer) : Type 0 where
  pub known : (i : ℕ) → i < length t.nodes → t.key_to_idx (key_at t i) ≡ some i
  pub found : (k i : ℕ) → t.key_to_idx k ≡ some i → (i < length t.nodes) × (key_at t i ≡ k)

-- The node of a key: the timer as a client sees it.
abbrev pub node_of : HeapTimer → Option ℕ → Option Node
node_of t none = none
node_of t (some i) = some (get! t.nodes i)

unfoldable pub find : ℕ → HeapTimer → Option Node
find k t = node_of t (t.key_to_idx k)

-- The node at a position is found under its key.
pub find-key_at :
    (t : HeapTimer) (i : ℕ)
    → IsIndexed t
    → i < length t.nodes
    → find (key_at t i) t ≡ some (get! t.nodes i)
unfolding find
find-key_at t i x h = rw (x.known i h)

pub read-ok : (i : ℕ) (t : HeapTimer) → i < length t.nodes → read i t ≡ ok (get! t.nodes i)
unfolding read
read-ok i t h = rw (get_elem?-get! t.nodes i h)

module _ (k : ℕ) (t : HeapTimer) where
  pub at-absent : t.key_to_idx k ≡ none → at k t ≡ throw (out_of_range (codes "_Map_base::at"))
  unfolding at
  at-absent e = rw (e, at)

  pub at-known : {i : ℕ} → t.key_to_idx k ≡ some i → at k t ≡ ok i
  unfolding at
  at-known e = rw (e, at)

  pub contain-absent : t.key_to_idx k ≡ none → contain k t ≡ false
  unfolding contain
  contain-absent e = rw (e, contain)

  pub contain-known : {i : ℕ} → t.key_to_idx k ≡ some i → contain k t ≡ true
  unfolding contain
  contain-known e = rw (e, contain)

module _ (i j : ℕ) (t : HeapTimer) (hi : i < length t.nodes) (hj : j < length t.nodes) where
  pub swap-ok : i ≢ j → swap i j t ≡ ok (swapped i j t)
  unfolding swap
  swap-ok ne = ground arith

  pub get!-swapped :
      (c : ℕ)
      → get! (swapped i j t).nodes c
        ≡ (if j == c then get! t.nodes i else if i == c then get! t.nodes j else get! t.nodes c)
  get!-swapped c = get!-swap_elems t.nodes i j c hi hj

  pub length-swapped : length (swapped i j t).nodes ≡ length t.nodes
  length-swapped = length-swap_elems t.nodes i j

  module _ (ne : i ≢ j) (x : IsIndexed t) where
    swapped_idx :
        (k : ℕ)
        → (swapped i j t).key_to_idx k
          ≡ (if key_at t i == k then some j else if key_at t j == k then some i else t.key_to_idx k)
    swapped_idx k = rw (get!-swapped i, get!-swapped j) (ground arith)

    swapped-found :
        (k c : ℕ)
        → (swapped i j t).key_to_idx k ≡ some c
        → (c < length (swapped i j t).nodes) × (key_at (swapped i j t) c ≡ k)
    swapped-found k c e = ground (
      arith,
      sym (swapped_idx k) ∙ e,
      length-swapped,
      get!-swapped c,
      x.found k c,
      x.known i,
      x.known j,
    )

    pub swapped-IsIndexed : IsIndexed (swapped i j t)
    swapped-IsIndexed = record {
      known = λ c h.
          swapped_idx (key_at (swapped i j t) c)
          ∙ ground (arith, length-swapped, get!-swapped c, x.known c, x.known i, x.known j);
      found = swapped-found;
    }

    find-swapped_at :
        (k : ℕ) (o : Option ℕ)
        → t.key_to_idx k ≡ o
        → node_of
            (swapped i j t)
            (if key_at t i == k then some j else if key_at t j == k then some i else o)
          ≡ node_of t o
    find-swapped_at k none e = ground (arith, x.known i, x.known j)
    find-swapped_at k (some c) e =
        ground
          (arith, x.found k c, x.known i, x.known j, get!-swapped i, get!-swapped j, get!-swapped c)

    -- Swapping two nodes changes nothing that a client sees.
    pub find-swapped : (k : ℕ) → find k (swapped i j t) ≡ find k t
    unfolding find
    find-swapped k =
        ap (node_of (swapped i j t)) (swapped_idx k) ∙ find-swapped_at k (t.key_to_idx k) refl

-- What is found under a key has that key.
pub find-key :
    (k : ℕ) (t : HeapTimer) (node : Node) → IsIndexed t → find k t ≡ some node → node.key ≡ k
unfolding find
find-key k t node x e = elim (Option-cases (t.key_to_idx k)) [
  | inl f ↦ absurd (ground arith)
  | inr (i, f) ↦ ground (arith, x.found k i f)
]

-- Where something is found the timer is not empty.
pub find-some-length :
    (k : ℕ) (t : HeapTimer) (node : Node) → IsIndexed t → find k t ≡ some node → 0 < length t.nodes
unfolding find
find-some-length k t node x e = elim (Option-cases (t.key_to_idx k)) [
  | inl f ↦ absurd (ground arith)
  | inr (i, f) ↦ omega (arith, (x.found k i f).0)
]
