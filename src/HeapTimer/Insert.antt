-- ===== src/HeapTimer/Insert.antt =====
-- Pushing a node and adjusting one.
use echo_web_server.Prelude.{
  ℕ, suc, ◌≤◌, ◌<◌, ◌≡◌, refl, ◌∙◌, inl, inr, none, some, Option, arith, [], ◌∷◌, ◌++◌, length, set,
  length-set, length-append, get!, get!-set, get!-append, get!-append_end, ltb, ◌==◌, ==_iff,
  Bool-cases, Option-cases, if◌then◌else◌, size_mod,
}
use echo_web_server.Run.{codes, throw, out_of_range, Yields, Yields-weaken}
use echo_web_server.HeapTimer.{
  Node, node_inhabited, HeapTimer, parent_of, store, size, shift_up, shift_down, renew, adjust_node,
  push,
}
use echo_web_server.HeapTimer.Index.{
  key_at, expiration_at, IsIndexed, node_of, find, at-absent, at-known, contain-absent,
  contain-known, read-ok,
}
use echo_web_server.HeapTimer.Order.{IsHeap, IsValid, Sifted, Sifted-IsValid}
use echo_web_server.HeapTimer.Up.{UpInv, shift_up-Risen}
use echo_web_server.HeapTimer.Down.{DownInv, shift_down-Sifted}

-- `r` is a valid timer with `node` under its key and otherwise the nodes of `t`, at most one more.
pub record Puts (node : Node) (t r : HeapTimer) : Type 0 where
  pub valid : IsValid r
  pub same : (k : ℕ) → find k r ≡ (if node.key == k then some node else find k t)
  pub grows : length r.nodes ≤ suc (length t.nodes)

module _ (i : ℕ) (t : HeapTimer) (node : Node) (hi : i < length t.nodes)
    (same_key : node.key ≡ key_at t i) where
  -- The timer with the node at `i` replaced by one of the same key.
  abbrev pub replaced : HeapTimer
  replaced = record t { nodes = set t.nodes i node }

  pub get!-replaced : (c : ℕ) → get! replaced.nodes c ≡ (if i == c then node else get! t.nodes c)
  get!-replaced c = get!-set t.nodes i c node hi

  pub length-replaced : length replaced.nodes ≡ length t.nodes
  length-replaced = length-set t.nodes i node

  pub replaced-IsIndexed : IsIndexed t → IsIndexed replaced
  replaced-IsIndexed x = record {
    known = λ c h. ground (arith, length-replaced, get!-replaced c, x.known c);
    found = λ k c e. ground (arith, length-replaced, get!-replaced c, x.found k c);
  }

  find-replaced_at :
      (k : ℕ) (o : Option ℕ)
      → IsIndexed t
      → t.key_to_idx k ≡ o
      → node_of replaced o ≡ (if node.key == k then some node else node_of t o)
  find-replaced_at k none x e = ground (arith, x.known i)
  find-replaced_at k (some c) x e = ground (arith, get!-replaced c, x.known i, x.found k c)

  pub find-replaced :
      (k : ℕ) → IsIndexed t → find k replaced ≡ (if node.key == k then some node else find k t)
  unfolding find
  find-replaced k x = find-replaced_at k (t.key_to_idx k) x refl

  -- After an earlier time only the edge above can be out of order, after a later one those below.
  pub replaced-UpInv : IsHeap t → node.expiration ≤ expiration_at t i → UpInv replaced i
  replaced-UpInv h le = record {
    inside = omega (arith, length-replaced);
    edges = λ c p q ne.
        ground (arith, length-replaced, get!-replaced c, get!-replaced (parent_of c), h c);
    bridged = λ c p q e z.
        ground (arith, length-replaced, get!-replaced c, get!-replaced (parent_of i), h c, h i);
  }

  pub replaced-DownInv : IsHeap t → expiration_at t i ≤ node.expiration → DownInv replaced i
  replaced-DownInv h ge = record {
    inside = omega (arith, length-replaced);
    edges = λ c p q ne.
        ground (arith, length-replaced, get!-replaced c, get!-replaced (parent_of c), h c);
    bridged = λ c p q e z.
        ground (arith, length-replaced, get!-replaced c, get!-replaced (parent_of i), h c, h i);
  }

module _ (i expiration : ℕ) (callback : Option ℕ) {t : HeapTimer} (v : IsValid t)
    (hi : i < length t.nodes) where
  abbrev renewed : Node
  renewed = renew expiration callback (get! t.nodes i)

  Sifted-Puts : {r : HeapTimer} → Sifted (replaced i t renewed hi refl) r → Puts renewed t r
  Sifted-Puts s = record {
    valid = Sifted-IsValid (omega (arith, v.sized, length-replaced i t renewed hi refl)) s;
    same = λ k. s.kept.same k ∙ find-replaced i t renewed hi refl k v.indexed;
    grows = omega (arith, s.kept.same_size, length-replaced i t renewed hi refl);
  }

  readjusted : Yields (Puts renewed t) (
      if ltb expiration (expiration_at t i)
      then shift_up i (record t { nodes = set t.nodes i renewed })
      else shift_down i (record t { nodes = set t.nodes i renewed }))
  readjusted =
      let x = replaced-IsIndexed i t renewed hi refl v.indexed in
      elim (Bool-cases (ltb expiration (expiration_at t i))) [
        | inl earlier ↦
            let le : expiration ≤ expiration_at t i = ground arith in
            rw earlier (
              Yields-weaken (shift_up-Risen i _ (replaced-UpInv i t renewed hi refl v.heap le) x)
                λ r s. Sifted-Puts s.sifted)
        | inr later ↦
            let ge : expiration_at t i ≤ expiration = ground arith in
            rw later (
              Yields-weaken
                (shift_down-Sifted i _ (omega (arith, v.sized, length-replaced i t renewed hi refl))
                  (replaced-DownInv i t renewed hi refl v.heap ge) x)
                λ r s. Sifted-Puts s)
      ]

-- `Adjust(key, expiration, callback)` of a key that the timer holds gives its node the new time, and
-- the new callback if there is one, keeps every other node, and leaves a valid timer; for any other
-- key it throws `std::out_of_range`.
pub adjust_node-Puts :
    (k expiration : ℕ) (callback : Option ℕ) {t : HeapTimer}
    → IsValid t
    → ((node : Node)
        → find k t ≡ some node
        → Yields (Puts (renew expiration callback node) t) (adjust_node k expiration callback t))
      × (find k t ≡ none
          → adjust_node k expiration callback t ≡ throw (out_of_range (codes "_Map_base::at")))
unfolding adjust_node find
adjust_node-Puts k expiration callback {t} v = elim (Option-cases (t.key_to_idx k)) [
  | inl e ↦ ((λ node f. absurd (ground arith)), λ f. rw (at-absent k t e))
  | inr (i, e) ↦ (
    λ node f.
        let hi = (v.indexed.found k i e).0 in
        let here : node ≡ get! t.nodes i = ground arith in
        rw (at-known k t e, here) (rw (read-ok i t hi) (readjusted i expiration callback v hi)),
    λ f. absurd (ground arith),
  )
]

module _ (node : Node) (t : HeapTimer) (absent : t.key_to_idx node.key ≡ none) where
  -- The timer with a node of a new key at the end.
  abbrev extended : HeapTimer
  extended = record {
    key_to_idx = store node.key (length t.nodes) t.key_to_idx;
    nodes = t.nodes ++ node ∷ [];
  }

  length-extended : length extended.nodes ≡ suc (length t.nodes)
  length-extended = omega (arith, length-append t.nodes (node ∷ []))

  get!-extended :
      (c : ℕ)
      → c < length extended.nodes
      → get! extended.nodes c ≡ (if c == length t.nodes then node else get! t.nodes c)
  get!-extended c h = elim (Bool-cases (c == length t.nodes)) [
    | inl e ↦
        let last : c ≡ length t.nodes = (==_iff _ _).0 e in
        rw e (rw last (get!-append_end t.nodes node))
    | inr e ↦
        let before : c < length t.nodes = ground (arith, length-extended) in
        rw e (get!-append t.nodes (node ∷ []) c before)
  ]

  extended-IsIndexed : IsIndexed t → IsIndexed extended
  extended-IsIndexed x = record {
    known = λ c h. ground (arith, absent, length-extended, get!-extended c h, x.known c);
    found = λ k c e. ground (arith, absent, length-extended, get!-extended c, x.found k c);
  }

  find-extended_at :
      (k : ℕ) (o : Option ℕ)
      → IsIndexed t
      → t.key_to_idx k ≡ o
      → node_of extended (if node.key == k then some (length t.nodes) else o)
        ≡ (if node.key == k then some node else node_of t o)
  find-extended_at k none x e = ground (arith, length-extended, get!-extended (length t.nodes))
  find-extended_at k (some c) x e =
      ground (arith, length-extended, get!-extended (length t.nodes), get!-extended c, x.found k c)

  find-extended :
      (k : ℕ) → IsIndexed t → find k extended ≡ (if node.key == k then some node else find k t)
  unfolding find
  find-extended k x = find-extended_at k (t.key_to_idx k) x refl

  extended-UpInv : IsHeap t → UpInv extended (length t.nodes)
  extended-UpInv h = record {
    inside = omega (arith, length-extended);
    edges = λ c p q ne.
        ground (arith, length-extended, get!-extended c, get!-extended (parent_of c), h c);
    bridged = λ c p q e z. absurd (ground (arith, length-extended));
  }

  extended-Puts :
      IsValid t
      → suc (length t.nodes) < size_mod
      → Yields (Puts node t) (shift_up (length t.nodes) extended)
  extended-Puts v room =
      Yields-weaken
        (shift_up-Risen (length t.nodes) extended (extended-UpInv v.heap)
          (extended-IsIndexed v.indexed))
        λ r s. record {
          valid = Sifted-IsValid (omega (arith, room, length-extended)) s.sifted;
          same = λ k. s.sifted.kept.same k ∙ find-extended k v.indexed;
          grows = omega (arith, s.sifted.kept.same_size, length-extended);
        }

-- `Push` with room for one more node puts the node under its key, in place of the one that the key
-- had if there was one, keeps every other node, and leaves a valid timer.
pub push-Puts :
    (k expiration callback : ℕ) {t : HeapTimer}
    → IsValid t
    → suc (length t.nodes) < size_mod
    → Yields
        (Puts (record { key = k; expiration = expiration; callback = callback }) t)
        (push k expiration callback t)
unfolding push size find
push-Puts k expiration callback {t} v room = elim (Option-cases (t.key_to_idx k)) [
  | inl e ↦
      rw (contain-absent k t e) (
        extended-Puts (record { key = k; expiration = expiration; callback = callback }) t e v room)
  | inr (i, e) ↦
      let old = (adjust_node-Puts k expiration (some callback) v).0 (get! t.nodes i) (rw e) in
      let same : (get! t.nodes i).key ≡ k = (v.indexed.found k i e).1 in
      rw (contain-known k t e) (rw same at old)
]
