-- ===== src/Config/Listing.antt =====
-- What `ExtractMembers` lists: every member at every depth under its name, in the order of the names.
use echo_web_server.Prelude.{
  ℕ, zero, suc, ◌<◌, ◌≡◌, refl, sym, ◌∙◌, true, false, List, [], ◌∷◌, none, some, inl, inr, ◌⊎◌,
  arith, Bool-cases, Option-cases,
}
use mathlib.Core.Path.{subst}
use mathlib.Core.List.{Memᴰ}
use mathlib.Core.List.Memᴰ
use echo_web_server.Run.{Bytes, Run, Yields, yields, Yields-bind, Yields-weaken}
use echo_web_server.Config.{Yaml}
use echo_web_server.Config.Members.{precedes, key_under, merge, merge_members, extract_members}

precedes-asymmetric : (s t : Bytes) → precedes s t ≡ true → precedes t s ≡ false
unfolding precedes
precedes-asymmetric s [] h = absurd (cc h)
precedes-asymmetric [] (d ∷ t) h = refl
precedes-asymmetric (c ∷ s) (d ∷ t) h = ground (arith, h, precedes-asymmetric s t)

module _ {A : Type 0} where
  -- The list does not start before a key.
  abbrev pub IsFrom : Bytes → List (Bytes × A) → Type 0
  IsFrom key [] = Unit {0}
  IsFrom key (x ∷ xs) = precedes x.0 key ≡ false

  -- No element is before the one in front of it.
  abbrev pub IsAscending : List (Bytes × A) → Type 0
  IsAscending [] = Unit {0}
  IsAscending (x ∷ xs) = IsFrom x.0 xs × IsAscending xs

  module _ (x y : Bytes × A) (xs ys : List (Bytes × A)) where
    merge_second : precedes y.0 x.0 ≡ true → merge (x ∷ xs) (y ∷ ys) ≡ y ∷ merge (x ∷ xs) ys
    unfolding merge
    merge_second e = rw (e, merge) refl

    merge_first : precedes y.0 x.0 ≡ false → merge (x ∷ xs) (y ∷ ys) ≡ x ∷ merge xs (y ∷ ys)
    unfolding merge
    merge_first e = rw (e, merge) refl

  merge-IsFrom :
      (key : Bytes) (xs ys : List (Bytes × A))
      → IsFrom key xs
      → IsFrom key ys
      → IsFrom key (merge xs ys)
  unfolding merge
  merge-IsFrom key [] ys f g = g
  merge-IsFrom key (x ∷ xs) [] f g = f
  merge-IsFrom key (x ∷ xs) (y ∷ ys) f g = elim (Bool-cases (precedes y.0 x.0)) [
    | inl e ↦ rw (merge_second x y xs ys e) g
    | inr e ↦ rw (merge_first x y xs ys e) f
  ]

  merge-IsAscending :
      (xs ys : List (Bytes × A)) → IsAscending xs → IsAscending ys → IsAscending (merge xs ys)
  unfolding merge
  merge-IsAscending [] ys f g = g
  merge-IsAscending (x ∷ xs) [] f g = f
  merge-IsAscending (x ∷ xs) (y ∷ ys) f g = elim (Bool-cases (precedes y.0 x.0)) [
    | inl e ↦ rw (merge_second x y xs ys e) (
      merge-IsFrom y.0 (x ∷ xs) ys (precedes-asymmetric y.0 x.0 e) g.0,
      merge-IsAscending (x ∷ xs) ys f g.1,
    )
    | inr e ↦
        rw (merge_first x y xs ys e)
          (merge-IsFrom x.0 xs (y ∷ ys) f.0 e, merge-IsAscending xs (y ∷ ys) f.1 g)
  ]

  merge-left : (xs ys : List (Bytes × A)) {a : Bytes × A} → Memᴰ a xs → Memᴰ a (merge xs ys)
  unfolding merge
  merge-left [] ys m = elim m [ ]
  merge-left (x ∷ xs) [] m = m
  merge-left (x ∷ xs) (y ∷ ys) m = elim (Bool-cases (precedes y.0 x.0)) [
    | inl e ↦ rw (merge_second x y xs ys e) (Memᴰ.tail (merge-left (x ∷ xs) ys m))
    | inr e ↦ rw (merge_first x y xs ys e) (elim (Memᴰ.cases_cons m) [
      | inl here ↦ Memᴰ.head here
      | inr m' ↦ Memᴰ.tail (merge-left xs (y ∷ ys) m')
    ])
  ]

  merge-right : (xs ys : List (Bytes × A)) {a : Bytes × A} → Memᴰ a ys → Memᴰ a (merge xs ys)
  unfolding merge
  merge-right [] ys m = m
  merge-right (x ∷ xs) [] m = elim m [ ]
  merge-right (x ∷ xs) (y ∷ ys) m = elim (Bool-cases (precedes y.0 x.0)) [
    | inr e ↦ rw (merge_first x y xs ys e) (Memᴰ.tail (merge-right xs (y ∷ ys) m))
    | inl e ↦ rw (merge_second x y xs ys e) (elim (Memᴰ.cases_cons m) [
      | inl here ↦ Memᴰ.head here
      | inr m' ↦ Memᴰ.tail (merge-right (x ∷ xs) ys m')
    ])
  ]

  merge-cases :
      (xs ys : List (Bytes × A)) {a : Bytes × A} → Memᴰ a (merge xs ys) → Memᴰ a xs ⊎ Memᴰ a ys
  unfolding merge
  merge-cases [] ys m = inr m
  merge-cases (x ∷ xs) [] m = inl m
  merge-cases (x ∷ xs) (y ∷ ys) m = elim (Bool-cases (precedes y.0 x.0)) [
    | inl e ↦ elim (Memᴰ.cases_cons (rw (merge_second x y xs ys e) at m)) [
      | inl here ↦ inr (Memᴰ.head here)
      | inr m' ↦ elim (merge-cases (x ∷ xs) ys m') [ inl l ↦ inl l | inr r ↦ inr (Memᴰ.tail r) ]
    ]
    | inr e ↦ elim (Memᴰ.cases_cons (rw (merge_first x y xs ys e) at m)) [
      | inl here ↦ inl (Memᴰ.head here)
      | inr m' ↦ elim (merge-cases xs (y ∷ ys) m') [ inl l ↦ inl (Memᴰ.tail l) | inr r ↦ inr r ]
    ]
  ]

module _ (Y : Yaml) where
  open Y use {Node, print, members}

  -- A node is a member of itself under its prefix, and so are the members of a map's values, under the
  -- value's key.
  pub data Member : Node → Bytes → Bytes × Node → Type 0 where
    itself : {node : Node} {prefix : Bytes} → Member node prefix (prefix, node)
    below :
        {node : Node} {prefix : Bytes} {m : Bytes × Node} {pairs : List (Node × Node)}
        (key val : Node)
        → members node ≡ some pairs
        → Memᴰ (key, val) pairs
        → Member val (key_under prefix (print key)) m
        → Member node prefix m

  -- A member of the value of one of the pairs.
  record Under (prefix : Bytes) (pairs : List (Node × Node)) (m : Bytes × Node) : Type 0 where
    key : Node
    val : Node
    among : Memᴰ (key, val) pairs
    member : Member val (key_under prefix (print key)) m

  Under-cases :
      {prefix : Bytes} {k v : Node} {rest : List (Node × Node)} {m : Bytes × Node}
      → Under prefix ((k, v) ∷ rest) m
      → Member v (key_under prefix (print k)) m ⊎ Under prefix rest m
  Under-cases {prefix} {m} u = elim (Memᴰ.cases_cons u.among) [
    | inl e ↦ inl (subst (λ pair. Member pair.1 (key_under prefix (print pair.0)) m) e u.member)
    | inr among ↦ inr (record { key = u.key; val = u.val; among = among; member = u.member })
  ]

  itself_only :
      {node : Node} {prefix : Bytes} {m : Bytes × Node}
      → Memᴰ m ((prefix, node) ∷ [])
      → Member node prefix m
  itself_only {node} {prefix} x = elim (Memᴰ.cases_cons x) [
    | inl e ↦ subst (λ m. Member node prefix m) (sym e) itself
    | inr y ↦ elim y [ ]
  ]

  Member-cases :
      {node : Node} {prefix : Bytes} {m : Bytes × Node}
      → Member node prefix m
      → Memᴰ m ((prefix, node) ∷ [])
        ⊎ ((pairs : List (Node × Node)) × (members node ≡ some pairs) × Under prefix pairs m)
  Member-cases itself = inl (Memᴰ.head refl)
  Member-cases (below key val e among member) =
      inr (_, e, record { key = key; val = val; among = among; member = member })

  -- The members, each of them, in the order of their names.
  pub record Lists (node : Node) (prefix : Bytes) (found : List (Bytes × Node)) : Type 0 where
    pub ascending : IsAscending found
    pub sound : (m : Bytes × Node) → Memᴰ m found → Member node prefix m
    pub complete : (m : Bytes × Node) → Member node prefix m → Memᴰ m found

  -- What the loop adds to what has been found.
  record Added (prefix : Bytes) (pairs : List (Node × Node)) (found result : List (Bytes × Node))
      : Type 0 where
    ascending : IsAscending result
    sound : (m : Bytes × Node) → Memᴰ m result → Memᴰ m found ⊎ Under prefix pairs m
    keeps : (m : Bytes × Node) → Memᴰ m found → Memᴰ m result
    adds : (m : Bytes × Node) → Under prefix pairs m → Memᴰ m result

  leaf-Lists :
      {node : Node} {prefix : Bytes} → members node ≡ none → Lists node prefix ((prefix, node) ∷ [])
  leaf-Lists e = record {
    ascending = (tt, tt);
    sound = λ m x. itself_only x;
    complete = λ m x. elim (Member-cases x) [
      | inl here ↦ here
      | inr (pairs, e', u) ↦ absurd (cc (sym e ∙ e'))
    ];
  }

  map-Lists :
      {node : Node} {prefix : Bytes} (pairs : List (Node × Node)) {result : List (Bytes × Node)}
      → members node ≡ some pairs
      → Added prefix pairs ((prefix, node) ∷ []) result
      → Lists node prefix result
  map-Lists {prefix} pairs e a = record {
    ascending = a.ascending;
    sound = λ m x. elim (a.sound m x) [
      | inl here ↦ itself_only here
      | inr u ↦ below u.key u.val e u.among u.member
    ];
    complete = λ m x. elim (Member-cases x) [
      | inl here ↦ a.keeps m here
      | inr (pairs', e', u) ↦
          let same : pairs' ≡ pairs = ground (arith, e, e') in
          a.adds m (subst (λ ps. Under prefix ps m) same u)
    ];
  }

  module _ (extract : Node → Bytes → Run (List (Bytes × Node))) (prefix : Bytes) where
    merge_members-Added :
        (pairs : List (Node × Node)) (found : List (Bytes × Node))
        → IsAscending found
        → ((key val : Node)
            → Memᴰ (key, val) pairs
            → Yields
                (Lists val (key_under prefix (print key)))
                (extract val (key_under prefix (print key))))
        → Yields (Added prefix pairs found) (merge_members Y extract prefix pairs found)
    unfolding merge_members
    merge_members-Added [] found up each = yields (record {
      ascending = up;
      sound = λ m x. inl x;
      keeps = λ m x. x;
      adds = λ m u. elim u.among [ ];
    })
    merge_members-Added ((key, val) ∷ rest) found up each =
        Yields-bind (each key val (Memᴰ.head refl)) λ sub s.
          Yields-weaken
            (merge_members-Added rest (merge found sub) (merge-IsAscending found sub up s.ascending)
              λ k v x. each k v (Memᴰ.tail x))
            λ r a. record {
              ascending = a.ascending;
              sound = λ m x. elim (a.sound m x) [
                | inl y ↦ elim (merge-cases found sub y) [
                  | inl z ↦ inl z
                  | inr z ↦ inr (record {
                    key = key;
                    val = val;
                    among = Memᴰ.head refl;
                    member = s.sound m z;
                  })
                ]
                | inr u ↦ inr (record {
                  key = u.key;
                  val = u.val;
                  among = Memᴰ.tail u.among;
                  member = u.member;
                })
              ];
              keeps = λ m x. a.keeps m (merge-left found sub x);
              adds = λ m u. elim (Under-cases u) [
                | inl x ↦ a.keeps m (merge-right found sub (s.complete m x))
                | inr u' ↦ a.adds m u'
              ];
            }

  module _ (depth : Node → ℕ)
      (shallower : (node : Node) (pairs : List (Node × Node))
        → members node ≡ some pairs
        → (key val : Node) → Memᴰ (key, val) pairs
        → depth val < depth node) where
    -- With fuel for the depth of a node whose maps are nested to a finite depth, `ExtractMembers` returns
    -- every member at every depth of the node under its name, and nothing else, ordered by the names.
    pub extract_members-Lists :
        (fuel : ℕ) (node : Node) (prefix : Bytes)
        → depth node < fuel
        → Yields (Lists node prefix) (extract_members Y fuel node prefix)
    unfolding extract_members
    extract_members-Lists zero node prefix h = absurd (omega (arith, h))
    extract_members-Lists (suc fuel) node prefix h = elim (Option-cases (members node)) [
      | inl e ↦ rw (e, extract_members) (yields (leaf-Lists e))
      | inr (pairs, e) ↦
          rw (e, extract_members)
            (Yields-weaken
              (merge_members-Added (extract_members Y fuel) prefix pairs ((prefix, node) ∷ [])
                (tt, tt)
                λ k v x.
                  extract_members-Lists fuel v (key_under prefix (print k))
                    (omega (arith, h, shallower node pairs e k v x)))
              λ r a. map-Lists pairs e a)
    ]
