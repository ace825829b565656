-- ===== src/Config/Loading.antt =====
-- What `LoadYaml` does to the variables.
use echo_web_server.Prelude.{
  ℕ, ◌<◌, ◌≡◌, refl, sym, ap, ◌∙◌, List, [], ◌∷◌, none, some, inl, inr, ◌⊎◌, ◌≢◌, Option-cases,
}
use mathlib.Core.Path.{subst}
use mathlib.Core.List.{Memᴰ}
use echo_web_server.Run.{Bytes, Exception, Yields, yields, Yields-bind}
use echo_web_server.Config.{Yaml}
use echo_web_server.Config.Members.{VarBase, lookup_base, load_members, load_yaml}
use echo_web_server.Config.Listing.{Member, extract_members-Lists}

module _ (Y : Yaml) {S : Type 0} (vars : List (Bytes × VarBase S)) (P : S → Type 0) where
  open Y use {Node, print, members}

  -- Setting the variable of a member, if there is one, keeps the predicate.
  abbrev pub IsKept : Bytes × Node → Type 0
  IsKept m =
      (var : VarBase S) (s : S) → lookup_base m.0 vars ≡ some var → P s → P (var (print m.1) s).1

  -- Setting the variable of the member makes it hold.
  abbrev pub IsMade : Bytes × Node → Type 0
  IsMade m =
      (var : VarBase S) × (lookup_base m.0 vars ≡ some var)
      × ((s : S) → (var (print m.1) s).0 ≡ none → P (var (print m.1) s).1)

  module _ (c : ℕ) (key : Bytes) (node : Node) (rest : List (Bytes × Node)) (s : S) where
    load_unknown :
        lookup_base (c ∷ key) vars ≡ none
        → load_members Y ((c ∷ key, node) ∷ rest) vars s ≡ load_members Y rest vars s
    unfolding load_members
    load_unknown e = rw (e, load_members) refl

    module _ (var : VarBase S) (e : lookup_base (c ∷ key) vars ≡ some var) where
      load_set :
          (var (print node) s).0 ≡ none
          → load_members Y ((c ∷ key, node) ∷ rest) vars s
            ≡ load_members Y rest vars (var (print node) s).1
      unfolding load_members
      load_set f = rw (e, f, load_members) refl

      load_refused :
          (x : Exception)
          → (var (print node) s).0 ≡ some x
          → load_members Y ((c ∷ key, node) ∷ rest) vars s ≡ (some x, (var (print node) s).1)
      unfolding load_members
      load_refused x f = rw (e, f, load_members) refl

  load_members-keeps :
      (found : List (Bytes × Node)) (s : S)
      → ((m : Bytes × Node) → Memᴰ m found → IsKept m)
      → P s
      → P (load_members Y found vars s).1
  unfolding load_members
  load_members-keeps [] s each p = p
  load_members-keeps (([], node) ∷ rest) s each p =
      load_members-keeps rest s (λ m x. each m (Memᴰ.tail x)) p
  load_members-keeps ((c ∷ key, node) ∷ rest) s each p =
      elim (Option-cases (lookup_base (c ∷ key) vars)) [
        | inl e ↦
            rw (load_unknown c key node rest s e)
              (load_members-keeps rest s (λ m x. each m (Memᴰ.tail x)) p)
        | inr (var, e) ↦
            let p' = each (c ∷ key, node) (Memᴰ.head refl) var s e p in
            elim (Option-cases (var (print node) s).0) [
              | inl f ↦
                  rw (load_set c key node rest s var e f) (
                    load_members-keeps rest (var (print node) s).1 (λ m x. each m (Memᴰ.tail x)) p')
              | inr (x, f) ↦ rw (load_refused c key node rest s var e x f) p'
            ]
      ]

  -- Nothing is thrown, and then the predicate holds.
  abbrev Sets : List (Bytes × Node) → S → Type 0
  Sets found s = (load_members Y found vars s).0 ≡ none → P (load_members Y found vars s).1

  -- A member with a known variable, at the front.
  load_first :
      (c : ℕ) (key : Bytes) (node : Node) (rest : List (Bytes × Node)) (s : S)
      → ((m : Bytes × Node) → Memᴰ m rest → IsKept m)
      → IsMade (c ∷ key, node)
      → Sets ((c ∷ key, node) ∷ rest) s
  load_first c key node rest s each (var, e, made) fine =
      elim (Option-cases (var (print node) s).0) [
        | inl f ↦
            rw (load_set c key node rest s var e f)
              (load_members-keeps rest (var (print node) s).1 each (made s f))
        | inr (x, f) ↦
            absurd (cc (sym fine ∙ ap (λ r. r.0) (load_refused c key node rest s var e x f)))
      ]

  load_members-Sets :
      (found : List (Bytes × Node)) (s : S) (c : ℕ) (key : Bytes) (node : Node)
      → ((m : Bytes × Node) → Memᴰ m found → IsKept m)
      → Memᴰ (c ∷ key, node) found
      → IsMade (c ∷ key, node)
      → Sets found s
  unfolding load_members
  load_members-Sets [] s c key node each m made fine = elim m [ ]
  load_members-Sets (x ∷ rest) s c key node each (Memᴰ.head e) made fine =
      subst (λ y. Sets (y ∷ rest) s) e
        (load_first c key node rest s (λ m x. each m (Memᴰ.tail x)) made) fine
  load_members-Sets (([], n) ∷ rest) s c key node each (Memᴰ.tail m) made fine =
      load_members-Sets rest s c key node (λ m x. each m (Memᴰ.tail x)) m made fine
  load_members-Sets ((d ∷ k, n) ∷ rest) s c key node each (Memᴰ.tail m) made fine =
      let later : (s' : S) → Sets rest s' =
        λ s'. load_members-Sets rest s' c key node (λ m x. each m (Memᴰ.tail x)) m made in
      elim (Option-cases (lookup_base (d ∷ k) vars)) [
        | inl e ↦ subst (λ r. r.0 ≡ none → P r.1) (sym (load_unknown d k n rest s e)) (later s) fine
        | inr (var, e) ↦ elim (Option-cases (var (print n) s).0) [
          | inl f ↦
              subst (λ r. r.0 ≡ none → P r.1) (sym (load_set d k n rest s var e f))
                (later (var (print n) s).1) fine
          | inr (x, f) ↦
              absurd (cc (sym fine ∙ ap (λ r. r.0) (load_refused d k n rest s var e x f)))
        ]
      ]

  module _ (depth : Node → ℕ)
      (shallower : (node : Node) (pairs : List (Node × Node))
        → members node ≡ some pairs
        → (key val : Node) → Memᴰ (key, val) pairs
        → depth val < depth node) where
    -- `LoadYaml` of a node whose maps are nested to a finite depth returns. What setting the variable of
    -- one of the members makes true, and setting the variable of any other member keeps, is true
    -- afterwards, unless a variable has refused its text.
    pub load_yaml_sets :
        (fuel : ℕ) (root : Node) (s : S) (c : ℕ) (key : Bytes) (node : Node)
        → depth root < fuel
        → ((m : Bytes × Node) → Member Y root [] m → IsKept m)
        → Member Y root [] (c ∷ key, node)
        → IsMade (c ∷ key, node)
        → Yields (λ r. (r.0 ≢ none) ⊎ P r.1) (load_yaml Y fuel root vars s)
    unfolding load_yaml
    load_yaml_sets fuel root s c key node h each at made =
        Yields-bind (extract_members-Lists Y depth shallower fuel root [] h) λ found l.
          let sets =
            load_members-Sets found s c key node (λ m x. each m (l.sound m x)) (l.complete _ at)
              made in
          yields (elim (Option-cases (load_members Y found vars s).0) [
            | inl fine ↦ inr (sets fine)
            | inr (x, f) ↦ inl (λ fine. cc (sym fine ∙ f))
          ])

    -- What setting the variable of any member keeps is kept, thrown or not.
    pub load_yaml_keeps :
        (fuel : ℕ) (root : Node) (s : S)
        → depth root < fuel
        → ((m : Bytes × Node) → Member Y root [] m → IsKept m)
        → P s
        → Yields (λ r. P r.1) (load_yaml Y fuel root vars s)
    unfolding load_yaml
    load_yaml_keeps fuel root s h each p =
        Yields-bind (extract_members-Lists Y depth shallower fuel root [] h)
          λ found l. yields (load_members-keeps found s (λ m x. each m (l.sound m x)) p)
