-- ===== src/Config/Samples.antt =====
-- Two small libraries for YAML, for the tests: one of sequences of texts, and one of maps of two pairs.
use echo_web_server.Prelude.{
  ℕ, zero, suc, ◌+◌, ◌<◌, ◌≡◌, refl, sym, ap, ◌∙◌, List, [], ◌∷◌, ◌++◌, Option, none, some, inl,
  inr, arith, append_assoc, append-nil,
}
use mathlib.Core.Path.{subst}
use mathlib.Core.List.{Memᴰ}
use mathlib.Core.List.Memᴰ
use echo_web_server.Run.{Bytes, codes, returned}
use echo_web_server.Config.{Yaml, YamlLaws}

-- A text within a sequence; the texts of a sequence, the last of which stands first.
abbrev encode : Bytes → Bytes
encode [] = 0 ∷ []
encode (c ∷ s) = suc c ∷ encode s

abbrev parts : Bytes → Bytes → List Bytes
parts current [] = []
parts current (zero ∷ s) = parts [] s ++ current ∷ []
parts current (suc c ∷ s) = parts (current ++ c ∷ []) s

abbrev sequence_of : Bytes → Option (List Bytes)
sequence_of [] = none
sequence_of (zero ∷ s) = none
sequence_of (suc c ∷ s) = some (parts [] s)

abbrev pushed_back : Bytes → Bytes → Bytes
pushed_back [] n = 1 ∷ (encode n ++ [])
pushed_back (c ∷ s) n = c ∷ (encode n ++ s)

abbrev pub texts : Yaml
texts = record {
  Node = Bytes;
  load = λ s. returned s;
  print = λ n. n;
  null = [];
  push_back = pushed_back;
  elements = sequence_of;
  members = λ n. none;
}

parts-encode :
    (n current s : Bytes) → parts current (encode n ++ s) ≡ parts [] s ++ (current ++ n) ∷ []
parts-encode [] current s = rw (append-nil current) refl
parts-encode (c ∷ n) current s =
    parts-encode n (current ++ c ∷ []) s
    ∙ ap (λ t. parts [] s ++ t ∷ []) (append_assoc current (c ∷ []) n)

sequence_of-pushed_back :
    (m n : Bytes) (ns : List Bytes)
    → sequence_of m ≡ some ns
    → sequence_of (pushed_back m n) ≡ some (ns ++ n ∷ [])
sequence_of-pushed_back [] n ns e = absurd (cc e)
sequence_of-pushed_back (zero ∷ s) n ns e = absurd (cc e)
sequence_of-pushed_back (suc c ∷ s) n ns e =
    let same : parts [] s ≡ ns = ground (arith, e) in
    ap some (parts-encode n [] s ∙ ap (λ ps. ps ++ n ∷ []) same)

pub texts-laws : YamlLaws texts
texts-laws = record {
  reads = λ n. refl;
  no_elements = refl;
  first = λ n. ap some (parts-encode n [] []);
  more = sequence_of-pushed_back;
}

pub data Tree : Type 0 where
  text : Bytes → Tree
  two : Bytes → Tree → Bytes → Tree → Tree

abbrev pub tree_text : Tree → Bytes
tree_text (text s) = s
tree_text (two k v j w) = codes "{}"

abbrev pub pairs_of : Tree → Option (List (Tree × Tree))
pairs_of (text s) = none
pairs_of (two k v j w) = some ((text k, v) ∷ (text j, w) ∷ [])

abbrev pub trees : Yaml
trees = record {
  Node = Tree;
  load = λ s. returned (text s);
  print = tree_text;
  null = text [];
  push_back = λ m n. m;
  elements = λ n. none;
  members = pairs_of;
}

abbrev pub depth : Tree → ℕ
depth (text s) = 0
depth (two k v j w) = suc (depth v + depth w)

pub shallower :
    (node : Tree) (pairs : List (Tree × Tree))
    → pairs_of node ≡ some pairs
    → (key val : Tree) → Memᴰ (key, val) pairs
    → depth val < depth node
shallower (text s) pairs e key val m = absurd (cc e)
shallower (two k v j w) pairs e key val m =
    let same : (text k, v) ∷ (text j, w) ∷ [] ≡ pairs = ground (arith, e) in
    elim (Memᴰ.cases_cons (subst (λ ps. Memᴰ (key, val) ps) (sym same) m)) [
      | inl here ↦ omega (arith, ap (λ p. depth p.1) here)
      | inr later ↦ elim (Memᴰ.cases_cons later) [
        | inl here ↦ omega (arith, ap (λ p. depth p.1) here)
        | inr end ↦ elim end [ ]
      ]
    ]
