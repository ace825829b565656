-- ===== src/Config/Lists.antt =====
-- Lists of configured values as text: what is written is read back, except an empty list.
use echo_web_server.Prelude.{
  ◌≡◌, refl, ap, ◌∙◌, List, [], ◌∷◌, ◌++◌, some, append-nil, append_assoc,
}
use echo_web_server.Run.{Bytes, codes, invalid_argument, ok, returned, raise}
use echo_web_server.Config.{Yaml, YamlLaws}
use echo_web_server.Config.Conversion.{
  Converter, convert_elements, list_from_string, push_all, list_to_string, list_converter,
}

module _ (Y : Yaml) where
  open Y use {Node, load, print, null, push_back, elements}

  -- The value is written as a text that the library loads as a node, and what it prints of the node is
  -- read as the value.
  pub record Keeps {T : Type 0} (c : Converter T) (val : T) : Type 0 where
    pub str : Bytes
    pub node : Node
    pub writes : c.to_string val ≡ ok str
    pub loads : load str ≡ returned node
    pub reads_back : c.from_string (print node) ≡ returned val

  abbrev pub AllKept : {T : Type 0} → Converter T → List T → Type 0
  AllKept c [] = Unit {0}
  AllKept c (val ∷ vals) = Keeps c val × AllKept c vals

  -- A sequence of the elements `done` and of nodes from which the values are read.
  record Pushed {T : Type 0} (c : Converter T) (vals : List T) (done : List Node) (node : Node)
      : Type 0 where
    result : Node
    new : List Node
    pushes : push_all Y c.to_string vals node ≡ ok result
    holds : elements result ≡ some (done ++ new)
    converts : convert_elements Y c.from_string new ≡ returned vals

  module _ (laws : YamlLaws Y) {T : Type 0} (c : Converter T) where
    push_all-Pushed :
        (vals : List T) (done : List Node) (node : Node)
        → AllKept c vals
        → elements node ≡ some done
        → Pushed c vals done node
    unfolding push_all convert_elements
    push_all-Pushed [] done node h e = record {
      result = node;
      new = [];
      pushes = refl;
      holds = rw (append-nil done) e;
      converts = refl;
    }
    push_all-Pushed (val ∷ vals) done node (k, h) e =
        let rest =
          push_all-Pushed vals (done ++ k.node ∷ []) (push_back node k.node) h
            (laws.more node k.node done e) in
        record {
          result = rest.result;
          new = k.node ∷ rest.new;
          pushes = rw (k.writes, k.loads) rest.pushes;
          holds = rest.holds ∙ ap some (append_assoc done (k.node ∷ []) rest.new);
          converts = rw (k.reads_back, rest.converts) refl;
        }

    -- The first element makes the empty node a sequence.
    push_all-first :
        (val : T) (vals : List T) → AllKept c (val ∷ vals) → Pushed c (val ∷ vals) [] null
    unfolding push_all convert_elements
    push_all-first val vals (k, h) =
        let rest =
          push_all-Pushed vals (k.node ∷ []) (push_back null k.node) h (laws.first k.node) in
        record {
          result = rest.result;
          new = k.node ∷ rest.new;
          pushes = rw (k.writes, k.loads) rest.pushes;
          holds = rest.holds;
          converts = rw (k.reads_back, rest.converts) refl;
        }

    reads_list :
        (node : Node) (ns : List Node) (vals : List T)
        → elements node ≡ some ns
        → convert_elements Y c.from_string ns ≡ returned vals
        → list_from_string Y c.from_string (print node) ≡ returned vals
    unfolding list_from_string
    reads_list node ns vals e h = rw (laws.reads node, e) h

  -- With a library as documented and a converter that keeps each element, the converter of lists keeps
  -- every list that is not empty, so lists of lists as well.
  pub list_converter-Keeps :
      YamlLaws Y
      → {T : Type 0} (c : Converter T) (val : T) (vals : List T) → AllKept c (val ∷ vals)
      → Keeps (list_converter Y c) (val ∷ vals)
  unfolding list_converter list_to_string
  list_converter-Keeps laws c val vals h =
      let p = push_all-first laws c val vals h in
      record {
        str = print p.result;
        node = p.result;
        writes = rw p.pushes refl;
        loads = laws.reads p.result;
        reads_back = reads_list laws c p.result p.new (val ∷ vals) p.holds p.converts;
      }

  -- An empty list is written as the empty node, which is no sequence: it is refused when it is read.
  pub empty_list-refused :
      YamlLaws Y
      → {T : Type 0} (c : Converter T)
      → ((list_converter Y c).to_string [] ≡ ok (print null))
        × ((list_converter Y c).from_string (print null)
            ≡ raise (invalid_argument (codes "Mismatched type: '" ++ (print null ++ codes "'"))))
  unfolding list_converter list_to_string list_from_string push_all
  empty_list-refused laws c = (refl, rw (laws.reads null, laws.no_elements) refl)
