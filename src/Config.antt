-- ===== src/Config.antt =====
-- include/config.h and src/config/config.cpp: the configuration. The library for YAML is a parameter.
-- Conversion models `VarConverter`, Members and Loading `Config::LoadYaml`, and Variables `Var`.
pub mod Conversion
pub mod Lists
pub mod Members
pub mod Listing
pub mod Loading
pub mod Variables
pub mod Listeners
mod Samples
mod Tests
use echo_web_server.Prelude.{◌≡◌, List, [], ◌∷◌, ◌++◌, Option, none, some}
use echo_web_server.Run.{Bytes, Try, returned}

-- What the program uses of the library: loading a text up to its first NUL, printing, the empty node,
-- `push_back`, and the contents of a sequence and of a map, in order.
pub record Yaml : Type 1 where
  pub Node : Type 0
  pub load : Bytes → Try Node
  pub print : Node → Bytes
  pub null : Node
  pub push_back : Node → Node → Node
  pub elements : Node → Option (List Node)
  pub members : Node → Option (List (Node × Node))

-- What it documents: a printed node is read back, the empty node is no sequence, and `push_back` makes
-- the empty node a sequence and appends to a sequence.
pub record YamlLaws (Y : Yaml) : Type 0 where
  pub reads : (n : Y.Node) → Y.load (Y.print n) ≡ returned n
  pub no_elements : Y.elements Y.null ≡ none
  pub first : (n : Y.Node) → Y.elements (Y.push_back Y.null n) ≡ some (n ∷ [])
  pub more :
      (m n : Y.Node) (ns : List Y.Node)
      → Y.elements m ≡ some ns
      → Y.elements (Y.push_back m n) ≡ some (ns ++ n ∷ [])
