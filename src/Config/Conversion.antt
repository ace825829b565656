-- ===== src/Config/Conversion.antt =====
-- `VarConverter` of include/config.h for strings, lists and vectors. The conversion to a string is
-- `noexcept`: an exception of the library ends the program there.
use echo_web_server.Prelude.{zero, suc, List, [], ◌∷◌, ◌++◌, none, some}
use echo_web_server.Run.{
  Bytes, codes, invalid_argument, Run, ok, fault, ◌>>=◌, Try, returned, raise, and_then,
}
use echo_web_server.Config.{Yaml}

-- The two conversions of a type.
pub record Converter (T : Type 0) : Type 0 where
  pub from_string : Bytes → Try T
  pub to_string : T → Run Bytes

-- The text up to its first NUL, which `data()` is taken to end at.
abbrev pub c_string : Bytes → Bytes
c_string [] = []
c_string (zero ∷ s) = []
c_string (suc c ∷ s) = suc c ∷ c_string s

abbrev pub string_converter : Converter Bytes
string_converter = record {
  from_string = λ val. returned (c_string val);
  to_string = λ val. ok (c_string val);
}

abbrev pub or_terminate : {A : Type 0} → Try A → Run A
or_terminate (returned a) = ok a
or_terminate (raise e) = fault

module _ (Y : Yaml) {T : Type 0} where
  open Y use {Node, load, print, null, push_back, elements}

  unfoldable pub convert_elements : (Bytes → Try T) → List Node → Try (List T)
  convert_elements from_string [] = returned []
  convert_elements from_string (child ∷ rest) =
      and_then (from_string (print child))
        λ val. and_then (convert_elements from_string rest) λ vals. returned (val ∷ vals)

  unfoldable pub list_from_string : (Bytes → Try T) → Bytes → Try (List T)
  unfolding convert_elements
  list_from_string from_string str = and_then (load str) λ node. elim (elements node) [
    | none ↦ raise (invalid_argument (codes "Mismatched type: '" ++ (str ++ codes "'")))
    | some children ↦ convert_elements from_string children
  ]

  unfoldable pub push_all : (T → Run Bytes) → List T → Node → Run Node
  push_all to_string [] node = ok node
  push_all to_string (val ∷ vals) node = do
    str ← to_string val
    child ← or_terminate (load str)
    push_all to_string vals (push_back node child)

  unfoldable pub list_to_string : (T → Run Bytes) → List T → Run Bytes
  unfolding push_all
  list_to_string to_string vals = do node ← push_all to_string vals null; ok (print node)

  unfoldable pub list_converter : Converter T → Converter (List T)
  unfolding list_from_string list_to_string
  list_converter c = record {
    from_string = list_from_string c.from_string;
    to_string = list_to_string c.to_string;
  }

  -- A vector is converted as a list with the same elements.
  unfoldable pub vector_from_string : (Bytes → Try T) → Bytes → Try (List T)
  unfolding list_from_string
  vector_from_string from_string str = list_from_string from_string str

  unfoldable pub vector_to_string : (T → Run Bytes) → List T → Run Bytes
  unfolding list_to_string
  vector_to_string to_string vals = list_to_string to_string vals
