-- ===== src/Config/Members.antt =====
-- `ExtractMembers` and `Config` of src/config/config.cpp.
use echo_web_server.Prelude.{
  ℕ, zero, suc, Bool, true, false, List, [], ◌∷◌, ◌++◌, Option, none, some, ltb, ◌==◌,
  if◌then◌else◌,
}
use echo_web_server.Run.{Bytes, Exception, Run, ok, out_of_fuel, ◌>>=◌}
use echo_web_server.Http.{equal}
use echo_web_server.Config.{Yaml}

-- `<` of `std::string`.
unfoldable pub precedes : Bytes → Bytes → Bool
precedes s [] = false
precedes [] (d ∷ t) = true
precedes (c ∷ s) (d ∷ t) =
    let rest = precedes s t in if ltb c d then true else if c == d then rest else false

-- `prefix.empty() ? key : prefix + "." + key`
abbrev pub key_under : Bytes → Bytes → Bytes
key_under [] key = key
key_under (c ∷ prefix) key = (c ∷ prefix) ++ b'.' ∷ key

-- `std::list::merge`: an element of the second list goes first if it is before the first list's.
unfoldable pub merge : {A : Type 0} → List (Bytes × A) → List (Bytes × A) → List (Bytes × A)
unfolding precedes
merge [] ys = ys
merge (x ∷ xs) [] = x ∷ xs
merge (x ∷ xs) (y ∷ ys) = elim (precedes y.0 x.0) [
  | true ↦ y ∷ merge (x ∷ xs) ys
  | false ↦ x ∷ merge xs (y ∷ ys)
]

module _ (Y : Yaml) where
  open Y use {Node, print, members}

  -- The loop over the pairs of a map, with the call for the value of a pair.
  unfoldable pub merge_members :
      (Node → Bytes → Run (List (Bytes × Node)))
      → Bytes
      → List (Node × Node)
      → List (Bytes × Node)
      → Run (List (Bytes × Node))
  unfolding merge
  merge_members extract prefix [] found = ok found
  merge_members extract prefix ((key, val) ∷ rest) found = do
    sub_members ← extract val (key_under prefix (print key))
    merge_members extract prefix rest (merge found sub_members)

  -- On fuel for the depth of the maps.
  unfoldable pub extract_members : ℕ → Node → Bytes → Run (List (Bytes × Node))
  unfolding merge_members
  extract_members zero node prefix = out_of_fuel
  extract_members (suc fuel) node prefix = elim (members node) [
    | none ↦ ok ((prefix, node) ∷ [])
    | some pairs ↦ merge_members (extract_members fuel) prefix pairs ((prefix, node) ∷ [])
  ]

-- `VarBase::FromString` of a variable, as what it does to the program's state.
abbrev pub VarBase : Type 0 → Type 0
VarBase S = Bytes → S → Option Exception × S

-- `LookupBase`
unfoldable pub lookup_base : {S : Type 0} → Bytes → List (Bytes × VarBase S) → Option (VarBase S)
unfolding equal
lookup_base name [] = none
lookup_base name ((key, var) ∷ vars) =
    let rest = lookup_base name vars in if equal key name then some var else rest

module _ (Y : Yaml) {S : Type 0} where
  open Y use {Node, print}

  -- The loop of `LoadYaml`: a variable that refuses its text ends it.
  unfoldable pub load_members :
      List (Bytes × Node) → List (Bytes × VarBase S) → S → Option Exception × S
  unfolding lookup_base
  load_members [] vars s = (none, s)
  load_members (([], node) ∷ rest) vars s = load_members rest vars s
  load_members ((c ∷ key, node) ∷ rest) vars s = elim (lookup_base (c ∷ key) vars) [
    | none ↦ load_members rest vars s
    | some var ↦
        let r = var (print node) s in
        elim r.0 [ none ↦ load_members rest vars r.1 | some x ↦ (some x, r.1) ]
  ]

  unfoldable pub load_yaml : ℕ → Node → List (Bytes × VarBase S) → S → Run (Option Exception × S)
  unfolding extract_members load_members
  load_yaml fuel root vars s = do
    found ← extract_members Y fuel root []
    ok (load_members found vars s)
