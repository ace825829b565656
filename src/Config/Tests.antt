-- ===== src/Config/Tests.antt =====
-- Tests of the configuration, and its theorems at small libraries and variables.
use echo_web_server.Prelude.{
  ℕ, ◌+◌, ◌≡◌, ◌≢◌, refl, ap, Bool, not, List, [], ◌∷◌, ◌++◌, none, some, inl, inr, ◌⊎◌, arith,
  ◌==◌, Bool-cases,
}
use mathlib.Core.List.{Memᴰ}
use echo_web_server.Run.{Bytes, codes, runtime_error, invalid_argument, ok, Yields, raise}
use echo_web_server.Http.{equal}
use echo_web_server.Config.Conversion.{list_converter, string_converter}
use echo_web_server.Config.Lists.{Keeps, list_converter-Keeps, empty_list-refused}
use echo_web_server.Config.Members.{VarBase, lookup_base, extract_members, load_yaml}
use echo_web_server.Config.Listing.{itself, below, Lists, extract_members-Lists}
use echo_web_server.Config.Loading.{load_yaml_sets}
use echo_web_server.Config.Variables.{OnChange, Var, Told, of_default, set_value, clear_listeners}
use echo_web_server.Config.Listeners.{traced_var, with_calls, set_value-calls}
use echo_web_server.Config.Samples.{
  texts, texts-laws, Tree, tree_text, text, two, trees, depth, shallower,
}

abbrev document : Tree
document =
    two (codes "system") (two (codes "port") (text (codes "80")) (codes "ip") (text (codes "any")))
      (codes "name") (text (codes "echo"))

test_extract_members :
    extract_members trees 3 document []
    ≡ ok (
        ([], document)
        ∷ (codes "name", text (codes "echo"))
        ∷ (codes "system", two (codes "port") (text (codes "80")) (codes "ip") (text (codes "any")))
        ∷ (codes "system.ip", text (codes "any"))
        ∷ (codes "system.port", text (codes "80"))
        ∷ [])
unfolding extract_members
test_extract_members = refl

extract_members-Lists_example :
    Yields (Lists trees document []) (extract_members trees 3 document [])
extract_members-Lists_example =
    extract_members-Lists trees depth shallower 3 document [] (omega arith)

-- One variable, which marks that it has been set.
abbrev mark : VarBase ℕ
mark str s = (none, 1)

abbrev one_variable : List (Bytes × VarBase ℕ)
one_variable = (codes "name", mark) ∷ []

lookup_only :
    (name : Bytes) {var : VarBase ℕ} → lookup_base name one_variable ≡ some var → var ≡ mark
unfolding lookup_base
lookup_only name e = elim (Bool-cases (equal (codes "name") name)) [
  | inl y ↦ let here = rw y at e in ground (arith, here)
  | inr n ↦ let gone = rw n at e in absurd (cc gone)
]

name_known : lookup_base (codes "name") one_variable ≡ some mark
unfolding lookup_base
name_known = refl

load_yaml_sets_example :
    Yields (λ r. (r.0 ≢ none) ⊎ (r.1 ≡ 1)) (load_yaml trees 3 document one_variable 0)
load_yaml_sets_example =
    load_yaml_sets trees one_variable (λ s. s ≡ 1) depth shallower 3 document 0 b'n' (codes "ame")
      (text (codes "echo")) (omega arith)
      (λ m x var s e p. ap (λ v. (v (tree_text m.1) s).1) (lookup_only m.0 e))
      (below (text (codes "name")) (text (codes "echo")) refl (Memᴰ.tail (Memᴰ.head refl)) itself)
      (mark, name_known, λ s fine. refl)

list_converter-Keeps_example :
    Keeps texts (list_converter texts string_converter) (codes "a" ∷ codes "bc" ∷ [])
list_converter-Keeps_example =
    list_converter-Keeps texts texts-laws string_converter (codes "a") (codes "bc" ∷ [])
      (kept_a, (kept_bc, tt))
  where
    kept_a : Keeps texts string_converter (codes "a")
    kept_a = record {
      str = codes "a";
      node = codes "a";
      writes = refl;
      loads = refl;
      reads_back = refl;
    }

    kept_bc : Keeps texts string_converter (codes "bc")
    kept_bc = record {
      str = codes "bc";
      node = codes "bc";
      writes = refl;
      loads = refl;
      reads_back = refl;
    }

empty_list-refused_example :
    ((list_converter texts string_converter).to_string [] ≡ ok [])
    × ((list_converter texts string_converter).from_string []
        ≡ raise (invalid_argument (codes "Mismatched type: '" ++ ([] ++ codes "'"))))
empty_list-refused_example = empty_list-refused texts texts-laws string_converter

abbrev differs : ℕ → ℕ → Bool
differs a b = not (a == b)

-- A listener that throws, and one that adds the new value.
abbrev throws : OnChange ℕ ℕ
throws old val s = (some (runtime_error []), s)

abbrev adds : OnChange ℕ ℕ
adds old val s = (none, s + val)

abbrev port : Var ℕ ℕ
port = record {
  name = codes "port";
  description = [];
  val = 80;
  listeners = (0, throws) ∷ (1, adds) ∷ [];
}

abbrev quiet : Told ℕ
quiet = record { state = 0; errors = [] }

test_set_value : (set_value differs 8080 port quiet).1.state ≡ 8080
unfolding set_value
test_set_value = refl

test_set_value_same : (set_value differs 80 port quiet).1.errors ≡ []
unfolding set_value
test_set_value_same = refl

test_clear_listeners : clear_listeners port ≡ of_default (codes "port") 80 []
unfolding clear_listeners of_default
test_clear_listeners = refl

set_value-calls_example : set_value differs 8080 (traced_var port) (with_calls [] quiet) ≡ (
  traced_var (record port { val = 8080 }),
  with_calls ([] ++ (0, (80, 8080)) ∷ (1, (80, 8080)) ∷ []) (set_value differs 8080 port quiet).1,
)
set_value-calls_example = set_value-calls differs 8080 port [] quiet
