-- ===== src/Http/Tables.antt =====
-- The tables of src/http/http.cpp, and maps as lists of pairs.
use echo_web_server.Prelude.{
  ◌≡◌, ◌≢◌, ◌↔◌, refl, true, false, List, [], ◌∷◌, ◌++◌, none, some, inl, inr, arith, Bool-cases,
  Option-cases, if◌then◌else◌,
}
use echo_web_server.Run.{Bytes, codes, returned, raise, invalid_argument}
use echo_web_server.Text.{string_to_upper}
use mathlib.Core.Path.{subst}
use echo_web_server.Text.Lines.{All}
use echo_web_server.Http.{
  Method, get, post, put, patch, delete, Parameters, equal, lookup, emplace, method_to_string,
  methods, string_to_method,
}

pub equal_iff : (s t : Bytes) → (equal s t ≡ true) ↔ (s ≡ t)
unfolding equal
equal_iff [] t = ground arith
equal_iff (c ∷ s) [] = ground arith
equal_iff (c ∷ s) (d ∷ t) = ground (arith, equal_iff s t)

pub equal_self : (a : Bytes) → equal a a ≡ true
equal_self a = (equal_iff a a).1 refl

pub equal_ne : {a b : Bytes} → a ≢ b → equal a b ≡ false
equal_ne {a} {b} h = ground (arith, equal_iff a b)

lookup-append :
    (j key value : Bytes) (m : Parameters)
    → lookup key m ≡ none
    → lookup j (m ++ (key, value) ∷ []) ≡ (if equal key j then some value else lookup j m)
unfolding lookup
lookup-append j key value [] e = refl
lookup-append j key value ((k, v) ∷ m) e =
    ground (arith, equal_iff k key, equal_iff key j, equal_iff k j, lookup-append j key value m)

-- `emplace` gives the key the value only if the key was not there, and changes no other key.
pub lookup-emplace :
    (j key value : Bytes) (m : Parameters)
    → lookup j (emplace key value m) ≡ (
        if equal key j
        then (elim (lookup key m) [ none ↦ some value | some old ↦ some old ])
        else lookup j m)
unfolding emplace
lookup-emplace j key value m = elim (Option-cases (lookup key m)) [
  | inl e ↦ rw (e, emplace) (lookup-append j key value m e)
  | inr (old, e) ↦ ground (arith, equal_iff key j)
]

upper_names : (m : Method) → string_to_upper (method_to_string m) ≡ method_to_string m
unfolding string_to_upper method_to_string
upper_names get = refl
upper_names post = refl
upper_names put = refl
upper_names patch = refl
upper_names delete = refl

-- What holds of every pair of a table holds of what a lookup finds.
pub lookup-All {ℓ κ} :
    {V : Type ℓ} (P : Bytes → V → Type κ) (key : Bytes) {v : V} (m : List (Bytes × V))
    → All (λ r. P r.0 r.1) m
    → lookup key m ≡ some v
    → P key v
unfolding lookup
lookup-All P key [] h e = absurd (cc)
lookup-All P key {v} ((k, w) ∷ m) h e = elim (Bool-cases (equal k key)) [
  | inl same ↦
      let here : w ≡ v = cc (rw same at e) in
      subst (P key) here (subst (λ j. P j w) ((equal_iff k key).0 same) h.0)
  | inr other ↦ lookup-All P key m h.1 (rw other at e)
]

named : (s : Bytes) {m : Method} → lookup s methods ≡ some m → s ≡ method_to_string m
unfolding method_to_string
named s =
    lookup-All (λ k m. k ≡ method_to_string m) s methods (refl, (refl, (refl, (refl, (refl, tt)))))

lookup-method_to_string : (m : Method) → lookup (method_to_string m) methods ≡ some m
unfolding lookup method_to_string
lookup-method_to_string get = refl
lookup-method_to_string post = refl
lookup-method_to_string put = refl
lookup-method_to_string patch = refl
lookup-method_to_string delete = refl

-- `StringToMethod` accepts exactly the texts that are, in upper case, the name of a method, as that
-- method, so it undoes `MethodToString`; on any other text it throws `std::invalid_argument`.
pub string_to_method_iff :
    (s : Bytes) (m : Method)
    → ((string_to_method s ≡ returned m) ↔ (string_to_upper s ≡ method_to_string m))
      × (string_to_method (method_to_string m) ≡ returned m)
      × ((lookup (string_to_upper s) methods ≡ none)
          → string_to_method s
            ≡ raise (
                invalid_argument
                  (codes "Invalid HTTP method: '" ++ (string_to_upper s ++ codes "'"))))
unfolding string_to_method
string_to_method_iff s m = (
  (accepts, accepted s),
  accepted (method_to_string m) (upper_names m),
  λ e. rw (e, string_to_method),
)
  where
    accepted :
        (t : Bytes) → string_to_upper t ≡ method_to_string m → string_to_method t ≡ returned m
    accepted t e =
        let known : lookup (string_to_upper t) methods ≡ some m =
          rw e (lookup-method_to_string m) in
        rw (known, string_to_method)

    accepts : string_to_method s ≡ returned m → string_to_upper s ≡ method_to_string m
    accepts e = elim (Option-cases (lookup (string_to_upper s) methods)) [
      | inl unknown ↦ absurd (cc (rw (unknown, string_to_method) at e))
      | inr (m', known) ↦
          let same : m' ≡ m = ground (arith, rw (known, string_to_method) at e) in
          rw (← same) (named _ known)
    ]
