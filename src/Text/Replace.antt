-- ===== src/Text/Replace.antt =====
-- `ReplaceAllSubstring` against a relation that says which occurrences are replaced.
use echo_web_server.Prelude.{
  ℕ, zero, suc, ◌+◌, ◌≤◌, ◌<◌, ◌≡◌, ◌≢◌, refl, ap, true, false, [], ◌∷◌, ◌++◌, Option, none, some,
  inl, inr, arith, Bool-cases, Option-cases, length, take, drop, length-drop,
}
use echo_web_server.Run.{Bytes, out_of_fuel, Yields, yields, Yields-bind}
use echo_web_server.Text.{starts_with, map_suc, find, replace_loop, replace_all_substring}

pub starts_with-append : (p s : Bytes) → starts_with p (p ++ s) ≡ true
unfolding starts_with
starts_with-append [] s = refl
starts_with-append (x ∷ p) s = ground (arith, starts_with-append p s)

pub starts_with-drop : (p s : Bytes) → starts_with p s ≡ true → s ≡ p ++ drop (length p) s
unfolding starts_with
starts_with-drop [] s h = refl
starts_with-drop (x ∷ p) [] h = cc
starts_with-drop (x ∷ p) (c ∷ s) h = ground (arith, starts_with-drop p s)

-- No place of `str` is the beginning of `from`.
abbrev pub Lacks : Bytes → Bytes → Type 0
Lacks from str = (n : ℕ) → n ≤ length str → starts_with from (drop n str) ≡ false

-- `from` stands in `str` at `i`, and nowhere before.
pub record FirstAt (from str : Bytes) (i : ℕ) : Type 0 where
  pub inside : i + length from ≤ length str
  pub splits : str ≡ take i str ++ (from ++ drop (i + length from) str)
  pub first : (n : ℕ) → n < i → starts_with from (drop n str) ≡ false

length-starts_with : (p s : Bytes) → starts_with p s ≡ true → length p ≤ length s
unfolding starts_with
length-starts_with [] s h = omega arith
length-starts_with (x ∷ p) [] h = cc
length-starts_with (x ∷ p) (c ∷ s) h = ground (arith, length-starts_with p s)

abbrev FindsFirst : Bytes → Bytes → Option ℕ → Type 0
FindsFirst from str none = Lacks from str
FindsFirst from str (some i) = FirstAt from str i

FirstAt-here : (from str : Bytes) → starts_with from str ≡ true → FirstAt from str 0
FirstAt-here from str h = record {
  inside = omega (arith, length-starts_with from str h);
  splits =
      let e : 0 + length from ≡ length from = omega arith in rw e (starts_with-drop from str h);
  first = λ n lt. absurd (omega arith);
}

FindsFirst-cons :
    (from : Bytes) (c : ℕ) (str : Bytes) (o : Option ℕ)
    → starts_with from (c ∷ str) ≡ false
    → FindsFirst from str o
    → FindsFirst from (c ∷ str) (map_suc o)
FindsFirst-cons from c str none h f = lacks
  where
    lacks : Lacks from (c ∷ str)
    lacks zero le = h
    lacks (suc n) le = f n (omega arith)
FindsFirst-cons from c str (some i) h f = record {
  inside = omega (arith, f.inside);
  splits =
      let e : suc i + length from ≡ suc (i + length from) = omega arith in
      rw e (ap (◌∷◌ c) f.splits);
  first = first;
}
  where
    first : (n : ℕ) → n < suc i → starts_with from (drop n (c ∷ str)) ≡ false
    first zero lt = h
    first (suc n) lt = f.first n (omega arith)

Lacks-nil : (from : Bytes) → starts_with from [] ≡ false → Lacks from []
Lacks-nil from h zero le = h
Lacks-nil from h (suc n) le = h

-- `find` gives the first place where `from` stands, or nothing exactly where it stands nowhere.
pub find-FindsFirst : (from str : Bytes) → FindsFirst from str (find from str)
unfolding find
find-FindsFirst from [] = elim (Bool-cases (starts_with from [])) [
  | inl e ↦ rw e (FirstAt-here from [] e)
  | inr e ↦ rw e (Lacks-nil from e)
]
find-FindsFirst from (c ∷ str) = elim (Bool-cases (starts_with from (c ∷ str))) [
  | inl e ↦ rw e (FirstAt-here from (c ∷ str) e)
  | inr e ↦ rw e (FindsFirst-cons from c str (find from str) e (find-FindsFirst from str))
]

-- `out` is `str` with every occurrence of `from`, taken from the left without overlap, replaced.
pub data Replaced (from to : Bytes) : Bytes → Bytes → Type 0 where
  done : {str : Bytes} → Lacks from str → Replaced from to str str
  more :
      {str rest out : Bytes} (i : ℕ)
      → FirstAt from str i
      → rest ≡ drop (i + length from) str
      → Replaced from to rest out
      → Replaced from to str (take i str ++ (to ++ out))

starts_with-nil : (from : Bytes) → from ≢ [] → starts_with from [] ≡ false
unfolding starts_with
starts_with-nil [] h = absurd (h refl)
starts_with-nil (x ∷ from) h = refl

pub replace_loop-Replaced :
    (fuel : ℕ) (str from to : Bytes)
    → from ≢ []
    → length str < fuel
    → Yields (Replaced from to str) (replace_loop fuel str from to)
unfolding replace_loop
replace_loop-Replaced zero str from to some_from f = absurd (omega arith)
replace_loop-Replaced (suc fuel) [] from to some_from f =
    yields (done (Lacks-nil from (starts_with-nil from some_from)))
replace_loop-Replaced (suc fuel) (c ∷ s) from to some_from f =
    elim (Option-cases (find from (c ∷ s))) [
      | inl e ↦ rw (e, replace_loop) (yields (done (rw e at (find-FindsFirst from (c ∷ s)))))
      | inr (i, e) ↦
          let at : FirstAt from (c ∷ s) i = rw e at (find-FindsFirst from (c ∷ s)) in
          let given : 0 < length from = ground arith in
          rw (e, replace_loop)
            (Yields-bind
              (replace_loop-Replaced fuel (drop (i + length from) (c ∷ s)) from to some_from
                (omega (arith, length-drop (i + length from) (c ∷ s))))
              λ out r. yields (more i at refl r))
    ]

-- `ReplaceAllSubstring` with a `from` that is not empty ends, and gives the text with every occurrence
-- of `from`, taken from the left without overlap, replaced by `to`.
pub replace_all_substring-Replaced :
    (str from to : Bytes)
    → from ≢ []
    → Yields (Replaced from to str) (replace_all_substring str from to)
unfolding replace_all_substring
replace_all_substring-Replaced str from to some_from =
    replace_loop-Replaced (length str + 1) str from to some_from (omega arith)

-- With an empty `from` and a text that is not empty the loop never ends: no number of rounds is enough.
pub replace_loop-diverges :
    (fuel c : ℕ) (s to : Bytes) → replace_loop fuel (c ∷ s) [] to ≡ out_of_fuel
unfolding replace_loop find starts_with
replace_loop-diverges zero c s to = refl
replace_loop-diverges (suc fuel) c s to = rw (replace_loop-diverges fuel c s to)
