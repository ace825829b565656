-- ===== src/Config/Listeners.antt =====
-- Which listeners of a variable are called, and when.
use echo_web_server.Prelude.{
  ℕ, suc, ◌+◌, ◌%◌, ◌^◌, ◌<◌, ◌≡◌, refl, sym, ap, ◌∙◌, Bool, List, [], ◌∷◌, ◌++◌, arith, ◌==◌,
  if◌then◌else◌, append-nil, append_assoc, if_true, if_false, Bool-cases, inl, inr, ==_self,
  ne→not_==,
}
use echo_web_server.Config.Variables.{
  OnChange, Var, Told, printed, with_listener, without, notify, set_value, add_listener,
  remove_listener,
}

-- A call: the listener's key, the old and the new value.
abbrev pub Call : Type 0 → Type 0
Call T = ℕ × (T × T)

module _ {T : Type 0} {S : Type 0} where
  -- The listener, with its calls recorded.
  abbrev pub traced : ℕ × OnChange T S → ℕ × OnChange T (S × List (Call T))
  traced (key, listener) = (
    key,
    λ old val s.
        ((listener old val s.0).0, ((listener old val s.0).1, s.1 ++ (key, (old, val)) ∷ [])),
  )

  abbrev pub all_traced : List (ℕ × OnChange T S) → List (ℕ × OnChange T (S × List (Call T)))
  all_traced [] = []
  all_traced (l ∷ ls) = traced l ∷ all_traced ls

  abbrev pub calls : T → T → List (ℕ × OnChange T S) → List (Call T)
  calls old val [] = []
  calls old val ((key, listener) ∷ rest) = (key, (old, val)) ∷ calls old val rest

  abbrev pub with_calls : List (Call T) → Told S → Told (S × List (Call T))
  with_calls cs w = record { state = (w.state, cs); errors = w.errors }

  abbrev pub traced_var : Var T S → Var T (S × List (Call T))
  traced_var v = record {
    name = v.name;
    description = v.description;
    val = v.val;
    listeners = all_traced v.listeners;
  }

  notify-calls :
      (old val : T) (ls : List (ℕ × OnChange T S)) (cs : List (Call T)) (w : Told S)
      → notify old val (all_traced ls) (with_calls cs w)
        ≡ with_calls (cs ++ calls old val ls) (notify old val ls w)
  unfolding notify
  notify-calls old val [] cs w = ap (λ c. with_calls c w) (sym (append-nil cs))
  notify-calls old val ((key, listener) ∷ rest) cs w =
      let r = listener old val w.state in
      let w' : Told S = record { state = r.1; errors = w.errors ++ printed r.0 } in
      notify-calls old val rest (cs ++ (key, (old, val)) ∷ []) w'
      ∙ ap (λ c. with_calls c (notify old val rest w'))
          (append_assoc cs ((key, (old, val)) ∷ []) (calls old val rest))

  -- `SetValue` stores the value. When it differs from the old one, each listener is called once, with the
  -- old and the new value, whether the others throw or not; otherwise none is called.
  pub set_value-calls :
      (differs : T → T → Bool) (val : T) (v : Var T S) (cs : List (Call T)) (w : Told S)
      → set_value differs val (traced_var v) (with_calls cs w) ≡ (
        traced_var (record v { val = val }),
        with_calls
            (cs ++ (if differs val v.val then calls v.val val v.listeners else []))
            (set_value differs val v w).1,
      )
  unfolding set_value
  set_value-calls differs val v cs w =
      ap (λ u. (traced_var (record v { val = val }), u))
        (elim (Bool-cases (differs val v.val)) [
          | inl y ↦ rw y (notify-calls v.val val v.listeners cs w)
          | inr n ↦ rw n (ap (λ c. with_calls c w) (sym (append-nil cs)))
        ])

module _ {A : Type 0} where
  abbrev pub KeysBelow : ℕ → List (ℕ × A) → Type 0
  KeysBelow next [] = Unit {0}
  KeysBelow next ((key, l) ∷ rest) = (key < next) × KeysBelow next rest

  with_listener-new :
      (key : ℕ) (l : A) (ls : List (ℕ × A))
      → KeysBelow key ls
      → with_listener key l ls ≡ ls ++ (key, l) ∷ []
  with_listener-new key l [] h = refl
  with_listener-new key l ((k, m) ∷ rest) h =
      if_false _ _ (k == key) (ne→not_== k key λ e. omega (arith, h.0, e))
      ∙ ap (λ more. (k, m) ∷ more) (with_listener-new key l rest h.1)

  without-last :
      (key : ℕ) (l : A) (ls : List (ℕ × A))
      → KeysBelow key ls
      → without key (ls ++ (key, l) ∷ []) ≡ ls
  without-last key l [] h = if_true _ _ (key == key) (==_self key)
  without-last key l ((k, m) ∷ rest) h =
      if_false _ _ (k == key) (ne→not_== k key λ e. omega (arith, h.0, e))
      ∙ ap (λ more. (k, m) ∷ more) (without-last key l rest h.1)

  KeysBelow-append :
      (key : ℕ) (l : A) (ls : List (ℕ × A))
      → KeysBelow key ls
      → KeysBelow (suc key) (ls ++ (key, l) ∷ [])
  KeysBelow-append key l [] h = (omega arith, tt)
  KeysBelow-append key l ((k, m) ∷ rest) h = (omega (arith, h.0), KeysBelow-append key l rest h.1)

module _ {T : Type 0} {S : Type 0} where
  calls-last :
      (old val : T) (key : ℕ) (l : OnChange T S) (ls : List (ℕ × OnChange T S))
      → calls old val (ls ++ (key, l) ∷ []) ≡ calls old val ls ++ (key, (old, val)) ∷ []
  calls-last old val key l [] = refl
  calls-last old val key l ((k, m) ∷ rest) =
      ap (λ cs. (k, (old, val)) ∷ cs) (calls-last old val key l rest)

  -- `AddListener`, while its counter of keys is above all keys and has not wrapped around: the counter
  -- stays above all keys, the new listener is called behind the others when the value changes, and
  -- `RemoveListener` with the key that was returned leaves the variable as it was.
  pub add_listener_behaviour :
      (listener : OnChange T S) (next : ℕ) (v : Var T S)
      → KeysBelow next v.listeners
      → suc next < 2 ^ 64
      → KeysBelow (add_listener listener next v).1.0 (add_listener listener next v).1.1.listeners
        × ((old val : T)
            → calls old val (add_listener listener next v).1.1.listeners
              ≡ calls old val v.listeners ++ ((add_listener listener next v).0, (old, val)) ∷ [])
        × (remove_listener (add_listener listener next v).0 (add_listener listener next v).1.1 ≡ v)
  unfolding add_listener remove_listener
  add_listener_behaviour listener next v h small =
      let counter : (next + 1) % 2 ^ 64 ≡ suc next = omega (arith, small) in
      rw (counter, with_listener-new next listener v.listeners h)
        (
          KeysBelow-append next listener v.listeners h,
          (λ old val. calls-last old val next listener v.listeners),
          ap (λ ls. record v { listeners = ls }) (without-last next listener v.listeners h),
        )
