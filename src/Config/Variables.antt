-- ===== src/Config/Variables.antt =====
-- `Var` of include/config.h. What a listener does is a parameter: it changes the program's state and
-- may throw. The entries of the map of listeners are in an order of iteration.
use echo_web_server.Prelude.{
  ℕ, ◌+◌, ◌%◌, ◌^◌, Bool, List, [], ◌∷◌, ◌++◌, Option, none, some, ◌==◌, if◌then◌else◌,
}
use echo_web_server.Run.{Bytes, Exception, Run, Try, returned, and_then}

-- `OnChange`, of the old and the new value.
abbrev pub OnChange : Type 0 → Type 0 → Type 0
OnChange T S = T → T → S → Option Exception × S

pub record Var (T : Type 0) (S : Type 0) : Type 0 where
  pub name : Bytes
  pub description : Bytes
  pub val : T
  pub listeners : List (ℕ × OnChange T S)

-- The state that the listeners share, and the exceptions that have been printed.
pub record Told (S : Type 0) : Type 0 where
  pub state : S
  pub errors : List Exception

abbrev pub printed : Option Exception → List Exception
printed none = []
printed (some x) = x ∷ []

abbrev pub with_listener : {A : Type 0} → ℕ → A → List (ℕ × A) → List (ℕ × A)
with_listener key listener [] = (key, listener) ∷ []
with_listener key listener ((k, l) ∷ rest) =
    let more = with_listener key listener rest in
    if k == key then (key, listener) ∷ rest else (k, l) ∷ more

abbrev pub without : {A : Type 0} → ℕ → List (ℕ × A) → List (ℕ × A)
without key [] = []
without key ((k, l) ∷ rest) =
    let others = without key rest in if k == key then others else (k, l) ∷ others

module _ {T : Type 0} {S : Type 0} where
  -- `Var(name, default_val, description)`
  unfoldable pub of_default : Bytes → T → Bytes → Var T S
  of_default name default_val description = record {
    name = name;
    description = description;
    val = default_val;
    listeners = [];
  }

  -- The loop of `SetValue`: what a listener throws is printed.
  unfoldable pub notify : T → T → List (ℕ × OnChange T S) → Told S → Told S
  notify old val [] w = w
  notify old val ((key, listener) ∷ rest) w =
      let r = listener old val w.state in
      notify old val rest (record { state = r.1; errors = w.errors ++ printed r.0 })

  -- `SetValue`, with `!=` of the values.
  unfoldable pub set_value : (T → T → Bool) → T → Var T S → Told S → Var T S × Told S
  unfolding notify
  set_value differs val v w =
      (record v { val = val }, if differs val v.val then notify v.val val v.listeners w else w)

  unfoldable pub from_string :
      (Bytes → Try T) → (T → T → Bool) → Bytes → Var T S → Told S → Try (Var T S × Told S)
  unfolding set_value
  from_string convert differs str v w =
      and_then (convert str) λ val. returned (set_value differs val v w)

  unfoldable pub to_string : (T → Run Bytes) → Var T S → Run Bytes
  to_string convert v = convert v.val

  -- `AddListener`, with the key that comes next and the one after it.
  unfoldable pub add_listener : OnChange T S → ℕ → Var T S → ℕ × (ℕ × Var T S)
  add_listener listener key v =
      (key, ((key + 1) % 2 ^ 64, record v { listeners = with_listener key listener v.listeners }))

  unfoldable pub remove_listener : ℕ → Var T S → Var T S
  remove_listener key v = record v { listeners = without key v.listeners }

  unfoldable pub clear_listeners : Var T S → Var T S
  clear_listeners v = record v { listeners = [] }
