-- ===== src/Run.antt =====
-- How a call of the program ends, and the rules for calls that end well.
use Prim.Native.String.{String}
use Prim.Native.Char.{code}
use echo_web_server.Prelude.{
  ℕ, ◌≡◌, refl, Bool, true, false, List, [], ◌∷◌, Option, none, some, if◌then◌else◌,
}

abbrev pub Bytes : Type 0
Bytes = List ℕ

-- The code points of a literal: its bytes, since every literal of the program is ASCII.
abbrev pub codes : String → Bytes
codes String.[] = []
codes (String.◌∷◌ c s) = code c ∷ codes s

-- The standard exceptions that the program raises or lets through, with their message; a system
-- error carries its `errno`.
pub data Exception : Type 0 where
  invalid_argument : Bytes → Exception
  out_of_range : Bytes → Exception
  runtime_error : Bytes → Exception
  system_error : ℕ → Exception

-- A returned value; an exception; a failed assertion, an undefined access or `std::terminate`; the
-- model's fuel running out.
pub data Run {ℓ} (A : Type ℓ) : Type ℓ where
  ok : A → Run A
  throw : Exception → Run A
  fault : Run A
  out_of_fuel : Run A

infixl 5 ◌>>=◌ ◌>>◌
abbrev pub ◌>>=◌ {ℓ κ} : {A : Type ℓ} {B : Type κ} → Run A → (A → Run B) → Run B
ok a >>= f = f a
throw e >>= f = throw e
fault >>= f = fault
out_of_fuel >>= f = out_of_fuel

abbrev pub ◌>>◌ {ℓ} : {B : Type ℓ} → Run (Unit {0}) → Run B → Run B
m >> k = m >>= λ _. k

abbrev pub assert : Bool → Run (Unit {0})
assert true = ok tt
assert false = fault

abbrev pub or_fault {ℓ} : {A : Type ℓ} → Option A → Run A
or_fault none = fault
or_fault (some a) = ok a

-- A call that returns a value or throws, and does nothing else.
pub data Try {ℓ} (A : Type ℓ) : Type ℓ where
  returned : A → Try A
  raise : Exception → Try A

abbrev pub and_then {ℓ κ} : {A : Type ℓ} {B : Type κ} → Try A → (A → Try B) → Try B
and_then (returned a) f = f a
and_then (raise e) f = raise e

-- The call returns normally, with a value that satisfies `P`.
pub data Yields {ℓ κ} {A : Type ℓ} (P : A → Type κ) : Run A → Type (ℓ ⊔ κ) where
  yields : {a : A} → P a → Yields P (ok a)

module _ {ℓ κ} {A : Type ℓ} {P : A → Type κ} where
  pub Yields-bind {ℓ' κ'} :
      {B : Type ℓ'} {Q : B → Type κ'} {r : Run A} {f : A → Run B}
      → Yields P r
      → ((a : A) → P a → Yields Q (f a))
      → Yields Q (r >>= f)
  Yields-bind (yields p) k = k _ p

  pub Yields-weaken {κ'} :
      {Q : A → Type κ'} {r : Run A} → Yields P r → ((a : A) → P a → Q a) → Yields Q r
  Yields-weaken (yields p) k = yields (k _ p)

  pub Yields-value : {r : Run A} → Yields P r → (a : A) × (r ≡ ok a) × P a
  Yields-value (yields p) = (_, refl, p)

  pub Yields-bind_eq {ℓ'} :
      {B : Type ℓ'} {r : Run A} {f : A → Run B} {x : Run B}
      → Yields P r
      → ((a : A) → P a → f a ≡ x)
      → (r >>= f) ≡ x
  Yields-bind_eq (yields p) k = k _ p

  pub Yields-else :
      (x : Run A) {y : Run A} (b : Bool) → b ≡ false → Yields P y → Yields P (if b then x else y)
  Yields-else x false e p = p
  Yields-else x true e p = cc

  pub Yields-then :
      {x : Run A} (y : Run A) (b : Bool) → b ≡ true → Yields P x → Yields P (if b then x else y)
  Yields-then y true e p = p
  Yields-then y false e p = cc

  pub Yields-if : {x y : Run A} (b : Bool) → Yields P x → Yields P y → Yields P (if b then x else y)
  Yields-if true p q = p
  Yields-if false p q = q

  pub Yields-ok : {a : A} → Yields P (ok a) → P a
  Yields-ok (yields p) = p

-- Two facts on one value.
pub Yields-both {ℓ κ κ'} :
    {A : Type ℓ} {P : A → Type κ} {Q : A → Type κ'} {r : Run A}
    → Yields P r
    → Yields Q r
    → Yields (λ a. P a × Q a) r
Yields-both (yields p) q = yields (p, Yields-ok q)

pub Yields-at {ℓ κ} :
    {A : Type ℓ} {P : A → Type κ} {r : Run A} {a : A} → Yields P r → r ≡ ok a → P a
Yields-at {P = P} {a = a} y e = let z : Yields P (ok a) = rw (← e) y in Yields-ok z

-- If the call returns normally, then with a value that satisfies `P`.
pub data IfOk {ℓ κ} {A : Type ℓ} (P : A → Type κ) : Run A → Type (ℓ ⊔ κ) where
  returns : {a : A} → P a → IfOk P (ok a)
  throws : {x : Exception} → IfOk P (throw x)
  faults : IfOk P fault
  runs_out : IfOk P out_of_fuel

module _ {ℓ κ} {A : Type ℓ} {P : A → Type κ} where
  pub IfOk-bind {ℓ' κ'} :
      {B : Type ℓ'} {Q : B → Type κ'} {r : Run A} {f : A → Run B}
      → IfOk P r
      → ((a : A) → P a → IfOk Q (f a))
      → IfOk Q (r >>= f)
  IfOk-bind (returns p) k = k _ p
  IfOk-bind throws k = throws
  IfOk-bind faults k = faults
  IfOk-bind runs_out k = runs_out

  IfOk-value : {a : A} → IfOk P (ok a) → P a
  IfOk-value (returns p) = p

  pub IfOk-at : {r : Run A} {a : A} → IfOk P r → r ≡ ok a → P a
  IfOk-at {a = a} y e = let z : IfOk P (ok a) = rw (← e) y in IfOk-value z

  pub IfOk-Yields : {r : Run A} → Yields P r → IfOk P r
  IfOk-Yields (yields p) = returns p

  pub IfOk-weaken {κ'} : {Q : A → Type κ'} {r : Run A} → IfOk P r → ((a : A) → P a → Q a) → IfOk Q r
  IfOk-weaken (returns p) k = returns (k _ p)
  IfOk-weaken throws k = throws
  IfOk-weaken faults k = faults
  IfOk-weaken runs_out k = runs_out

  pub IfOk-if : {x y : Run A} (b : Bool) → IfOk P x → IfOk P y → IfOk P (if b then x else y)
  IfOk-if true p q = p
  IfOk-if false p q = q

-- Whatever a call returns.
pub IfOk-then {ℓ ℓ' κ} :
    {A : Type ℓ} {B : Type ℓ'} {Q : B → Type κ} (r : Run A) {f : A → Run B}
    → ((a : A) → IfOk Q (f a))
    → IfOk Q (r >>= f)
IfOk-then (ok a) k = k a
IfOk-then (throw x) k = throws
IfOk-then fault k = faults
IfOk-then out_of_fuel k = runs_out
