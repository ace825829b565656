-- ===== src/Prelude/Arrays.antt =====
-- Lists as arrays whose element type has a default: reading at a position that is known to be inside.
use Prim.Native.Nat.{ℕ, zero, suc, ◌<◌}
use mathlib.Core.Path.{◌≡◌, refl}
use mathlib.Core.List.{List, [], ◌∷◌, ◌++◌}
use mathlib.Core.Option.{Option, none, some}
use native.Mathlib.Omega.{arith}
use echo_web_server.Prelude.Tests.{◌==◌, if◌then◌else◌}
use echo_web_server.Prelude.Lists.{length, get_elem?, set, take, length-set}

pub record Inhabited {ℓ} (A : Type ℓ) : Type ℓ where
  pub default : A

-- Writing, extending and cutting, as seen by a read that may be outside.
module _ {ℓ} {A : Type ℓ} where
  get_elem?-set :
      (xs : List A) (at k : ℕ) (new : A)
      → at < length xs
      → get_elem? (set xs at new) k ≡ (if at == k then some new else get_elem? xs k)
  get_elem?-set [] at k new inside = absurd (omega arith)
  get_elem?-set (y ∷ ys) zero zero new inside = refl
  get_elem?-set (y ∷ ys) zero (suc m) new inside = ground arith
  get_elem?-set (y ∷ ys) (suc n) zero new inside = ground arith
  get_elem?-set (y ∷ ys) (suc n) (suc m) new inside = ground (arith, get_elem?-set ys n m new)

  get_elem?-append :
      (xs ys : List A) (k : ℕ) → k < length xs → get_elem? (xs ++ ys) k ≡ get_elem? xs k
  get_elem?-append [] ys k inside = absurd (omega arith)
  get_elem?-append (x ∷ xs) ys k inside =
      elim k as (λ k. k < suc (length xs) → get_elem? ((x ∷ xs) ++ ys) k ≡ get_elem? (x ∷ xs) k) [
        | zero ↦ λ h. refl
        | suc m ↦ λ h. get_elem?-append xs ys m (omega arith)
      ]
        inside

  get_elem?-append_end :
      (xs : List A) (last : A) → get_elem? (xs ++ last ∷ []) (length xs) ≡ some last
  get_elem?-append_end [] last = refl
  get_elem?-append_end (x ∷ xs) last = get_elem?-append_end xs last

  get_elem?-take : (n k : ℕ) (xs : List A) → k < n → get_elem? (take n xs) k ≡ get_elem? xs k
  get_elem?-take zero k xs below = absurd (omega arith)
  get_elem?-take (suc n) k [] below = refl
  get_elem?-take (suc n) zero (x ∷ xs) below = refl
  get_elem?-take (suc n) (suc k) (x ∷ xs) below = get_elem?-take n k xs (omega arith)

  get_elem?-inside : (xs : List A) (k : ℕ) → k < length xs → (x : A) × (get_elem? xs k ≡ some x)
  get_elem?-inside [] k inside = absurd (omega arith)
  get_elem?-inside (x ∷ xs) zero inside = (x, refl)
  get_elem?-inside (x ∷ xs) (suc k) inside = get_elem?-inside xs k (omega arith)

module _ {ℓ} {A : Type ℓ} ⦃inhabited : Inhabited A⦄ where
  abbrev or_default : Option A → A
  or_default none = inhabited.default
  or_default (some x) = x

  unfoldable pub get! : List A → ℕ → A
  get! xs k = or_default (get_elem? xs k)

  pub get_elem?-get! : (xs : List A) (k : ℕ) → k < length xs → get_elem? xs k ≡ some (get! xs k)
  unfolding get!
  get_elem?-get! xs k inside = let (x, e) = get_elem?-inside xs k inside in rw e

  pub get!-set :
      (xs : List A) (at k : ℕ) (new : A)
      → at < length xs
      → get! (set xs at new) k ≡ (if at == k then new else get! xs k)
  unfolding get!
  get!-set xs at k new inside = ground (arith, get_elem?-set xs at k new inside)

  pub get!-append : (xs ys : List A) (k : ℕ) → k < length xs → get! (xs ++ ys) k ≡ get! xs k
  unfolding get!
  get!-append xs ys k inside = rw (get_elem?-append xs ys k inside)

  pub get!-append_end : (xs : List A) (last : A) → get! (xs ++ last ∷ []) (length xs) ≡ last
  unfolding get!
  get!-append_end xs last = rw (get_elem?-append_end xs last)

  pub get!-take : (n : ℕ) (xs : List A) (k : ℕ) → k < n → get! (take n xs) k ≡ get! xs k
  unfolding get!
  get!-take n xs k below = rw (get_elem?-take n k xs below)

  -- The elements at two positions trade places.
  unfoldable pub swap_elems : List A → ℕ → ℕ → List A
  swap_elems xs one other =
      let first = get! xs one in let second = get! xs other in set (set xs one second) other first

  pub length-swap_elems :
      (xs : List A) (one other : ℕ) → length (swap_elems xs one other) ≡ length xs
  unfolding swap_elems
  length-swap_elems xs one other = simp length-set

  pub get!-swap_elems :
      (xs : List A) (one other k : ℕ)
      → one < length xs
      → other < length xs
      → get! (swap_elems xs one other) k
        ≡ (if other == k then get! xs one else if one == k then get! xs other else get! xs k)
  unfolding swap_elems
  get!-swap_elems xs one other k h h' =
      let written = set xs one (get! xs other) in
      let second = get!-set written other k (get! xs one) (rw length-set h') in
      rw (second, get!-set xs one k (get! xs other) h)
