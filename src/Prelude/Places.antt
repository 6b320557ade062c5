-- ===== src/Prelude/Places.antt =====
-- The places of an array that is read by `get_elem?`.
use Prim.Native.Nat.{ℕ, zero, suc, ◌≤◌, ◌<◌}
use mathlib.Core.Path.{◌≡◌, refl, ap}
use mathlib.Core.Logic.{◌≢◌, ◌⊎◌, inl, inr}
use native.Mathlib.Omega.{arith}
use mathlib.Core.List.{List, [], ◌∷◌}
use mathlib.Core.Option.{Option, none, some}
use smtp_protos.Prelude.Lists.{length, get_elem?, set, filled, replicate}

module _ {A : Type 0} where
  pub get_elem?-set_same :
      (xs : List A) (i : ℕ) (v : A) → i < length xs → get_elem? (set xs i v) i ≡ some v
  get_elem?-set_same [] i v h = absurd (omega arith)
  get_elem?-set_same (x ∷ xs) zero v h = refl
  get_elem?-set_same (x ∷ xs) (suc i) v h = get_elem?-set_same xs i v (omega arith)

  pub get_elem?-set_other :
      (xs : List A) (i j : ℕ) (v : A) → i ≢ j → get_elem? (set xs i v) j ≡ get_elem? xs j
  get_elem?-set_other [] i j v h = refl
  get_elem?-set_other (x ∷ xs) zero zero v h = absurd (h refl)
  get_elem?-set_other (x ∷ xs) zero (suc j) v h = refl
  get_elem?-set_other (x ∷ xs) (suc i) zero v h = refl
  get_elem?-set_other (x ∷ xs) (suc i) (suc j) v h =
      get_elem?-set_other xs i j v (λ e. h (ap suc e))

  pub get_elem?-cases :
      (xs : List A) (i : ℕ)
      → ((get_elem? xs i ≡ none) × (length xs ≤ i)) ⊎ ((v : A) × (get_elem? xs i ≡ some v))
  get_elem?-cases [] i = inl (refl, omega arith)
  get_elem?-cases (x ∷ xs) zero = inr (x, refl)
  get_elem?-cases (x ∷ xs) (suc i) = elim (get_elem?-cases xs i) [
    | inl (e, h) ↦ inl (e, omega arith)
    | inr p ↦ inr p
  ]

  pub get_elem?-beyond : (xs : List A) (i : ℕ) → length xs ≤ i → get_elem? xs i ≡ none
  get_elem?-beyond [] i h = refl
  get_elem?-beyond (x ∷ xs) zero h = absurd (omega arith)
  get_elem?-beyond (x ∷ xs) (suc i) h = get_elem?-beyond xs i (omega arith)

  -- What holds of every place of an array holds after it has grown, if new elements satisfy it.
  pub get_elem?-filled :
      (P : Option A → Type 0) (n : ℕ) (a : A) (xs : List A) (i : ℕ)
      → length xs ≤ n
      → (P none → P (some a))
      → P (get_elem? xs i)
      → P (get_elem? (filled n a xs) i)
  unfolding filled replicate
  get_elem?-filled P zero a [] i h k p = p
  get_elem?-filled P (suc n) a [] zero h k p = k p
  get_elem?-filled P (suc n) a [] (suc i) h k p = get_elem?-filled P n a [] i (omega arith) k p
  get_elem?-filled P zero a (x ∷ xs) i h k p = absurd (omega arith)
  get_elem?-filled P (suc n) a (x ∷ xs) zero h k p = p
  get_elem?-filled P (suc n) a (x ∷ xs) (suc i) h k p =
      get_elem?-filled P n a xs i (omega arith) k p
