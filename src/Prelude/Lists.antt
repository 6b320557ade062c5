-- ===== src/Prelude/Lists.antt =====
-- C arrays and byte strings as lists measured and indexed by native numbers.
use Prim.Native.Nat.{ℕ, zero, suc, ◌+◌, ◌-◌, ◌≤◌, ◌<◌, min}
use Prim.Native.Char.{code}
use Prim.Native.String.{String}
use mathlib.Core.Path.{◌≡◌, refl, ap}
use mathlib.Core.Logic.{◌≢◌}
use mathlib.Core.List.{List, [], ◌∷◌, ◌++◌}
use mathlib.Core.Option.{Option, none, some}
use native.Mathlib.Omega.{arith}

-- The bytes of an ASCII literal.
abbrev pub codes : String → List ℕ
codes String.[] = []
codes (String.◌∷◌ c s) = code c ∷ codes s

module _ {ℓ} {A : Type ℓ} where
  abbrev pub length : List A → ℕ
  length [] = 0
  length (x ∷ xs) = suc (length xs)

  abbrev pub get_elem? : List A → ℕ → Option A
  get_elem? [] i = none
  get_elem? (x ∷ xs) zero = some x
  get_elem? (x ∷ xs) (suc i) = get_elem? xs i

  abbrev pub get_or : List A → ℕ → A → A
  get_or [] i d = d
  get_or (x ∷ xs) zero d = x
  get_or (x ∷ xs) (suc i) d = get_or xs i d

  -- A write out of bounds changes nothing.
  abbrev pub set : List A → ℕ → A → List A
  set [] i v = []
  set (x ∷ xs) zero v = v ∷ xs
  set (x ∷ xs) (suc i) v = x ∷ set xs i v

  abbrev pub take : ℕ → List A → List A
  take zero xs = []
  take (suc n) [] = []
  take (suc n) (x ∷ xs) = x ∷ take n xs

  abbrev pub drop : ℕ → List A → List A
  drop zero xs = xs
  drop (suc n) [] = []
  drop (suc n) (x ∷ xs) = drop n xs

  -- Shut, so that an array of thousands of bytes stays a name in the proofs.
  unfoldable pub replicate : ℕ → A → List A
  replicate zero a = []
  replicate (suc n) a = a ∷ replicate n a

  -- Every element satisfies `P`.
  abbrev pub All {κ} : (A → Type κ) → List A → Type κ
  All P [] = Unit
  All P (x ∷ xs) = P x × All P xs

  pub length-append : (xs ys : List A) → length (xs ++ ys) ≡ length xs + length ys
  length-append [] ys = omega arith
  length-append (x ∷ xs) ys = omega (arith, length-append xs ys)

  pub length-set : (xs : List A) (i : ℕ) (v : A) → length (set xs i v) ≡ length xs
  length-set [] i v = refl
  length-set (x ∷ xs) zero v = refl
  length-set (x ∷ xs) (suc i) v = ap suc (length-set xs i v)

  pub length-take : (n : ℕ) (xs : List A) → length (take n xs) ≡ min n (length xs)
  length-take zero xs = omega arith
  length-take (suc n) [] = omega arith
  length-take (suc n) (x ∷ xs) = omega (arith, length-take n xs)

  pub length-drop : (n : ℕ) (xs : List A) → length (drop n xs) ≡ length xs - n
  length-drop zero xs = omega arith
  length-drop (suc n) [] = omega arith
  length-drop (suc n) (x ∷ xs) = omega (arith, length-drop n xs)

  pub length-replicate : (n : ℕ) (a : A) → length (replicate n a) ≡ n
  unfolding replicate
  length-replicate zero a = refl
  length-replicate (suc n) a = ap suc (length-replicate n a)

  pub set-replicate : (n i : ℕ) (a : A) → set (replicate n a) i a ≡ replicate n a
  unfolding replicate
  set-replicate zero i a = refl
  set-replicate (suc n) zero a = refl
  set-replicate (suc n) (suc i) a = ap (◌∷◌ a) (set-replicate n i a)

  -- An array of `size` elements that begins with `xs`, the rest being `a`.
  unfoldable pub filled : ℕ → A → List A → List A
  filled size a [] = replicate size a
  filled zero a (x ∷ xs) = []
  filled (suc size) a (x ∷ xs) = x ∷ filled size a xs

  pub length-filled : (size : ℕ) (a : A) (xs : List A) → length (filled size a xs) ≡ size
  unfolding filled
  length-filled size a [] = length-replicate size a
  length-filled zero a (x ∷ xs) = refl
  length-filled (suc size) a (x ∷ xs) = ap suc (length-filled size a xs)

  pub set-filled :
      (size : ℕ) (a : A) (xs : List A) (c : A)
      → length xs < size
      → set (filled size a xs) (length xs) c ≡ filled size a (xs ++ c ∷ [])
  unfolding filled replicate
  set-filled zero a xs c h = absurd (omega arith)
  set-filled (suc size) a [] c h = refl
  set-filled (suc size) a (x ∷ xs) c h = ap (◌∷◌ x) (set-filled size a xs c (omega arith))

  pub set-filled_end :
      (size : ℕ) (a : A) (xs : List A) → set (filled size a xs) (length xs) a ≡ filled size a xs
  unfolding filled
  set-filled_end size a [] = set-replicate size 0 a
  set-filled_end zero a (x ∷ xs) = refl
  set-filled_end (suc size) a (x ∷ xs) = ap (◌∷◌ x) (set-filled_end size a xs)

  pub All-mono {κ μ} :
      {P : A → Type κ} {Q : A → Type μ} (xs : List A) → ((x : A) → P x → Q x) → All P xs → All Q xs
  All-mono [] k h = tt
  All-mono (x ∷ xs) k h = (k x h.0, All-mono xs k h.1)

  pub get_or-filled :
      (size : ℕ) (a : A) (xs : List A) (i : ℕ) (d : A)
      → length xs ≤ size
      → i < length xs
      → get_or (filled size a xs) i d ≡ get_or xs i d
  unfolding filled
  get_or-filled size a [] i d h k = absurd (omega arith)
  get_or-filled zero a (x ∷ xs) i d h k = absurd (omega arith)
  get_or-filled (suc size) a (x ∷ xs) zero d h k = refl
  get_or-filled (suc size) a (x ∷ xs) (suc i) d h k =
      get_or-filled size a xs i d (omega arith) (omega arith)

  pub take-set : (xs : List A) (n i : ℕ) (v : A) → n ≤ i → take n (set xs i v) ≡ take n xs
  take-set [] n i v h = refl
  take-set (x ∷ xs) zero i v h = refl
  take-set (x ∷ xs) (suc n) zero v h = absurd (omega arith)
  take-set (x ∷ xs) (suc n) (suc i) v h = ap (◌∷◌ x) (take-set xs n i v (omega arith))

  pub get_or-set_self :
      (xs : List A) (i : ℕ) (v d : A) → i < length xs → get_or (set xs i v) i d ≡ v
  get_or-set_self [] i v d h = absurd (omega arith)
  get_or-set_self (x ∷ xs) zero v d h = refl
  get_or-set_self (x ∷ xs) (suc i) v d h = get_or-set_self xs i v d (omega arith)

  pub get_or-set_ne :
      (xs : List A) {i j : ℕ} (v d : A) → i ≢ j → get_or (set xs i v) j d ≡ get_or xs j d
  get_or-set_ne [] v d h = refl
  get_or-set_ne (x ∷ xs) {i = zero} {j = zero} v d h = absurd (h refl)
  get_or-set_ne (x ∷ xs) {i = zero} {j = suc j} v d h = refl
  get_or-set_ne (x ∷ xs) {i = suc i} {j = zero} v d h = refl
  get_or-set_ne (x ∷ xs) {i = suc i} {j = suc j} v d h = get_or-set_ne xs v d (λ e. h (ap suc e))

  pub take-filled :
      (size : ℕ) (a : A) (xs ys : List A)
      → length xs ≤ size
      → take (length xs) (filled size a (xs ++ ys)) ≡ xs
  unfolding filled
  take-filled size a [] ys h = refl
  take-filled zero a (x ∷ xs) ys h = absurd (omega arith)
  take-filled (suc size) a (x ∷ xs) ys h = ap (◌∷◌ x) (take-filled size a xs ys (omega arith))

  pub get_or-append :
      (xs ys : List A) (i k : ℕ) (d : A) → i ≡ length xs + k → get_or (xs ++ ys) i d ≡ get_or ys k d
  get_or-append [] ys i k d e = let q : i ≡ k = omega arith in rw q
  get_or-append (x ∷ xs) ys zero k d e = absurd (omega arith)
  get_or-append (x ∷ xs) ys (suc i) k d e = get_or-append xs ys i k d (omega arith)

  pub get_or-append_front :
      (xs ys : List A) (i : ℕ) (d : A) → i < length xs → get_or (xs ++ ys) i d ≡ get_or xs i d
  get_or-append_front [] ys i d h = absurd (omega arith)
  get_or-append_front (x ∷ xs) ys zero d h = refl
  get_or-append_front (x ∷ xs) ys (suc i) d h = get_or-append_front xs ys i d (omega arith)
