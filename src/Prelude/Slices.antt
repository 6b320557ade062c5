-- ===== src/Prelude/Slices.antt =====
-- Runs of consecutive bytes inside an array.
use Prim.Native.Nat.{ℕ, zero, suc, ◌+◌, ◌-◌, ◌≤◌, ◌<◌}
use mathlib.Core.Path.{◌≡◌, refl, ap, ◌∙◌}
use mathlib.Core.List.{List, [], ◌∷◌, ◌++◌, append_assoc}
use native.Mathlib.Omega.{arith}
use smtp_protos.Prelude.Lists.{length, get_or, set, take, drop}

module _ {ℓ} {A : Type ℓ} where
  pub take-drop-suc :
      (xs : List A) (r n : ℕ) (d : A)
      → r < length xs
      → take (suc n) (drop r xs) ≡ get_or xs r d ∷ take n (drop (suc r) xs)
  take-drop-suc [] r n d h = absurd (omega arith)
  take-drop-suc (x ∷ xs) zero n d h = refl
  take-drop-suc (x ∷ xs) (suc r) n d h = take-drop-suc xs r n d (omega arith)

  pub take-append_length : (xs ys : List A) (n : ℕ) → n ≡ length xs → take n (xs ++ ys) ≡ xs
  take-append_length [] ys zero e = refl
  take-append_length [] ys (suc n) e = absurd (omega arith)
  take-append_length (x ∷ xs) ys zero e = absurd (omega arith)
  take-append_length (x ∷ xs) ys (suc n) e = ap (◌∷◌ x) (take-append_length xs ys n (omega arith))

  pub drop-append_length : (xs ys : List A) (n : ℕ) → n ≡ length xs → drop n (xs ++ ys) ≡ ys
  drop-append_length [] ys zero e = refl
  drop-append_length [] ys (suc n) e = absurd (omega arith)
  drop-append_length (x ∷ xs) ys zero e = absurd (omega arith)
  drop-append_length (x ∷ xs) ys (suc n) e = drop-append_length xs ys n (omega arith)

  pub take-whole : (xs : List A) (n : ℕ) → length xs ≤ n → take n xs ≡ xs
  take-whole [] zero h = refl
  take-whole [] (suc n) h = refl
  take-whole (x ∷ xs) zero h = absurd (omega arith)
  take-whole (x ∷ xs) (suc n) h = ap (◌∷◌ x) (take-whole xs n (omega arith))

  take-append-drop : (n : ℕ) (xs : List A) → take n xs ++ drop n xs ≡ xs
  take-append-drop zero xs = refl
  take-append-drop (suc n) [] = refl
  take-append-drop (suc n) (x ∷ xs) = ap (◌∷◌ x) (take-append-drop n xs)

  pub append-take-drop : (out xs : List A) (n : ℕ) → (out ++ take n xs) ++ drop n xs ≡ out ++ xs
  append-take-drop out xs n =
      append_assoc out (take n xs) (drop n xs) ∙ ap (λ ys. out ++ ys) (take-append-drop n xs)

  take-take-append :
      (xs ys zs : List A) (m n : ℕ)
      → m ≤ length xs
      → n ≡ m + length ys
      → take n (take m xs ++ (ys ++ zs)) ≡ take m xs ++ ys
  take-take-append xs ys zs zero n h e = take-append_length ys zs n (omega arith)
  take-take-append [] ys zs (suc m) n h e = absurd (omega arith)
  take-take-append (x ∷ xs) ys zs (suc m) zero h e = absurd (omega arith)
  take-take-append (x ∷ xs) ys zs (suc m) (suc n) h e =
      ap (◌∷◌ x) (take-take-append xs ys zs m n (omega arith) (omega arith))

  -- What a write of `ys` at `i` leaves of the bytes from `r` on.
  pub slice-splice :
      (xs ys zs : List A) (r i n : ℕ)
      → r ≤ i
      → i ≤ length xs
      → n ≡ (i - r) + length ys
      → take n (drop r (take i xs ++ (ys ++ zs))) ≡ take (i - r) (drop r xs) ++ ys
  slice-splice xs ys zs zero i n h k e =
      let q : i - 0 ≡ i = omega arith in ground (arith, q, take-take-append xs ys zs i n)
  slice-splice xs ys zs (suc r) zero n h k e = absurd (omega arith)
  slice-splice [] ys zs (suc r) (suc i) n h k e = absurd (omega arith)
  slice-splice (x ∷ xs) ys zs (suc r) (suc i) n h k e =
      let q : suc i - suc r ≡ i - r = omega arith in ground (arith, q, slice-splice xs ys zs r i n)

  pub set-eq-splice :
      (xs : List A) (i : ℕ) (v : A)
      → i < length xs
      → set xs i v ≡ take i xs ++ ((v ∷ []) ++ drop (suc i) xs)
  set-eq-splice [] i v h = absurd (omega arith)
  set-eq-splice (x ∷ xs) zero v h = refl
  set-eq-splice (x ∷ xs) (suc i) v h = ap (◌∷◌ x) (set-eq-splice xs i v (omega arith))

  drop-take : (xs : List A) (n m k : ℕ) → m ≡ n + k → drop n (take m xs) ≡ take k (drop n xs)
  drop-take xs zero m k e = let q : m ≡ k = omega arith in rw q
  drop-take xs (suc n) zero k e = absurd (omega arith)
  drop-take [] (suc n) (suc m) zero e = refl
  drop-take [] (suc n) (suc m) (suc k) e = refl
  drop-take (x ∷ xs) (suc n) (suc m) k e = drop-take xs n m k (omega arith)

  drop-drop : (xs : List A) (r n s : ℕ) → s ≡ r + n → drop n (drop r xs) ≡ drop s xs
  drop-drop xs zero n s e = let q : n ≡ s = omega arith in rw q
  drop-drop xs (suc r) n zero e = absurd (omega arith)
  drop-drop [] (suc r) zero (suc s) e = refl
  drop-drop [] (suc r) (suc n) (suc s) e = refl
  drop-drop (x ∷ xs) (suc r) n (suc s) e = drop-drop xs r n s (omega arith)

  -- Skipping `n` bytes of a run.
  pub drop-slice :
      (xs : List A) (r w n : ℕ)
      → r + n ≤ w
      → drop n (take (w - r) (drop r xs)) ≡ take (w - (r + n)) (drop (r + n) xs)
  drop-slice xs r w n h =
      drop-take (drop r xs) n (w - r) (w - (r + n)) (omega arith)
      ∙ ap (take (w - (r + n))) (drop-drop xs r n (r + n) refl)
