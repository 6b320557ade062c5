-- ===== src/Prelude/Fault.antt =====
-- Undefined behaviour and failed asserts as values: `none` is a fault that stops the program.
use Prim.Native.Nat.{ℕ, ◌<◌}
use mathlib.Core.Logic.{◌≢◌}
use mathlib.Core.Path.{◌≡◌, refl}
use mathlib.Core.Bool.{Bool, true, false}
use mathlib.Core.List.{List}
use mathlib.Core.Option.{Option, none, some}
use native.Mathlib.Omega.{arith}
use smtp_protos.Prelude.Tests.{ltb, if◌then◌else◌}
use smtp_protos.Prelude.Lists.{length, set}

infixl 5 ◌>>=◌ ◌>>◌
abbrev pub ◌>>=◌ {ℓ κ} : {A : Type ℓ} {B : Type κ} → Option A → (A → Option B) → Option B
some a >>= f = f a
none >>= f = none

abbrev pub ◌>>◌ {ℓ} : {B : Type ℓ} → Option (Unit {0}) → Option B → Option B
m >> k = m >>= λ _. k

-- assert(3); the build never defines NDEBUG.
abbrev pub assert : Bool → Option (Unit {0})
assert true = some tt
assert false = none

-- a[i] = v for an array `a`: a write outside the array is a fault.
abbrev pub store {ℓ} : {A : Type ℓ} → List A → ℕ → A → Option (List A)
store a i v = if ltb i (length a) then some (set a i v) else none

pub store_lem {ℓ} :
    {A : Type ℓ} (a : List A) (i : ℕ) (v : A) → i < length a → store a i v ≡ some (set a i v)
store_lem a i v h = ground arith

-- The computation returns, and its result satisfies `P`.
abbrev pub Returns {ℓ} : {A : Type ℓ} → Option A → (A → Type 0) → Type 0
Returns none P = ⊥
Returns (some a) P = P a

pub Returns-bind {ℓ κ} :
    {A : Type ℓ} {B : Type κ} (P : A → Type 0) (Q : B → Type 0) (m : Option A) (f : A → Option B)
    → ((a : A) → P a → Returns (f a) Q)
    → Returns m P
    → Returns (m >>= f) Q
Returns-bind P Q none f k h = elim h [ ]
Returns-bind P Q (some a) f k h = k a h

pub Returns-mono {ℓ} :
    {A : Type ℓ} (P Q : A → Type 0) (m : Option A)
    → ((a : A) → P a → Q a)
    → Returns m P
    → Returns m Q
Returns-mono P Q none k h = h
Returns-mono P Q (some a) k h = k a h

pub Returns-some {ℓ} :
    {A : Type ℓ} (P : A → Type 0) (m : Option A) → Returns m P → (a : A) × (m ≡ some a) × P a
Returns-some P none h = elim h [ ]
Returns-some P (some a) h = (a, refl, h)

pub Returns-not_none : {A : Type 0} (P : A → Type 0) (m : Option A) → Returns m P → m ≢ none
Returns-not_none P none h e = h
Returns-not_none P (some a) h e = cc

-- If the computation returns, its result satisfies `P`.
abbrev pub Within {ℓ} : {A : Type ℓ} → Option A → (A → Type 0) → Type 0
Within none P = Unit
Within (some a) P = P a

pub Within-bind {ℓ κ} :
    {A : Type ℓ} {B : Type κ} (P : A → Type 0) (Q : B → Type 0) (m : Option A) (f : A → Option B)
    → ((a : A) → P a → Within (f a) Q)
    → Within m P
    → Within (m >>= f) Q
Within-bind P Q none f k h = tt
Within-bind P Q (some a) f k h = k a h

pub Within-mono {ℓ} :
    {A : Type ℓ} (P Q : A → Type 0) (m : Option A) → ((a : A) → P a → Q a) → Within m P → Within m Q
Within-mono P Q none k h = tt
Within-mono P Q (some a) k h = k a h

pub Within-any {ℓ} : {A : Type ℓ} (m : Option A) → Within m (λ _. Unit {0})
Within-any none = tt
Within-any (some a) = tt

pub Within-and {ℓ} :
    {A : Type ℓ} (P Q : A → Type 0) (m : Option A)
    → Within m P
    → Within m Q
    → Within m (λ a. P a × Q a)
Within-and P Q none h k = tt
Within-and P Q (some a) h k = (h, k)

-- A reading of "the result satisfies": with returning or without.
pub record Reading : Type 1 where
  pub Holds : {A : Type 0} → Option A → (A → Type 0) → Type 0
  pub holds_some : {A : Type 0} (P : A → Type 0) (a : A) → P a → Holds (some a) P
  pub holds_bind :
      {A B : Type 0} (P : A → Type 0) (Q : B → Type 0) (m : Option A) (f : A → Option B)
      → ((a : A) → P a → Holds (f a) Q)
      → Holds m P
      → Holds (m >>= f) Q

abbrev pub total : Reading
total = record {
  Holds = λ m P. Returns m P;
  holds_some = λ P a p. p;
  holds_bind = λ P Q m f k h. Returns-bind P Q m f k h;
}

abbrev pub partial : Reading
partial = record {
  Holds = λ m P. Within m P;
  holds_some = λ P a p. p;
  holds_bind = λ P Q m f k h. Within-bind P Q m f k h;
}
