-- ===== src/CString.antt =====
-- The parts of <string.h>, <strings.h> and <ctype.h> that the server calls, on byte arrays.
-- A C string is the bytes before the first NUL; the end of the list stands for a NUL.
use mathlib.Core.Option
use smtp_protos.Prelude.{
  ℕ, suc, zero, ◌+◌, Bool, true, ◌&&◌, List, [], ◌∷◌, ◌++◌, leb, ◌==◌, if◌then◌else◌, length,
  Option, some, none, ltb, drop, take, get_or, ◌≤◌, ◌≡◌, ◌≢◌, All, filled, replicate, refl, arith,
}

-- tolower in the C locale.
unfoldable pub tolower : ℕ → ℕ
tolower c = if leb b'A' c && leb c b'Z' then c + 32 else c

-- The bytes before the first NUL.
unfoldable pub c_str : List ℕ → List ℕ
c_str [] = []
c_str (c ∷ cs) = if c == 0 then [] else c ∷ c_str cs

-- strcasecmp(s, t) == 0
unfoldable pub strcasecmp_eq : List ℕ → List ℕ → Bool
unfolding tolower
strcasecmp_eq [] [] = true
strcasecmp_eq [] (d ∷ ds) = d == 0
strcasecmp_eq (c ∷ cs) [] = c == 0
strcasecmp_eq (c ∷ cs) (d ∷ ds) =
    if c == 0 then d == 0 else tolower c == tolower d && strcasecmp_eq cs ds

-- strncasecmp(s, t, n) == 0
unfoldable pub strncasecmp_eq : List ℕ → List ℕ → ℕ → Bool
unfolding tolower
strncasecmp_eq s t zero = true
strncasecmp_eq [] [] (suc n) = true
strncasecmp_eq [] (d ∷ ds) (suc n) = d == 0
strncasecmp_eq (c ∷ cs) [] (suc n) = c == 0
strncasecmp_eq (c ∷ cs) (d ∷ ds) (suc n) =
    if c == 0 then d == 0 else tolower c == tolower d && strncasecmp_eq cs ds n

-- strcmp(s, t) == 0
unfoldable pub strcmp_eq : List ℕ → List ℕ → Bool
strcmp_eq [] [] = true
strcmp_eq [] (d ∷ ds) = d == 0
strcmp_eq (c ∷ cs) [] = c == 0
strcmp_eq (c ∷ cs) (d ∷ ds) = if c == 0 then d == 0 else c == d && strcmp_eq cs ds

unfoldable pub strlen : List ℕ → ℕ
unfolding c_str
strlen a = length (c_str a)

-- The index of the first `c` of a string, as strchr finds it.
unfoldable pub index_of : ℕ → List ℕ → Option ℕ
index_of c [] = none
index_of c (x ∷ xs) = if x == c then some 0 else Option.map suc (index_of c xs)

unfoldable pub strchr : List ℕ → ℕ → Option ℕ
unfolding index_of c_str
strchr a c = index_of c (c_str a)

-- The index of the last `c` of a string, as strrchr finds it.
unfoldable pub last_index_of : ℕ → List ℕ → Option ℕ
last_index_of c [] = none
last_index_of c (x ∷ xs) = elim (last_index_of c xs) [
  | some i ↦ some (suc i)
  | none ↦ if x == c then some 0 else none
]

unfoldable pub strrchr : List ℕ → ℕ → Option ℕ
unfolding last_index_of c_str
strrchr a c = last_index_of c (c_str a)

-- strcpy(a + at, s): the bytes of `s` and a NUL. A copy that does not fit is a fault.
unfoldable pub strcpy : List ℕ → ℕ → List ℕ → Option (List ℕ)
strcpy a at s =
    if ltb (at + length s) (length a)
    then some (take at a ++ ((s ++ 0 ∷ []) ++ drop (at + length s + 1) a))
    else none

-- A string that fills the front of a zeroed array is read back.
pub c_str-filled :
    (size : ℕ) (s : List ℕ) → length s ≤ size → All (λ c. c ≢ 0) s → c_str (filled size 0 s) ≡ s
unfolding c_str filled replicate
c_str-filled zero [] h nz = refl
c_str-filled (suc size) [] h nz = refl
c_str-filled zero (c ∷ s) h nz = absurd (omega arith)
c_str-filled (suc size) (c ∷ s) h nz = ground (arith, c_str-filled size s (omega arith) nz.1)

-- The string ends at the first NUL.
pub c_str-cut :
    (a s : List ℕ)
    → take (length s) a ≡ s
    → get_or a (length s) 0 ≡ 0
    → All (λ c. c ≢ 0) s
    → c_str a ≡ s
unfolding c_str
c_str-cut [] [] e z nz = refl
c_str-cut [] (c ∷ s) e z nz = e
c_str-cut (x ∷ a) [] e z nz = ground arith
c_str-cut (x ∷ a) (c ∷ s) e z nz = ground (arith, c_str-cut a s (ground arith) z nz.1)

-- strcmp does not look past the NUL that strdup leaves out.
pub strcmp_eq-c_str : (s t : List ℕ) → strcmp_eq s (c_str t) ≡ strcmp_eq s t
unfolding strcmp_eq c_str
strcmp_eq-c_str [] [] = refl
strcmp_eq-c_str (c ∷ cs) [] = refl
strcmp_eq-c_str [] (d ∷ ds) = ground arith
strcmp_eq-c_str (c ∷ cs) (d ∷ ds) = ground (arith, strcmp_eq-c_str cs ds)

pub strcmp_eq_refl : (s : List ℕ) → strcmp_eq s s ≡ true
unfolding strcmp_eq
strcmp_eq_refl [] = refl
strcmp_eq_refl (c ∷ cs) = ground (arith, strcmp_eq_refl cs)

-- strcmp tells strings apart.
pub strcmp_eq_lem : (s t : List ℕ) → strcmp_eq s t ≡ true → c_str s ≡ c_str t
unfolding strcmp_eq c_str
strcmp_eq_lem [] [] h = refl
strcmp_eq_lem [] (d ∷ ds) h = ground arith
strcmp_eq_lem (c ∷ cs) [] h = ground arith
strcmp_eq_lem (c ∷ cs) (d ∷ ds) h = ground (arith, strcmp_eq_lem cs ds)
