-- ===== src/Netutils/Human.antt =====
-- src/lib/netutils.c: sockaddr_to_human. `buff` is the array, whose length is `buffsize`.
use smtp_protos.Prelude.{
  ℕ, zero, suc, ◌+◌, ◌-◌, ◌≤◌, ◌<◌, ◌≡◌, ◌≢◌, ◌↔◌, ◌⊎◌, List, [], ◌∷◌, ◌++◌, Option, none, some,
  arith, length, set, ltb, length-set, length-take, Returns, take, drop, ◌>>=◌, Bool-cases, inl,
  inr, refl, Returns-bind, All, filled, length-append, append_assoc, store, codes,
}
use smtp_protos.Prelude.{length-drop, Returns-not_none, store_lem}
use smtp_protos.CString.{strcpy, strlen, c_str}

-- A struct sockaddr, as far as it is read: for the two families of the Internet what inet_ntop gives,
-- if it succeeds, and the port as printed.
pub data Peer : Type 0 where
  internet : Option (List ℕ) → List ℕ → Peer
  other : Peer

-- strncpy into the whole array.
abbrev pub strncpy : List ℕ → List ℕ → List ℕ
strncpy buff s = filled (length buff) 0 (take (length buff) s)

-- strncat of a string behind the one in the array.
abbrev pub strncat : List ℕ → List ℕ → Option (List ℕ)
strncat buff s = strcpy buff (strlen buff) s

-- buff[buffsize - 1] = 0
abbrev pub end_with_nul : List ℕ → Option (List ℕ)
end_with_nul buff = store buff (length buff - 1) 0

-- The part that puts the address into the array.
unfoldable pub put_address : List ℕ → Peer → Option (List ℕ)
put_address buff (internet (some text) port) = strcpy buff 0 text
put_address buff (internet none port) = end_with_nul (strncpy buff (codes "unknown ip"))
put_address buff other = some (strncpy buff (codes "unknown"))

abbrev pub port_of : Peer → Option (List ℕ)
port_of (internet text port) = some port
port_of other = none

-- snprintf of the port into what is left of the array.
abbrev pub put_port : Option (List ℕ) → List ℕ → Option (List ℕ)
put_port none buff = some buff
put_port (some port) buff = strcpy buff (strlen buff) (take (length buff - strlen buff - 1) port)

unfoldable pub sockaddr_to_human : List ℕ → Option Peer → Option (List ℕ)
unfolding put_address
sockaddr_to_human buff none = some (strncpy buff (codes "null"))
sockaddr_to_human buff (some addr) = do
  b₁ ← put_address buff addr
  b₂ ← strncat b₁ (codes ":")
  b₃ ← end_with_nul b₂
  b₄ ← put_port (port_of addr) b₃
  end_with_nul b₄

strlen_text : (text rest : List ℕ) → All (λ c. c ≢ 0) text → strlen (text ++ 0 ∷ rest) ≡ length text
unfolding strlen c_str
strlen_text [] rest nz = refl
strlen_text (c ∷ text) rest nz = ground (arith, strlen_text text rest nz.1)

strcpy_bounds :
    (buff s : List ℕ) (at : ℕ)
    → ((strcpy buff at s ≡ none) × (length buff ≤ at + length s))
      ⊎ ((b : List ℕ) × (strcpy buff at s ≡ some b)
          × (at + length s < length buff)
          × (length b ≡ length buff)
          × (b ≡ take at buff ++ ((s ++ 0 ∷ []) ++ drop (at + length s + 1) buff)))
unfolding strcpy
strcpy_bounds buff s at = elim (Bool-cases (ltb (at + length s) (length buff))) [
  | inr e ↦ inl (rw e refl, ground arith)
  | inl e ↦
      let rest = drop (at + length s + 1) buff in
      let h : at + length s < length buff = ground arith in
      inr (
        take at buff ++ ((s ++ 0 ∷ []) ++ rest),
        rw e refl,
        h,
        omega (
          arith,
          length-append (take at buff) ((s ++ 0 ∷ []) ++ rest),
          length-append (s ++ 0 ∷ []) rest,
          length-append s (0 ∷ []),
          length-take at buff,
          length-drop (at + length s + 1) buff,
        ),
        refl,
      )
]

abbrev HasNul : List ℕ → Type 0
HasNul b = strlen b < length b

set_nul : (b : List ℕ) (i : ℕ) → i < length b → strlen (set b i 0) ≤ i
unfolding strlen c_str
set_nul [] i h = absurd (omega arith)
set_nul (c ∷ b) zero h = omega arith
set_nul (c ∷ b) (suc i) h = ground (arith, set_nul b i (omega arith))

end_with_nul-HasNul : (b : List ℕ) → 1 ≤ length b → Returns (end_with_nul b) HasNul
end_with_nul-HasNul b h =
    rw (store_lem b (length b - 1) 0 (omega arith))
      (omega (arith, set_nul b (length b - 1) (omega arith), length-set b (length b - 1) 0))

-- The port never fails to fit: it is cut to what is left.
put_port_lem : (port b : List ℕ) → HasNul b → Returns (put_port (some port) b) (λ b'. 1 ≤ length b')
put_port_lem port b h = elim (strcpy_bounds b (take (length b - strlen b - 1) port) (strlen b)) [
  | inl (e, k) ↦ absurd (omega (arith, length-take (length b - strlen b - 1) port))
  | inr (b', e, k, n, _) ↦ rw e (omega arith)
]

port_lem :
    (port b : List ℕ)
    → 1 ≤ length b
    → Returns (do b₃ ← end_with_nul b; b₄ ← put_port (some port) b₃; end_with_nul b₄) HasNul
port_lem port b h =
    Returns-bind HasNul HasNul (end_with_nul b) _
      (λ b₃ w.
        Returns-bind (λ b'. 1 ≤ length b') HasNul (put_port (some port) b₃) end_with_nul
          (λ b₄ v. end_with_nul-HasNul b₄ v) (put_port_lem port b₃ w))
      (end_with_nul-HasNul b h)

-- For an address that inet_ntop prints into the array, the function is undefined exactly if there is no
-- room for the colon: the address with its NUL fills the array.
pub sockaddr_to_human_fault_iff :
    (buff text port : List ℕ)
    → All (λ c. c ≢ 0) text
    → length text < length buff
    → (sockaddr_to_human buff (some (internet (some text) port)) ≡ none)
      ↔ (length text + 1 ≡ length buff)
unfolding sockaddr_to_human put_address
sockaddr_to_human_fault_iff buff text port nz h = elim (strcpy_bounds buff text 0) [
  | inl (e, k) ↦ absurd (omega arith)
  | inr (b₁, e, k, n₁, f) ↦
      let len : strlen b₁ ≡ length text = rw f (
        rw (append_assoc text (0 ∷ []) (drop (0 + length text + 1) buff))
          (strlen_text text (drop (0 + length text + 1) buff) nz)) in
      rw e (elim (strcpy_bounds b₁ (codes ":") (strlen b₁)) [
        | inl (g, l) ↦ rw g ((λ p. omega arith), (λ p. refl))
        | inr (b₂, g, l, n₂, _) ↦ rw g (
          (λ p. absurd (Returns-not_none HasNul _ (port_lem port b₂ (omega arith)) p)),
          (λ p. absurd (omega arith)),
        )
      ])
]
