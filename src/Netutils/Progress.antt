-- ===== src/Netutils/Progress.antt =====
-- src/lib/netutils.c: the copies end, and send what they take.
use smtp_protos.Buffer.{Buffer, buffer_read_ptr, buffer_read_adv, buffer_can_read}
use smtp_protos.Prelude.{take-whole, append-take-drop}
use smtp_protos.Prelude.{
  ℕ, zero, suc, ◌-◌, ◌≤◌, ◌<◌, ◌≡◌, ◌⊎◌, List, [], ◌∷◌, ◌++◌, arith, length, Bool, true, false, ltb,
  leb, ◌==◌, length-drop, Returns, take, drop, Bool-cases, inl, inr, refl, Returns-bind,
  Returns-mono, ap, sym, ◌∙◌, append-nil, append_assoc, ℤ, pos,
}
use smtp_protos.Buffer.{contents}
use smtp_protos.Buffer.Inv.{IsValid}
use smtp_protos.Buffer.Fifo.{read_adv_drops, length-contents}
use smtp_protos.Netutils.{
  count, write_loop, sock_blocking_write, send_all, copy_loop, sock_blocking_copy,
}

contents_empty : (b : Buffer) → buffer_can_read b ≡ false → contents b ≡ []
unfolding contents buffer_can_read
contents_empty b e = let none_left : b.write - b.read ≡ 0 = ground arith in rw none_left refl

-- What send is documented to do: it takes no more than it is offered.
abbrev pub Takes : (ℕ → List ℕ → ℤ) → Type 0
Takes send = (k : ℕ) (bytes : List ℕ) → count (send k bytes) ≤ length bytes

module _ (send : ℕ → List ℕ → ℤ) (errno : ℤ) (takes : Takes send) where
  -- What was sent and what is left; all of it was sent, or a call failed.
  abbrev pub Wrote : List ℕ → Buffer → ℤ × Buffer × List ℕ → Type 0
  Wrote out b r =
      (r.2 ++ contents r.1 ≡ out ++ contents b)
      × (((r.0 ≡ pos 0) × (contents r.1 ≡ [])) ⊎ (r.0 ≡ errno))

  write_loop_lem :
      (fuel k : ℕ) (b : Buffer) (out : List ℕ)
      → IsValid b
      → b.write - b.read < fuel
      → Returns (write_loop send errno fuel k b out) (Wrote out b)
  unfolding write_loop contents buffer_read_ptr buffer_can_read
  write_loop_lem zero k b out v h = absurd (omega arith)
  write_loop_lem (suc fuel) k b out v h =
      let bytes = contents b in
      let n = count (send k bytes) in
      let small : n ≤ b.write - b.read = omega (arith, takes k bytes, length-contents b v) in
      let good : leb b.read b.write ≡ true = ground arith in
      elim (Bool-cases (n == 0)) [
        | inl e ↦ rw (good, e) (refl, inr refl)
        | inr e ↦
            let moved : 0 < n = ground arith in
            rw (good, e)
              (Returns-bind (λ c. (contents c ≡ drop n (contents b)) × IsValid c) (Wrote out b)
                (buffer_read_adv b (pos n)) _
                (λ c (p, w).
                  let all : (out ++ take n bytes) ++ contents c ≡ out ++ contents b =
                    ap (λ ys. (out ++ take n bytes) ++ ys) p ∙ append-take-drop out bytes n in
                  elim (Bool-cases (buffer_can_read c)) [
                    | inr f ↦ rw f (all, inl (refl, contents_empty c f))
                    | inl f ↦
                        let left : length (contents c) ≡ length bytes - n =
                          ap (λ ys. length ys) p ∙ length-drop n bytes in
                        rw f (
                          Returns-mono (Wrote (out ++ take n bytes) c) (Wrote out b)
                            (write_loop send errno fuel (suc k) c (out ++ take n bytes))
                            (λ r q. (q.0 ∙ all, q.1))
                            (write_loop_lem fuel (suc k) c (out ++ take n bytes) w
                              (omega (arith, left, length-contents b v, length-contents c w))))
                  ])
                (read_adv_drops b n v (omega arith)))
      ]

  -- sock_blocking_write ends, whatever the calls answer: what was sent, followed by what is still in
  -- the buffer, is what was there, and either it was all sent and 0 is returned, or errno is.
  pub sock_blocking_write_lem :
      (b : Buffer) → IsValid b → Returns (sock_blocking_write send errno b) (Wrote [] b)
  unfolding sock_blocking_write
  sock_blocking_write_lem b v = write_loop_lem (suc (b.write - b.read)) 0 b [] v (omega arith)

  -- All the bytes were sent, or a call failed after a part of them.
  abbrev pub Sent : List ℕ → List ℕ → Bool × ℕ × List ℕ → Type 0
  Sent out bytes r =
      ((r.0 ≡ true) × (r.2 ≡ out ++ bytes))
      ⊎ ((r.0 ≡ false) × ((left : List ℕ) × (r.2 ++ left ≡ out ++ bytes)))

  send_all_lem :
      (fuel k : ℕ) (bytes out : List ℕ)
      → length bytes < fuel
      → Returns (send_all send errno fuel k bytes out) (Sent out bytes)
  unfolding send_all
  send_all_lem zero k bytes out h = absurd (omega arith)
  send_all_lem (suc fuel) k bytes out h =
      let n = count (send k bytes) in
      let small : n ≤ length bytes = takes k bytes in
      elim (Bool-cases (n == 0)) [
        | inl e ↦ rw e (inr (refl, (bytes, refl)))
        | inr e ↦
            let moved : 0 < n = ground arith in
            rw e (elim (Bool-cases (ltb 0 (length bytes - n))) [
              | inl f ↦ rw f (
                  Returns-mono (Sent (out ++ take n bytes) (drop n bytes)) (Sent out bytes)
                    (send_all send errno fuel (suc k) (drop n bytes) (out ++ take n bytes))
                    (λ r q. elim q [
                      | inl (a, c) ↦ inl (a, c ∙ append-take-drop out bytes n)
                      | inr (a, (left, c)) ↦ inr (a, (left, c ∙ append-take-drop out bytes n))
                    ])
                    (send_all_lem fuel (suc k) (drop n bytes) (out ++ take n bytes)
                      (ground (arith, length-drop n bytes))))
              | inr f ↦
                  let whole : length bytes ≤ n = ground arith in
                  rw f (inl (refl, ap (λ ys. out ++ ys) (take-whole bytes n whole)))
            ])
      ]

  abbrev pub joined : List (List ℕ) → List ℕ
  joined [] = []
  joined (bytes ∷ received) = bytes ++ joined received

  -- Of what was received, a part was sent, in order; all of it, where 0 is returned and not errno.
  abbrev pub Copied : List (List ℕ) → List ℕ → ℤ × List ℕ → Type 0
  Copied received out r =
      ((left : List ℕ) × (r.1 ++ left ≡ out ++ joined received))
      × (((r.0 ≡ pos 0) × (r.1 ≡ out ++ joined received)) ⊎ (r.0 ≡ errno))

  copy_loop_lem :
      (received : List (List ℕ)) (k : ℕ) (out : List ℕ)
      → Returns (copy_loop send errno received k out) (Copied received out)
  unfolding copy_loop
  copy_loop_lem [] k out = (([], refl), inl (refl, sym (append-nil out)))
  copy_loop_lem (bytes ∷ received) k out =
      Returns-bind (Sent out bytes) (Copied (bytes ∷ received) out)
        (send_all send errno (suc (length bytes)) k bytes out) _
        (λ r q. elim q [
          | inl (a, c) ↦
              let whole : r.2 ++ joined received ≡ out ++ (bytes ++ joined received) =
                ap (λ ys. ys ++ joined received) c ∙ append_assoc out bytes (joined received) in
              rw a (
                Returns-mono (Copied received r.2) (Copied (bytes ∷ received) out)
                  (copy_loop send errno received r.1 r.2)
                  (λ u x. (
                    (x.0.0, x.0.1 ∙ whole),
                    elim (x.1) [ inl (z, y) ↦ inl (z, y ∙ whole) | inr z ↦ inr z ],
                  ))
                  (copy_loop_lem received r.1 r.2))
          | inr (a, (left, c)) ↦ rw a (
            (
              left ++ joined received,
              sym (append_assoc r.2 left (joined received))
                  ∙ (ap (λ ys. ys ++ joined received) c ∙ append_assoc out bytes (joined received)),
            ),
            inr refl,
          )
        ])
        (send_all_lem (suc (length bytes)) k bytes out (omega arith))

  -- sock_blocking_copy ends once its source does, whatever the calls of send answer: it has sent a
  -- front part of the bytes that it received, in their order, and either it is all of them and 0 is
  -- returned, or errno is.
  pub sock_blocking_copy_lem :
      (received : List (List ℕ))
      → Returns (sock_blocking_copy send errno received) (Copied received [])
  unfolding sock_blocking_copy
  sock_blocking_copy_lem received = copy_loop_lem received 0 []
