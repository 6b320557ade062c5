-- ===== src/Selector/Added.antt =====
-- src/lib/selector.c: a descriptor that is registered.
use smtp_protos.Prelude.{
  ℕ, ◌<◌, ◌≡◌, Option, none, some, arith, length, Bool, ltb, leb, Bool-cases, inl, inr, refl, ℤ,
  pos, negsuc, dec_lt,
}
use smtp_protos.Prelude.{get_elem?-cases, get_elem?-beyond, get_elem?-set_same, Within}
use smtp_protos.Selector.{
  items_max_size, SelectorStatus, selector_success, selector_enomem, selector_maxfd, selector_iargs,
  selector_fdinuse, selector_io, Item, Selector, items_update_fdset_for_fd, ensure_capacity,
  write_item, proceed, put_item, selector_register,
}
use smtp_protos.Selector.Slots.{Registered}

module _ {H D : Type 0} where
  put_item-Registered :
      (n : ℕ) (handler : H) (i : ℕ) (d : D) (s : Selector H D)
      → Within (put_item n handler i d s) (λ r. r.0 ≡ selector_success → Registered (pos n) i r.1)
  unfolding put_item write_item items_update_fdset_for_fd
  put_item-Registered n handler i d s = elim (get_elem?-cases s.fds n) [
    | inl (f, k) ↦ rw (put_item, f) tt
    | inr (some item, f) ↦ rw (put_item, f) (λ p. cc)
    | inr (none, f) ↦
        let item : Item H D = record { fd = n; interest = i; handler = handler; data_of = d } in
        let there : n < length s.fds = elim (dec_lt n (length s.fds)) [
          | yes p ↦ p
          | no q ↦ let g = get_elem?-beyond s.fds n (omega arith) in absurd (cc)
        ] in
        rw (put_item, f) (λ p. (item, get_elem?-set_same s.fds n (some item) there, refl))
  ]

  proceed-Registered :
      (n i : ℕ) (status : SelectorStatus) (s : Selector H D)
      (next : Option (SelectorStatus × Selector H D))
      → Within next (λ r. r.0 ≡ selector_success → Registered (pos n) i r.1)
      → Within (proceed status s next) (λ r. r.0 ≡ selector_success → Registered (pos n) i r.1)
  proceed-Registered n i selector_success s next k = k
  proceed-Registered n i selector_enomem s next k = λ p. cc
  proceed-Registered n i selector_maxfd s next k = λ p. cc
  proceed-Registered n i selector_iargs s next k = λ p. cc
  proceed-Registered n i selector_fdinuse s next k = λ p. cc
  proceed-Registered n i selector_io s next k = λ p. cc

  pub register-Registered :
      (mem : Bool) (fd : ℤ) (handler : H) (i : ℕ) (d : D) (s : Selector H D)
      → Within
          (selector_register mem fd handler i d s)
          (λ r. r.0 ≡ selector_success → Registered fd i r.1)
  unfolding selector_register
  register-Registered mem (negsuc n) handler i d s = λ p. cc
  register-Registered mem (pos n) handler i d s = elim (Bool-cases (leb items_max_size n)) [
    | inl e ↦ rw e (λ p. cc)
    | inr e ↦ rw e (elim (Bool-cases (ltb (length s.fds) n)) [
      | inr f ↦ rw f (put_item-Registered n handler i d s)
      | inl f ↦ rw f (
          proceed-Registered n i (ensure_capacity mem n s).0 (ensure_capacity mem n s).1 _
            (put_item-Registered n handler i d (ensure_capacity mem n s).1))
    ])
  ]
