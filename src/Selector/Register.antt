-- ===== src/Selector/Register.antt =====
-- src/lib/selector.c: selector_register and selector_set_interest.
use smtp_protos.Prelude.{
  ℕ, ◌<◌, ◌≡◌, ◌≢◌, ◌↔◌, Option, none, some, arith, length, Bool, ltb, leb, Returns, Bool-cases,
  inl, inr, refl, length-filled, pos, ℕ_discrete,
}
use smtp_protos.Prelude.{get_elem?, get_elem?-cases, get_elem?-beyond, Returns-not_none}
use smtp_protos.Selector.Capacity.{next_capacity_bounds}
use smtp_protos.Selector.{
  empty_table, unless_failed, items_max_size, SelectorStatus, selector_success, selector_enomem,
  selector_maxfd, selector_iargs, selector_fdinuse, selector_io, next_capacity, Selector,
  ensure_capacity, selector_new, proceed, put_item, selector_register, selector_set_interest,
}
use smtp_protos.Selector.Table.{
  IsValid, SlotOk, ensure_capacity-IsValid, write_item-IsValid, slot_item,
}

module _ {H D : Type 0} where
  put_item-IsValid :
      (fd : ℕ) (handler : H) (interest : ℕ) (d : D) (s : Selector H D)
      → IsValid s
      → fd < length s.fds
      → Returns (put_item fd handler interest d s) (λ r. IsValid r.1)
  unfolding put_item
  put_item-IsValid fd handler interest d s v h = elim (get_elem?-cases s.fds fd) [
    | inl (e, k) ↦ absurd (omega arith)
    | inr (some item, e) ↦ rw (put_item, e) v
    | inr (none, e) ↦
        rw (put_item, e) (write_item-IsValid fd _ _ s v h (ground arith) (ground arith) refl)
  ]

  proceed-IsValid :
      (status : SelectorStatus) (s : Selector H D) (next : Option (SelectorStatus × Selector H D))
      → IsValid s
      → (status ≡ selector_success → Returns next (λ r. IsValid r.1))
      → Returns (proceed status s next) (λ r. IsValid r.1)
  proceed-IsValid selector_success s next v k = k refl
  proceed-IsValid selector_enomem s next v k = v
  proceed-IsValid selector_maxfd s next v k = v
  proceed-IsValid selector_iargs s next v k = v
  proceed-IsValid selector_fdinuse s next v k = v
  proceed-IsValid selector_io s next v k = v

  -- After ensure_capacity succeeds there is a slot for the descriptor.
  ensure_capacity-room :
      (mem : Bool) (n : ℕ) (s : Selector H D)
      → (ensure_capacity mem n s).0 ≡ selector_success
      → n < length (ensure_capacity mem n s).1.fds
  unfolding ensure_capacity
  ensure_capacity-room mem n s e =
      ground (arith, next_capacity_bounds n, length-filled (next_capacity n) none s.fds)

  -- A descriptor that is not negative is registered without a fault, and the table stays valid,
  -- unless the descriptor is the size of the table.
  pub selector_register-IsValid :
      (mem : Bool) (fd : ℕ) (handler : H) (interest : ℕ) (d : D) (s : Selector H D)
      → IsValid s
      → fd ≢ length s.fds
      → Returns (selector_register mem (pos fd) handler interest d s) (λ r. IsValid r.1)
  unfolding selector_register
  selector_register-IsValid mem fd handler interest d s v n =
      elim (Bool-cases (leb items_max_size fd)) [
        | inl e ↦ rw e v
        | inr e ↦ rw e (elim (Bool-cases (ltb (length s.fds) fd)) [
          | inl f ↦ rw f (
              proceed-IsValid (ensure_capacity mem fd s).0 (ensure_capacity mem fd s).1 _
                (ensure_capacity-IsValid mem fd s v)
                (λ ok.
                  put_item-IsValid fd handler interest d (ensure_capacity mem fd s).1
                    (ensure_capacity-IsValid mem fd s v) (ensure_capacity-room mem fd s ok)))
          | inr f ↦ rw f (put_item-IsValid fd handler interest d s v (ground arith))
        ])
      ]

  -- Registering is undefined exactly for a valid descriptor that is the size of the table.
  pub selector_register_fault_iff :
      (mem : Bool) (fd : ℕ) (handler : H) (interest : ℕ) (d : D) (s : Selector H D)
      → IsValid s
      → (selector_register mem (pos fd) handler interest d s ≡ none)
        ↔ ((fd ≡ length s.fds) × (fd < items_max_size))
  unfolding selector_register put_item
  selector_register_fault_iff mem fd handler interest d s v = (
    (λ e. elim (ℕ_discrete fd (length s.fds)) [
      | yes p ↦ (p, ground arith)
      | no n ↦ absurd (
          Returns-not_none (λ r. IsValid r.1) _
            (selector_register-IsValid mem fd handler interest d s v n) e)
    ]),
    (λ p.
        let gone : get_elem? s.fds fd ≡ none = get_elem?-beyond s.fds fd (omega arith) in
        ground arith),
  )

  -- A change of interest in a descriptor within the table keeps the table valid.
  pub selector_set_interest-IsValid :
      (fd i : ℕ) (s : Selector H D)
      → IsValid s
      → fd < length s.fds
      → Returns (selector_set_interest (pos fd) i s) (λ r. IsValid r.1)
  unfolding selector_set_interest SlotOk
  selector_set_interest-IsValid fd i s v h = elim (Bool-cases (leb items_max_size fd)) [
    | inl e ↦ rw e v
    | inr e ↦ rw e (elim (get_elem?-cases s.fds fd) [
      | inl (f, k) ↦ absurd (omega arith)
      | inr (none, f) ↦ rw f v
      | inr (some item, f) ↦
          let ok = slot_item s fd item v f in
          rw f (
            write_item-IsValid fd (record item { interest = i }) s.max_fd s v h ok.1 (omega arith)
              ok.0)
    ])
  ]

  unless_failed_lem :
      (status : SelectorStatus) (t s : Selector H D)
      → unless_failed status t ≡ some s
      → (status ≡ selector_success) × (t ≡ s)
  unless_failed_lem selector_success t s e = (refl, cc)
  unless_failed_lem selector_enomem t s e = cc
  unless_failed_lem selector_maxfd t s e = cc
  unless_failed_lem selector_iargs t s e = cc
  unless_failed_lem selector_fdinuse t s e = cc
  unless_failed_lem selector_io t s e = cc

  empty-IsValid : IsValid (empty_table {H = H} {D = D})
  unfolding SlotOk
  empty-IsValid = record { in_limit = omega arith; slots = λ i. (refl, refl) }

  -- A new table is valid and has a slot for every descriptor up to the number asked for.
  pub selector_new-IsValid :
      (mem : Bool) (n : ℕ) (s : Selector H D)
      → selector_new mem n ≡ some s
      → IsValid s × (n < length s.fds)
  unfolding selector_new
  selector_new-IsValid mem n s e =
      let (ok, same) =
        unless_failed_lem (ensure_capacity mem n empty_table).0
          (ensure_capacity mem n empty_table).1 s e in
      rw (← same) (
        ensure_capacity-IsValid mem n empty_table empty-IsValid,
        ensure_capacity-room mem n empty_table ok,
      )
