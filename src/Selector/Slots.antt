-- ===== src/Selector/Slots.antt =====
-- src/lib/selector.c: what an operation does to the interest of one descriptor.
use smtp_protos.Prelude.{
  ℕ, ◌<◌, ◌≡◌, ◌≢◌, List, Option, none, some, arith, length, set, Bool, ltb, leb, Bool-cases, inl,
  inr, refl, ap, ℤ, pos, negsuc, dec_lt,
}
use smtp_protos.Prelude.{
  get_elem?, get_elem?-cases, get_elem?-beyond, get_elem?-set_same, get_elem?-set_other,
  get_elem?-filled, Within,
}
use smtp_protos.Selector.Capacity.{next_capacity_bounds}
use smtp_protos.Selector.{
  items_max_size, SelectorStatus, selector_success, selector_enomem, selector_maxfd, selector_iargs,
  selector_fdinuse, selector_io, next_capacity, Item, Selector, items_update_fdset_for_fd,
  ensure_capacity, write_item, clear_item, proceed, put_item, selector_register,
  selector_unregister_fd, selector_set_interest,
}

module _ {H D : Type 0} where
  abbrev pub RegisteredIn : ℕ → ℕ → List (Option (Item H D)) → Type 0
  RegisteredIn n i fds =
      (item : Item H D) × (get_elem? fds n ≡ some (some item)) × (item.interest ≡ i)

  -- The descriptor is registered, with that interest.
  abbrev pub Registered : ℤ → ℕ → Selector H D → Type 0
  Registered (pos n) i s = RegisteredIn n i s.fds
  Registered (negsuc n) i s = ⊥

  pub in_table :
      (s : Selector H D) (n : ℕ) (o : Option (Item H D))
      → get_elem? s.fds n ≡ some o
      → n < length s.fds
  in_table s n o e = elim (dec_lt n (length s.fds)) [
    | yes p ↦ p
    | no q ↦ let g = get_elem?-beyond s.fds n (omega arith) in absurd (cc)
  ]

  -- What follows where a slot is written.
  written_slot :
      (fds : List (Option (Item H D))) (n m j : ℕ) (o : Option (Item H D))
      → n ≢ m
      → RegisteredIn m j fds
      → RegisteredIn m j (set fds n o)
  written_slot fds n m j o q (item, f, g) = (item, rw (get_elem?-set_other fds n m o q) f, g)

  pub set_interest-Registered :
      (fd : ℤ) (i : ℕ) (s : Selector H D)
      → Within (selector_set_interest fd i s) (λ r. r.0 ≡ selector_success → Registered fd i r.1)
  unfolding selector_set_interest write_item items_update_fdset_for_fd
  set_interest-Registered (negsuc n) i s = λ p. cc
  set_interest-Registered (pos n) i s = elim (Bool-cases (leb items_max_size n)) [
    | inl e ↦ rw e (λ p. cc)
    | inr e ↦ rw e (elim (get_elem?-cases s.fds n) [
      | inl (f, k) ↦ rw (selector_set_interest, f) tt
      | inr (none, f) ↦ rw (selector_set_interest, f) (λ p. cc)
      | inr (some item, f) ↦ rw f (λ p. (
        record item { interest = i },
        get_elem?-set_same s.fds n (some (record item { interest = i }))
            (in_table s n (some item) f),
        refl,
      ))
    ])
  ]

  set_interest_keeps :
      (fd : ℤ) (i : ℕ) (m j : ℕ) (s : Selector H D)
      → fd ≢ pos m
      → Registered (pos m) j s
      → Within (selector_set_interest fd i s) (λ r. Registered (pos m) j r.1)
  unfolding selector_set_interest write_item items_update_fdset_for_fd
  set_interest_keeps (negsuc n) i m j s q h = h
  set_interest_keeps (pos n) i m j s q h = elim (Bool-cases (leb items_max_size n)) [
    | inl e ↦ rw e h
    | inr e ↦ rw e (elim (get_elem?-cases s.fds n) [
      | inl (f, k) ↦ rw (selector_set_interest, f) tt
      | inr (none, f) ↦ rw (selector_set_interest, f) h
      | inr (some item, f) ↦
          rw f
            (written_slot s.fds n m j (some (record item { interest = i })) (λ p. q (ap pos p)) h)
    ])
  ]

  put_item_keeps :
      (n : ℕ) (handler : H) (interest : ℕ) (d : D) (m j : ℕ) (s : Selector H D)
      → Registered (pos m) j s
      → Within (put_item n handler interest d s) (λ r. Registered (pos m) j r.1)
  unfolding put_item write_item items_update_fdset_for_fd
  put_item_keeps n handler interest d m j s h = elim (get_elem?-cases s.fds n) [
    | inl (f, k) ↦ rw (put_item, f) tt
    | inr (some item, f) ↦ rw (put_item, f) h
    | inr (none, f) ↦
        rw (put_item, f)
          (written_slot s.fds n m j _
            (λ p. let g = h.1 in absurd (cc (ap (get_elem? s.fds) p, f, g))) h)
  ]

  ensure_capacity_keeps :
      (mem : Bool) (n m j : ℕ) (s : Selector H D)
      → Registered (pos m) j s
      → Registered (pos m) j (ensure_capacity mem n s).1
  unfolding ensure_capacity
  ensure_capacity_keeps mem n m j s h = elim (Bool-cases (ltb n (length s.fds))) [
    | inl small ↦ rw small h
    | inr large ↦ rw large (elim (Bool-cases (ltb items_max_size n)) [
      | inl over ↦ rw over h
      | inr within ↦ rw within (elim (Bool-cases mem) [
        | inr e ↦ rw e h
        | inl e ↦
            let bounds = next_capacity_bounds n (ground arith) in
            rw e (
              h.0,
              get_elem?-filled (λ o. o ≡ some (some h.0)) (next_capacity n) none s.fds m
                  (ground arith) (λ p. cc) h.1,
              h.2,
            )
      ])
    ])
  ]

  proceed_keeps :
      (status : SelectorStatus) (s : Selector H D) (next : Option (SelectorStatus × Selector H D))
      (m j : ℕ)
      → Registered (pos m) j s
      → Within next (λ r. Registered (pos m) j r.1)
      → Within (proceed status s next) (λ r. Registered (pos m) j r.1)
  proceed_keeps selector_success s next m j h k = k
  proceed_keeps selector_enomem s next m j h k = h
  proceed_keeps selector_maxfd s next m j h k = h
  proceed_keeps selector_iargs s next m j h k = h
  proceed_keeps selector_fdinuse s next m j h k = h
  proceed_keeps selector_io s next m j h k = h

  register_keeps :
      (mem : Bool) (fd : ℤ) (handler : H) (interest : ℕ) (d : D) (m j : ℕ) (s : Selector H D)
      → Registered (pos m) j s
      → Within (selector_register mem fd handler interest d s) (λ r. Registered (pos m) j r.1)
  unfolding selector_register
  register_keeps mem (negsuc n) handler interest d m j s h = h
  register_keeps mem (pos n) handler interest d m j s h = elim (Bool-cases (leb items_max_size n)) [
    | inl e ↦ rw e h
    | inr e ↦ rw e (elim (Bool-cases (ltb (length s.fds) n)) [
      | inr f ↦ rw f (put_item_keeps n handler interest d m j s h)
      | inl f ↦
          let g = ensure_capacity_keeps mem n m j s h in
          rw f (
            proceed_keeps (ensure_capacity mem n s).0 (ensure_capacity mem n s).1 _ m j g
              (put_item_keeps n handler interest d m j (ensure_capacity mem n s).1 g))
    ])
  ]

  unregister_keeps :
      {W : Type 0} (handle_close : Item H D → W → W)
      → (fd : ℤ) (w : W) (m j : ℕ) (s : Selector H D) → fd ≢ pos m
      → Registered (pos m) j s
      → Within (selector_unregister_fd handle_close fd w s) (λ r. Registered (pos m) j r.1.1)
  unfolding selector_unregister_fd clear_item items_update_fdset_for_fd
  unregister_keeps handle_close (negsuc n) w m j s q h = h
  unregister_keeps handle_close (pos n) w m j s q h = elim (Bool-cases (leb items_max_size n)) [
    | inl e ↦ rw e h
    | inr e ↦ rw e (elim (get_elem?-cases s.fds n) [
      | inl (f, k) ↦ rw (selector_unregister_fd, f) tt
      | inr (none, f) ↦ rw (selector_unregister_fd, f) h
      | inr (some item, f) ↦ rw f (written_slot s.fds n m j none (λ p. q (ap pos p)) h)
    ])
  ]

  -- What a change of interest in one descriptor leaves of another.
  pub set_interest_other :
      (fd other : ℤ) (i j : ℕ) (s : Selector H D)
      → fd ≢ other
      → Registered other j s
      → Within (selector_set_interest fd i s) (λ r. Registered other j r.1)
  set_interest_other fd (pos m) i j s q h = set_interest_keeps fd i m j s q h
  set_interest_other fd (negsuc m) i j s q h = elim h [ ]

  pub register_other :
      (mem : Bool) (fd other : ℤ) (handler : H) (interest : ℕ) (d : D) (j : ℕ) (s : Selector H D)
      → Registered other j s
      → Within (selector_register mem fd handler interest d s) (λ r. Registered other j r.1)
  register_other mem fd (pos m) handler interest d j s h =
      register_keeps mem fd handler interest d m j s h
  register_other mem fd (negsuc m) handler interest d j s h = elim h [ ]

  pub unregister_other :
      {W : Type 0} (handle_close : Item H D → W → W)
      → (fd other : ℤ) (w : W) (j : ℕ) (s : Selector H D) → fd ≢ other
      → Registered other j s
      → Within (selector_unregister_fd handle_close fd w s) (λ r. Registered other j r.1.1)
  unregister_other handle_close fd (pos m) w j s q h = unregister_keeps handle_close fd w m j s q h
  unregister_other handle_close fd (negsuc m) w j s q h = elim h [ ]
