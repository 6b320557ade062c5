-- ===== src/Selector/Table.antt =====
-- src/lib/selector.c: what holds of the table.
use smtp_protos.Prelude.{
  ℕ, ◌+◌, ◌≤◌, ◌<◌, ◌≡◌, ◌≢◌, Option, none, some, arith, length, set, Bool, false, ltb, length-set,
  Bool-cases, inl, inr, refl, filled, length-filled, ◌∙◌, ℕ_discrete,
}
use smtp_protos.Prelude.{get_elem?, get_elem?-set_same, get_elem?-set_other, get_elem?-filled}
use native.Mathlib.Nat.{le_trans}
use smtp_protos.Selector.Capacity.{next_capacity_bounds}
use smtp_protos.Selector.{
  items_max_size, op_read, op_write, next_capacity, Item, Selector, fd_put,
  items_update_fdset_for_fd, ensure_capacity, write_item,
}

pub put_same : (fd : ℕ) (b : Bool) (set : ℕ → Bool) → fd_put fd b set fd ≡ b
put_same fd b set = ground arith

pub put_other : (fd i : ℕ) (b : Bool) (set : ℕ → Bool) → fd ≢ i → fd_put fd b set i ≡ set i
put_other fd i b set n = ground arith

module _ {H D : Type 0} where
  -- What a slot says about its descriptor: it stands in its own place, below the maximum, and
  -- select is asked for what it is interested in; for a place that is not used select is asked
  -- nothing.
  unfoldable pub SlotOk : Selector H D → ℕ → Option (Option (Item H D)) → Type 0
  SlotOk s i (some (some item)) =
      (item.fd ≡ i)
      × (i ≤ s.max_fd)
      × (s.master_r i ≡ op_read item.interest)
      × (s.master_w i ≡ op_write item.interest)
  SlotOk s i _ = (s.master_r i ≡ false) × (s.master_w i ≡ false)

  pub record IsValid (s : Selector H D) : Type 0 where
    pub in_limit : length s.fds ≤ items_max_size + 1
    pub slots : (i : ℕ) → SlotOk s i (get_elem? s.fds i)

  pub SlotOk-mono :
      (s t : Selector H D) (i : ℕ) (o : Option (Option (Item H D)))
      → s.max_fd ≤ t.max_fd
      → t.master_r i ≡ s.master_r i
      → t.master_w i ≡ s.master_w i
      → SlotOk s i o
      → SlotOk t i o
  unfolding SlotOk
  SlotOk-mono s t i none h k l v = (k ∙ v.0, l ∙ v.1)
  SlotOk-mono s t i (some none) h k l v = (k ∙ v.0, l ∙ v.1)
  SlotOk-mono s t i (some (some item)) h k l v = (v.0, le_trans v.1 h, k ∙ v.2, l ∙ v.3)

  grow-IsValid :
      (n : ℕ) (s : Selector H D)
      → length s.fds ≤ n
      → n ≤ items_max_size
      → IsValid s
      → IsValid (record s { fds = filled (next_capacity n) none s.fds })
  unfolding SlotOk
  grow-IsValid n s h k v =
      let bounds = next_capacity_bounds n k in
      let t = record s { fds = filled (next_capacity n) none s.fds } in
      record {
        in_limit = omega (arith, length-filled (next_capacity n) none s.fds, bounds);
        slots = λ i.
            get_elem?-filled (SlotOk t i) (next_capacity n) none s.fds i (omega arith) (λ p. p)
              (SlotOk-mono s t i (get_elem? s.fds i) (omega arith) refl refl (v.slots i));
      }

  -- Making room keeps the table valid.
  pub ensure_capacity-IsValid :
      (mem : Bool) (n : ℕ) (s : Selector H D) → IsValid s → IsValid (ensure_capacity mem n s).1
  unfolding ensure_capacity
  ensure_capacity-IsValid mem n s v = elim (Bool-cases (ltb n (length s.fds))) [
    | inl small ↦ rw small v
    | inr large ↦ rw large (elim (Bool-cases (ltb items_max_size n)) [
      | inl over ↦ rw over v
      | inr within ↦ rw within (elim (Bool-cases mem) [
        | inl e ↦ rw e (grow-IsValid n s (ground arith) (ground arith) v)
        | inr e ↦ rw e v
      ])
    ])
  ]

  -- A table is valid if it is a valid one with one slot written, and the written slot is right and
  -- the others still are.
  pub replace-IsValid :
      (s t : Selector H D) (fd : ℕ) (o : Option (Item H D))
      → IsValid s
      → fd < length s.fds
      → t.fds ≡ set s.fds fd o
      → SlotOk t fd (some o)
      → ((i : ℕ) → fd ≢ i → SlotOk s i (get_elem? s.fds i) → SlotOk t i (get_elem? s.fds i))
      → IsValid t
  unfolding SlotOk
  replace-IsValid s t fd o v h e here there = record {
    in_limit = rw (e, length-set s.fds fd o) v.in_limit;
    slots = λ i. elim (ℕ_discrete fd i) [
      | yes p ↦ rw (← p) (rw (e, get_elem?-set_same s.fds fd o h) here)
      | no n ↦ rw (e, get_elem?-set_other s.fds fd i o n) (there i n (v.slots i))
    ];
  }

  pub write_item-IsValid :
      (fd : ℕ) (item : Item H D) (m : ℕ) (s : Selector H D)
      → IsValid s
      → fd < length s.fds
      → fd ≤ m
      → s.max_fd ≤ m
      → item.fd ≡ fd
      → IsValid (write_item fd item m s)
  unfolding write_item items_update_fdset_for_fd SlotOk
  write_item-IsValid fd item m s v h k l e =
      replace-IsValid s (write_item fd item m s) fd (some item) v h refl
        (e, k, rw e (put_same fd _ s.master_r), rw e (put_same fd _ s.master_w))
        (λ i n.
          SlotOk-mono s (write_item fd item m s) i (get_elem? s.fds i) l
            (rw e (put_other fd i _ s.master_r n)) (rw e (put_other fd i _ s.master_w n)))

  pub slot_item :
      (s : Selector H D) (fd : ℕ) (item : Item H D)
      → IsValid s
      → get_elem? s.fds fd ≡ some (some item)
      → (item.fd ≡ fd) × (fd ≤ s.max_fd)
  unfolding SlotOk
  slot_item s fd item v e = let ok = rw e at (v.slots fd) in (ok.0, ok.1)
