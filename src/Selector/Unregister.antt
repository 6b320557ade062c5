-- ===== src/Selector/Unregister.antt =====
-- src/lib/selector.c: selector_unregister_fd.
use smtp_protos.Prelude.{
  ℕ, zero, suc, ◌+◌, ◌≤◌, ◌<◌, ◌≡◌, ◌≢◌, List, [], ◌∷◌, Option, none, some, arith, length, set,
  false, ltb, leb, Returns, take, if◌then◌else◌, Bool-cases, inl, inr, refl, ◌∙◌, pos,
}
use smtp_protos.Prelude.{get_elem?, get_elem?-cases, get_elem?-set_same, get_elem?-set_other}
use smtp_protos.Selector.{
  items_max_size, selector_success, Item, Selector, items_max_fd_from, items_max_fd,
  items_update_fdset_for_fd, clear_item, selector_unregister_fd,
}
use smtp_protos.Selector.Table.{IsValid, SlotOk, replace-IsValid, put_same, put_other, slot_item}

module _ {H D : Type 0} where
  items_max_fd_from-base : (xs : List (Option (Item H D))) (m : ℕ) → m ≤ items_max_fd_from xs m
  unfolding items_max_fd_from
  items_max_fd_from-base [] m = omega arith
  items_max_fd_from-base (none ∷ xs) m = items_max_fd_from-base xs m
  items_max_fd_from-base (some item ∷ xs) m =
      ground (arith, items_max_fd_from-base xs (if ltb m item.fd then item.fd else m))

  items_max_fd_from_lem :
      (n : ℕ) (xs : List (Option (Item H D))) (m j : ℕ) (item : Item H D)
      → get_elem? xs j ≡ some (some item)
      → j < n
      → item.fd ≤ items_max_fd_from (take n xs) m
  unfolding items_max_fd_from
  items_max_fd_from_lem zero xs m j item e h = absurd (omega arith)
  items_max_fd_from_lem (suc n) [] m j item e h = cc
  items_max_fd_from_lem (suc n) (none ∷ xs) m zero item e h = cc
  items_max_fd_from_lem (suc n) (some other ∷ xs) m zero item e h =
      let same : other.fd ≡ item.fd = cc in
      ground (arith, items_max_fd_from-base (take n xs) (if ltb m other.fd then other.fd else m))
  items_max_fd_from_lem (suc n) (none ∷ xs) m (suc j) item e h =
      items_max_fd_from_lem n xs m j item e (omega arith)
  items_max_fd_from_lem (suc n) (some other ∷ xs) m (suc j) item e h =
      items_max_fd_from_lem n xs _ j item e (omega arith)

  -- A slot other than the freed one is as it should be under the new maximum.
  other_slot :
      (fd i : ℕ) (item : Item H D) (s : Selector H D)
      → IsValid s
      → item.fd ≡ fd
      → fd ≢ i
      → (o : Option (Option (Item H D))) → get_elem? s.fds i ≡ o
      → SlotOk s i o
      → SlotOk (clear_item fd item s) i o
  unfolding SlotOk clear_item items_update_fdset_for_fd items_max_fd
  other_slot fd i item s v k n none e ok = (
    rw k (put_other fd i false s.master_r n) ∙ ok.0,
    rw k (put_other fd i false s.master_w n) ∙ ok.1,
  )
  other_slot fd i item s v k n (some none) e ok = (
    rw k (put_other fd i false s.master_r n) ∙ ok.0,
    rw k (put_other fd i false s.master_w n) ∙ ok.1,
  )
  other_slot fd i item s v k n (some (some it)) e ok =
      let kept = get_elem?-set_other s.fds fd i none n ∙ e in
      let below =
        items_max_fd_from_lem (s.max_fd + 1) (set s.fds fd none) 0 i it kept (omega arith) in
      (
        ok.0,
        omega arith,
        rw k (put_other fd i false s.master_r n) ∙ ok.2,
        rw k (put_other fd i false s.master_w n) ∙ ok.3,
      )

  clear_item-IsValid :
      (fd : ℕ) (item : Item H D) (s : Selector H D)
      → IsValid s
      → fd < length s.fds
      → item.fd ≡ fd
      → IsValid (clear_item fd item s)
  unfolding SlotOk clear_item items_update_fdset_for_fd
  clear_item-IsValid fd item s v h e =
      replace-IsValid s (clear_item fd item s) fd none v h refl
        (rw e (put_same fd false s.master_r), rw e (put_same fd false s.master_w))
        (λ i n ok. other_slot fd i item s v e n (get_elem? s.fds i) refl ok)

  -- Unregistering a descriptor within the table keeps the table valid, so that the maximum is above
  -- every descriptor that is left; when it succeeds, the slot is free.
  pub selector_unregister_fd-IsValid :
      {W : Type 0} (handle_close : Item H D → W → W)
      → (fd : ℕ) (w : W) (s : Selector H D) → IsValid s
      → fd < length s.fds
      → Returns
          (selector_unregister_fd handle_close (pos fd) w s)
          (λ r. IsValid r.1.1 × (r.0 ≡ selector_success → get_elem? r.1.1.fds fd ≡ some none))
  unfolding selector_unregister_fd clear_item items_update_fdset_for_fd
  selector_unregister_fd-IsValid handle_close fd w s v h =
      elim (Bool-cases (leb items_max_size fd)) [
        | inl e ↦ rw e (v, λ p. cc)
        | inr e ↦ rw e (elim (get_elem?-cases s.fds fd) [
          | inl (f, k) ↦ absurd (omega arith)
          | inr (none, f) ↦ rw f (v, λ p. cc)
          | inr (some item, f) ↦ rw f (
            clear_item-IsValid fd item s v h (slot_item s fd item v f).0,
            λ p. get_elem?-set_same s.fds fd none h,
          )
        ])
      ]
