-- ===== src/Selector/Destroy.antt =====
-- src/lib/selector.c: selector_destroy. The jobs that are left are not in the table.
use smtp_protos.Prelude.{
  ℕ, zero, suc, ◌+◌, ◌≤◌, ◌<◌, ◌≡◌, List, [], ◌∷◌, Option, none, some, arith, length, set, false,
  leb, length-set, Returns, Returns-some, drop, ◌>>=◌, inl, inr, refl, pos,
}
use smtp_protos.Prelude.{get_elem?, get_elem?-cases, get_elem?-set_other}
use smtp_protos.Selector.{
  Selector, Item, selector_success, items_max_size, selector_unregister_fd, clear_item,
  items_update_fdset_for_fd,
}

module _ {H D : Type 0} where
  -- The items of the used places, in order.
  abbrev pub used_items : List (Option (Item H D)) → List (Item H D)
  used_items [] = []
  used_items (none ∷ fds) = used_items fds
  used_items (some item ∷ fds) = item ∷ used_items fds

module _ {H D W : Type 0} (handle_close : Item H D → W → W) where
  -- The loop over the places from `i` on, `n` of them.
  unfoldable pub unregister_all : ℕ → ℕ → W → Selector H D → Option (W × Selector H D)
  unregister_all zero i w s = some (w, s)
  unregister_all (suc n) i w s = elim (get_elem? s.fds i) [
    | none ↦ none
    | some none ↦ unregister_all n (suc i) w s
    | some (some item) ↦ do
      (_, (w', s')) ← selector_unregister_fd handle_close (pos i) w s
      unregister_all n (suc i) w' s'
  ]

  -- What is left is the world: the table is freed.
  unfoldable pub selector_destroy : W → Selector H D → Option W
  unfolding unregister_all
  selector_destroy w s = do (w', _) ← unregister_all (length s.fds) 0 w s; some w'

  abbrev pub close_each : List (Item H D) → W → W
  close_each [] w = w
  close_each (item ∷ items) w = close_each items (handle_close item w)

  drop-get_elem? :
      (fds : List (Option (Item H D))) (i : ℕ) (o : Option (Item H D))
      → get_elem? fds i ≡ some o
      → drop i fds ≡ o ∷ drop (suc i) fds
  drop-get_elem? [] i o e = cc
  drop-get_elem? (x ∷ fds) zero o e = cc
  drop-get_elem? (x ∷ fds) (suc i) o e = drop-get_elem? fds i o e

  drop-set :
      (fds : List (Option (Item H D))) (i : ℕ) (o : Option (Item H D))
      → drop (suc i) (set fds i o) ≡ drop (suc i) fds
  drop-set [] i o = refl
  drop-set (x ∷ fds) zero o = refl
  drop-set (x ∷ fds) (suc i) o = drop-set fds i o

  drop-all : (fds : List (Option (Item H D))) (i : ℕ) → length fds ≡ i → drop i fds ≡ []
  drop-all [] zero h = refl
  drop-all [] (suc i) h = refl
  drop-all (x ∷ fds) zero h = absurd (omega arith)
  drop-all (x ∷ fds) (suc i) h = drop-all fds i (omega arith)

  -- Every used place from `i` on is that of a descriptor that can be registered.
  abbrev InRange : ℕ → List (Option (Item H D)) → Type 0
  InRange i fds =
      (j : ℕ) (item : Item H D) → i ≤ j → get_elem? fds j ≡ some (some item) → j < items_max_size

  unregister_all_lem :
      (n i : ℕ) (w : W) (s : Selector H D)
      → length s.fds ≡ i + n
      → InRange i s.fds
      → Returns (unregister_all n i w s) (λ r. r.0 ≡ close_each (used_items (drop i s.fds)) w)
  unfolding unregister_all selector_unregister_fd clear_item items_update_fdset_for_fd
  unregister_all_lem zero i w s h k = rw (drop-all s.fds i (omega arith)) refl
  unregister_all_lem (suc n) i w s h k = elim (get_elem?-cases s.fds i) [
    | inl (e, g) ↦ absurd (omega arith)
    | inr (none, e) ↦
        rw (unregister_all, e, drop-get_elem? s.fds i none e)
          (unregister_all_lem n (suc i) w s (omega arith) (λ j item g f. k j item (omega arith) f))
    | inr (some item, e) ↦
        let small : i < items_max_size = k i item (omega arith) e in
        let inside : leb items_max_size i ≡ false = ground arith in
        let t : Selector H D = clear_item i item s in
        let gone : selector_unregister_fd handle_close (pos i) w s
            ≡ some (selector_success, (handle_close item w, t)) =
          rw (selector_unregister_fd, inside, e) refl in
        let rest : Returns (unregister_all n (suc i) (handle_close item w) t)
            (λ r. r.0 ≡ close_each (used_items (drop (suc i) t.fds)) (handle_close item w)) =
          unregister_all_lem n (suc i) (handle_close item w) t
            (omega (arith, length-set s.fds i none))
            (λ j other g f.
              k j other (omega arith)
                (rw (get_elem?-set_other s.fds i j none (λ p. omega arith)) at f)) in
        rw (unregister_all, e, drop-get_elem? s.fds i (some item) e, gone)
          (rw (drop-set s.fds i none) at rest)
  ]

  -- If only descriptors that can be registered are in the table, selector_destroy returns and has
  -- called handle_close for every registered item, once each, in the order of the descriptors.
  pub selector_destroy_lem :
      (w : W) (s : Selector H D)
      → ((j : ℕ) (item : Item H D) → get_elem? s.fds j ≡ some (some item) → j < items_max_size)
      → selector_destroy w s ≡ some (close_each (used_items s.fds) w)
  unfolding selector_destroy
  selector_destroy_lem w s k =
      let (r, e, f) =
        Returns-some _ (unregister_all (length s.fds) 0 w s)
          (unregister_all_lem (length s.fds) 0 w s (omega arith) (λ j item _ g. k j item g)) in
      rw (e, f) refl
