-- ===== src/Logger/Flush.antt =====
-- src/lib/logger.c: try_flush_buffer_to_file. What the file takes leaves the buffer, in order, and the
-- selector is asked for the file exactly while bytes wait.
use smtp_protos.Prelude.{
  ℕ, ◌+◌, ◌-◌, ◌≤◌, ◌<◌, ◌≡◌, List, ◌++◌, Option, none, some, arith, length, false, ltb, leb, ◌==◌,
  Returns, Returns-some, take, drop, if◌then◌else◌, Bool-cases, inl, inr, refl, Returns-mono, ap,
  sym, ◌∙◌, append-nil, ℤ, pos, negsuc,
}
use smtp_protos.Prelude.{drop-slice, take-whole, append-take-drop, get_elem?-set_same}
use smtp_protos.Selector.{
  SelectorStatus, Selector, items_max_size, selector_set_interest, write_item,
  items_update_fdset_for_fd,
}
use smtp_protos.Selector.Slots.{RegisteredIn, in_table}
use smtp_protos.Logger.{
  Logger, op_noop, op_writing, taken, after_write, ask, try_flush_buffer_to_file,
}
use smtp_protos.Logger.Room.{IsValid, pending, length-pending, bytes_at_start}

-- write(2) takes no more bytes than it is offered.
abbrev pub TakesWithin : (ℕ → ℤ) → Type 0
TakesWithin write = (n : ℕ) → taken (write n) ≤ n

-- What the selector is asked for while `n` bytes wait.
abbrev pub wanted : ℕ → ℕ
wanted n = if ltb 0 n then op_writing else op_noop

module _ {H D : Type 0} where
  -- The file's descriptor, where there is one, is registered with the interest `i`.
  abbrev pub Tracked : ℤ → Option (Selector H D) → ℕ → Type 0
  Tracked (negsuc _) s i = Unit {0}
  Tracked (pos n) none i = ⊥
  Tracked (pos n) (some s) i = (n < items_max_size) × RegisteredIn n i s.fds

  -- The selector is asked for writing exactly while bytes wait.
  abbrev pub InSync : Logger H D → Type 0
  InSync l = Tracked l.log_file_fd l.selector (wanted l.buffer_length)

  set_interest-registers :
      (n i j : ℕ) (s : Selector H D)
      → n < items_max_size
      → RegisteredIn n j s.fds
      → Returns (selector_set_interest (pos n) i s) (λ r. RegisteredIn n i r.1.fds)
  unfolding selector_set_interest write_item items_update_fdset_for_fd
  set_interest-registers n i j s h (item, e, f) =
      let small : leb items_max_size n ≡ false = ground arith in
      rw small (
        rw e (
          record item { interest = i },
          get_elem?-set_same s.fds n (some (record item { interest = i }))
              (in_table s n (some item) e),
          refl,
        ))

  ask_with :
      (i j : ℕ) (l : Logger H D) (fd : ℤ) (s : Option (Selector H D))
      → l.log_file_fd ≡ fd
      → l.selector ≡ s
      → Tracked fd s j
      → Returns
          (ask i l)
          (λ l'. Tracked fd l'.selector i × (l' ≡ record l { selector = l'.selector }))
  unfolding ask selector_set_interest
  ask_with i j l (negsuc n) none e f t = rw (ask, f) (tt, cc)
  ask_with i j l (negsuc n) (some s) e f t = rw (ask, f) (rw e (tt, refl))
  ask_with i j l (pos n) none e f t = elim t [ ]
  ask_with i j l (pos n) (some s) e f t =
      let (r, g, k) =
        Returns-some (λ (r : SelectorStatus × Selector H D). RegisteredIn n i r.1.fds)
          (selector_set_interest (pos n) i s) (set_interest-registers n i j s t.0 t.1) in
      rw (ask, f) (rw e (rw g ((t.0, k), refl)))

  -- Asking changes the selector only.
  pub ask_lem :
      (i j : ℕ) (l : Logger H D)
      → Tracked l.log_file_fd l.selector j
      → Returns
          (ask i l)
          (λ l'. Tracked l.log_file_fd l'.selector i × (l' ≡ record l { selector = l'.selector }))
  ask_lem i j l t = ask_with i j l l.log_file_fd l.selector refl refl t

  drop-pending :
      (n : ℕ) (l : Logger H D)
      → n ≤ l.buffer_length
      → take (l.buffer_length - n) (drop (l.buffer_start + n) l.buffer) ≡ drop n (pending l)
  unfolding pending
  drop-pending n l h =
      let all : l.buffer_start + l.buffer_length - l.buffer_start ≡ l.buffer_length = omega arith in
      let left : l.buffer_start + l.buffer_length - (l.buffer_start + n) ≡ l.buffer_length - n =
        omega arith in
      let e =
        drop-slice l.buffer l.buffer_start (l.buffer_start + l.buffer_length) n (omega arith) in
      sym (rw (all, left) at e)

  -- Bytes that leave the front of the buffer for the file.
  after_write_lem :
      (n : ℕ) (l : Logger H D)
      → IsValid l
      → n ≤ l.buffer_length
      → IsValid (after_write n (pending l) l)
        × ((after_write n (pending l) l).file ++ pending (after_write n (pending l) l)
            ≡ l.file ++ pending l)
  after_write_lem n l v h = elim (Bool-cases (ltb 0 n)) [
    | inr e ↦ rw e (v, refl)
    | inl e ↦ elim (Bool-cases (l.buffer_length - n == 0)) [
      | inl f ↦
          let none_left : l.buffer_length - n ≡ 0 = ground arith in
          rw e (
            rw f (
              record {
                sized = v.sized;
                at_least = v.at_least;
                at_most = v.at_most;
                room = omega arith;
              },
              unfold pending in
                  rw none_left (
                    append-nil (l.file ++ take n (pending l))
                    ∙ ap (λ ys. l.file ++ ys)
                        (take-whole (pending l) n (omega (arith, length-pending l (omega arith))))),
            ))
      | inr f ↦ rw e (
          rw f (
            record {
              sized = v.sized;
              at_least = v.at_least;
              at_most = v.at_most;
              room = omega arith;
            },
            unfold pending in rw (drop-pending n l h) (append-take-drop l.file (pending l) n),
          ))
    ]
  ]

  -- What only a flush may change.
  pub record Flushed (l l' : Logger H D) : Type 0 where
    pub valid : IsValid l'
    pub in_sync : InSync l'
    pub order : l'.file ++ pending l' ≡ l.file ++ pending l
    pub same : l' ≡ (record l {
      buffer_start = l'.buffer_start;
      buffer_length = l'.buffer_length;
      file = l'.file;
      selector = l'.selector;
    })

  after_write_same :
      (n : ℕ) (bytes : List ℕ) (l : Logger H D)
      → let l' = after_write n bytes l in
        l' ≡ (record l {
          buffer_start = l'.buffer_start;
          buffer_length = l'.buffer_length;
          file = l'.file;
        })
  after_write_same n bytes l = elim (Bool-cases (ltb 0 n)) [ inl e ↦ rw e refl | inr e ↦ rw e refl ]

  -- Whatever write answers, what the file has taken and then what waits are what they were together,
  -- and the selector is asked for the file exactly while bytes wait.
  pub try_flush_lem :
      (write : ℕ → ℤ) (j : ℕ) (l : Logger H D)
      → TakesWithin write
      → IsValid l
      → Tracked l.log_file_fd l.selector j
      → Returns (try_flush_buffer_to_file write l) (Flushed l)
  unfolding try_flush_buffer_to_file
  try_flush_lem write j l takes v t =
      let n = taken (write (length (pending l))) in
      let l₀ = after_write n (pending l) l in
      let same = after_write_same n (pending l) l in
      let fits : n ≤ l.buffer_length =
        omega (arith, takes (length (pending l)), length-pending l (omega arith)) in
      let (valid, order) = after_write_lem n l v fits in
      let t₀ : Tracked l₀.log_file_fd l₀.selector j =
        rw (ap (λ (x : Logger H D). x.log_file_fd) same)
          (rw (ap (λ (x : Logger H D). x.selector) same) t) in
      rw (bytes_at_start l (omega arith)) (
        Returns-mono
          (λ (l' : Logger H D).
            Tracked l₀.log_file_fd l'.selector (wanted l₀.buffer_length)
            × (l' ≡ record l₀ { selector = l'.selector }))
          (Flushed l) (ask (wanted l₀.buffer_length) l₀)
          (λ l' p. rw (p.1) (record {
            valid = record {
              sized = valid.sized;
              at_least = valid.at_least;
              at_most = valid.at_most;
              room = valid.room;
            };
            in_sync = p.0;
            order = unfold pending in order;
            same = ap (λ (x : Logger H D). record x { selector = l'.selector }) same;
          }))
          (ask_lem (wanted l₀.buffer_length) j l₀ t₀))
