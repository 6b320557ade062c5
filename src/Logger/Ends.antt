-- ===== src/Logger/Ends.antt =====
-- src/lib/logger.c: logger_init and logger_finalize.
use smtp_protos.Prelude.{
  ℕ, ◌<◌, ◌≡◌, ◌≢◌, List, [], ◌++◌, Option, none, some, arith, length, Bool, true, false, ltb, leb,
  ◌==◌, length-take, Returns, Returns-some, take, if◌then◌else◌, ◌>>=◌, Bool-cases, Option-cases,
  inl, inr, refl, ap, sym, ◌∙◌, append-nil, codes, ℤ, pos, negsuc,
}
use smtp_protos.Prelude.{get_elem?, get_elem?-set_same, take-whole}
use smtp_protos.Selector.{
  clear_item, Selector, Item, SelectorStatus, selector_success, items_max_size, put_item,
  write_item, items_update_fdset_for_fd, selector_register, selector_unregister_fd,
}
use smtp_protos.Selector.Slots.{RegisteredIn, in_table}
use smtp_protos.CString.{strlen, c_str}
use smtp_protos.Logger.{Logger, log_min_buffer_size, is_open, bytes_at, fd_close_handler}
use smtp_protos.Logger.Setup.{
  try_open_log_file, allocate, register_log, logger_init, close_log, logger_finalize,
}
use smtp_protos.Logger.Room.{IsValid, GivesSize, pending}
use smtp_protos.Logger.Flush.{InSync}

pub try_open_lem :
    (open_file : List ℕ → ℤ) (day name : List ℕ) (n : ℕ)
    → ((path : List ℕ) → open_file path ≡ pos n)
    → (try_open_log_file open_file day (some name)).0 ≡ pos n
unfolding try_open_log_file
try_open_lem open_file day name n h =
    rw
      (h (
        if strlen name == 0 then take 47 (codes "./log/" ++ (day ++ codes ".log")) else c_str name))
      refl

module _ {H D : Type 0} where
  register-free :
      (mem : Bool) (n : ℕ) (handler : H) (d : D) (i : ℕ) (s : Selector H D)
      → n < items_max_size
      → get_elem? s.fds n ≡ some none
      → Returns
          (selector_register mem (pos n) handler i d s)
          (λ r. (r.0 ≡ selector_success) × RegisteredIn n i r.1.fds)
  unfolding selector_register put_item write_item items_update_fdset_for_fd
  register-free mem n handler d i s h e =
      let within = in_table s n none e in
      let small : leb items_max_size n ≡ false = ground arith in
      let there : ltb (length s.fds) n ≡ false = ground arith in
      rw small (
        rw there (
          rw (put_item, e)
            (
              refl,
              (
                record { fd = n; interest = i; handler = handler; data_of = d },
                get_elem?-set_same s.fds n (some _) within,
                refl,
              ),
            )))

  -- With a file that opens, a free slot of the table for it and memory, the logger begins: valid,
  -- with nothing that waits, and its file registered for nothing.
  pub logger_init_lem :
      (open_file : List ℕ → ℤ) (day : List ℕ) (mem : Bool) (handler : H) (d : D)
      (malloc : ℕ → Option (List ℕ)) (s : Selector H D) (name : List ℕ) (stream : Bool)
      (l : Logger H D) (n : ℕ)
      → ((path : List ℕ) → open_file path ≡ pos n)
      → n < items_max_size
      → get_elem? s.fds n ≡ some none
      → GivesSize malloc
      → malloc log_min_buffer_size ≢ none
      → Returns
          (logger_init open_file day mem handler d malloc (some s) (some name) stream l)
          (λ (answer, l').
            (answer ≡ pos 0)
            × IsValid l'
            × InSync l'
            × (l'.log_file_fd ≡ pos n)
            × (pending l' ≡ [])
            × (l'.file ≡ l.file))
  unfolding logger_init register_log allocate
  logger_init_lem open_file day mem handler d malloc s name stream l n opens small free gives has =
      let ((status, s'), e, (ok, slot)) =
        Returns-some
          (λ (r : SelectorStatus × Selector H D).
            (r.0 ≡ selector_success) × RegisteredIn n 0 r.1.fds)
          (selector_register mem (pos n) handler 0 d s)
          (register-free mem n handler d 0 s small free) in
      rw (try_open_lem open_file day name n opens) (
        rw e (elim (Option-cases (malloc log_min_buffer_size)) [
          | inl f ↦ absurd (has f)
          | inr (fresh, f) ↦ rw f (
            refl,
            record {
              sized = gives log_min_buffer_size fresh f;
              at_least = omega arith;
              at_most = omega arith;
              room = omega arith;
            },
            (small, slot),
            refl,
            unfold pending in refl,
            refl,
          )
        ]))

  close_handler_lem :
      (write : ℕ → ℤ) (l : Logger H D)
      → IsValid l
      → ((k : ℕ) → write k ≡ pos k)
      → Returns (fd_close_handler write l) (λ l'.
        (l'.file ≡ l.file ++ take l.buffer_length l.buffer)
        × (l'.log_file_fd ≡ negsuc 0)
        × (l'.buffer_length ≡ 0))
  unfolding fd_close_handler
  close_handler_lem write l v all = elim (Bool-cases (l.buffer_length == 0)) [
    | inl e ↦
        let z : l.buffer_length ≡ 0 = ground arith in rw e (rw z (sym (append-nil l.file)), refl, z)
    | inr e ↦
        let k = length-take l.buffer_length l.buffer in
        let bytes = take l.buffer_length l.buffer in
        let whole : length bytes ≡ l.buffer_length = omega (arith, v.sized, v.room) in
        let at : bytes_at 0 l ≡ some bytes = ground (arith, v.sized, v.room) in
        let some_bytes : ltb 0 (length bytes) ≡ true = ground arith in
        rw e (
          rw at (
            rw (all (length bytes)) (
              rw some_bytes (
                ap (λ ys. l.file ++ ys) (take-whole bytes (length bytes) (omega arith)),
                refl,
                omega arith,
              ))))
  ]

  close_log_lem :
      (close_of : H → Logger H D → Option (Logger H D)) (write : ℕ → ℤ) (l : Logger H D)
      (s : Selector H D) (n : ℕ) (item : Item H D)
      → l.log_file_fd ≡ pos n
      → l.selector ≡ some s
      → n < items_max_size
      → get_elem? s.fds n ≡ some (some item)
      → close_of item.handler ≡ fd_close_handler write
      → (l' : Logger H D) → fd_close_handler write l ≡ some l'
      → close_log close_of l ≡ some (record l' { selector = none }, some (clear_item n item s))
  unfolding close_log selector_unregister_fd
  close_log_lem close_of write l s n item e f h slot own l' g =
      let closing : Item H D → Option (Logger H D) → Option (Logger H D) =
        λ i w. w >>= close_of i.handler in
      let small : leb items_max_size n ≡ false = ground arith in
      let there : selector_unregister_fd closing (pos n) (some l) s
          ≡ some (selector_success, (close_of item.handler l, clear_item n item s)) =
        rw small (rw (selector_unregister_fd, slot) refl) in
      let mine : close_of item.handler l ≡ some l' =
        ap (λ (k : Logger H D → Option (Logger H D)). k l) own ∙ g in
      let found : selector_unregister_fd closing l.log_file_fd (some l) s
          ≡ some (selector_success, (some l', clear_item n item s)) =
        ap (λ (fd : ℤ). selector_unregister_fd closing fd (some l) s) e
        ∙ there
        ∙ ap (λ (w : Option (Logger H D)). some (selector_success, (w, clear_item n item s)))
            mine in
      ap
        (λ (t : Option (Selector H D)). elim t [
          | none ↦ some (l, none)
          | some s' ↦ do
            (_, (closed, s'')) ← selector_unregister_fd closing l.log_file_fd (some l) s'
            l'' ← closed
            some (record l'' { selector = none }, some s'')
        ])
        f
      ∙ rw found refl

  -- At the end, if the file takes all it is offered, it is offered as many bytes from the front of
  -- the buffer as wait; these are the ones that wait if none was written since the last that moved
  -- them there. Then the file is closed, nothing waits, and the memory is given back.
  pub logger_finalize_lem :
      (close_of : H → Logger H D → Option (Logger H D)) (write : ℕ → ℤ) (l : Logger H D)
      (s : Selector H D) (n : ℕ) (item : Item H D)
      → IsValid l
      → l.log_file_fd ≡ pos n
      → l.selector ≡ some s
      → n < items_max_size
      → get_elem? s.fds n ≡ some (some item)
      → close_of item.handler ≡ fd_close_handler write
      → ((k : ℕ) → write k ≡ pos k)
      → Returns (logger_finalize close_of l) (λ (l', table).
        (l'.file ≡ l.file ++ take l.buffer_length l.buffer)
        × (l.buffer_start ≡ 0 → l'.file ≡ l.file ++ pending l)
        × (l'.log_file_fd ≡ negsuc 0)
        × (l'.buffer ≡ [])
        × (l'.buffer_length ≡ 0)
        × (l'.selector ≡ none))
  unfolding logger_finalize close_log selector_unregister_fd
  logger_finalize_lem close_of write l s n item v e f h slot own all =
      let (l', g, (written, closed, none_left)) =
        Returns-some
          (λ (l' : Logger H D).
            (l'.file ≡ l.file ++ take l.buffer_length l.buffer)
            × (l'.log_file_fd ≡ negsuc 0)
            × (l'.buffer_length ≡ 0))
          (fd_close_handler write l) (close_handler_lem write l v all) in
      let opened : is_open l.log_file_fd ≡ true = ap is_open e in
      let gone = close_log_lem close_of write l s n item e f h slot own l' g in
      rw opened (
        rw gone (
          written,
          (λ z. written ∙ unfold pending in (rw z refl)),
          closed,
          refl,
          ground arith,
          refl,
        ))
