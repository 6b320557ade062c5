-- ===== src/Main/Table.antt =====
-- src/main.c: the table with which the loop begins.
use smtp_protos.Prelude.{
  ℕ, zero, suc, ◌<◌, ◌≤◌, ◌≡◌, ◌≢◌, List, [], ◌∷◌, Option, none, some, arith, length, true, false,
  ltb, leb, if◌then◌else◌, refl, All, filled, replicate, length-set, length-replicate, sym, ◌∙◌, ℤ,
  pos, ℕ_discrete, Option-cases, inl, inr,
}
use smtp_protos.Prelude.{get_elem?, get_elem?-set_other}
use smtp_protos.Selector.{
  Selector, Item, selector_success, items_max_size, selector_new, ensure_capacity, next_capacity,
  empty_table, put_item, write_item, items_update_fdset_for_fd, selector_register,
}
use smtp_protos.Selector.Capacity.{next_capacity_bounds}
use smtp_protos.Selector.Slots.{in_table}
use smtp_protos.Logger.{Logger, log_min_buffer_size}
use smtp_protos.Logger.Setup.{allocate, register_log, logger_init}
use smtp_protos.Logger.Print.{logger_set_level}
use smtp_protos.Logger.Ends.{try_open_lem}
use smtp_protos.Main.{reading, register_servers, init_logs, log_table}

free_place : {A : Type 0} (n i : ℕ) (a : A) → i < n → get_elem? (replicate n a) i ≡ some a
unfolding replicate
free_place zero i a h = absurd (omega arith)
free_place (suc n) zero a h = refl
free_place (suc n) (suc i) a h = free_place n i a (omega arith)

none_used :
    {A : Type 0} (n i : ℕ) (a : A)
    → let empty : Option A = none in get_elem? (replicate n empty) i ≢ some (some a)
unfolding replicate
none_used zero i a e = cc
none_used (suc n) zero a e = cc
none_used (suc n) (suc i) a e = none_used n i a e

-- No two are the same.
abbrev pub AllDiffer : List ℕ → Type 0
AllDiffer [] = Unit {0}
AllDiffer (n ∷ ns) = All (λ m. n ≢ m) ns × AllDiffer ns

module _ {H D : Type 0} where
  -- What selector_new gives in main.
  abbrev pub fresh_table : Selector H D
  fresh_table = record empty_table { fds = filled (next_capacity 1024) none [] }

  pub new_table : selector_new {H = H} {D = D} true 1024 ≡ some fresh_table
  unfolding selector_new ensure_capacity
  new_table = refl

  -- The descriptor with its item.
  abbrev pub placed : ℕ → H → ℕ → D → Selector H D → Selector H D
  placed n handler interest d s =
      write_item n (record { fd = n; interest = interest; handler = handler; data_of = d })
        (if ltb s.max_fd n then n else s.max_fd) s

  -- The table has places for all descriptors, and holds none beyond the limit.
  pub record Bounds (s : Selector H D) : Type 0 where
    pub wide : items_max_size < length s.fds
    pub low : s.max_fd ≤ items_max_size
    pub items :
        (j : ℕ) (item : Item H D) → get_elem? s.fds j ≡ some (some item) → j < items_max_size

  pub fresh-Vacant : (n : ℕ) → n < items_max_size → get_elem? fresh_table.fds n ≡ some none
  unfolding filled
  fresh-Vacant n h =
      free_place (next_capacity 1024) n none
        (let b = next_capacity_bounds 1024 (omega arith) in omega arith)

  pub placed-Vacant :
      (n m i : ℕ) (handler : H) (d : D) (s : Selector H D)
      → n ≢ m
      → get_elem? s.fds m ≡ some none
      → get_elem? (placed n handler i d s).fds m ≡ some none
  unfolding write_item items_update_fdset_for_fd
  placed-Vacant n m i handler d s p e = get_elem?-set_other s.fds n m (some _) p ∙ e

  pub register-placed :
      (n i : ℕ) (handler : H) (d : D) (s : Selector H D)
      → n < items_max_size
      → get_elem? s.fds n ≡ some none
      → selector_register true (pos n) handler i d s
        ≡ some (selector_success, placed n handler i d s)
  unfolding selector_register put_item write_item
  register-placed n i handler d s h e =
      let within = in_table s n none e in
      let small : leb items_max_size n ≡ false = ground arith in
      let there : ltb (length s.fds) n ≡ false = ground arith in
      rw small (rw there (rw (put_item, e) refl))

  pub fresh-Bounds : Bounds fresh_table
  unfolding filled
  fresh-Bounds = record {
    wide =
        let b = next_capacity_bounds 1024 (omega arith) in
        omega (arith, length-replicate {A = Option (Item H D)} (next_capacity 1024) none);
    low = omega arith;
    items = λ j item e. absurd (none_used (next_capacity 1024) j item e);
  }

  pub placed-Bounds :
      (n i : ℕ) (handler : H) (d : D) (s : Selector H D)
      → n < items_max_size
      → Bounds s
      → Bounds (placed n handler i d s)
  unfolding write_item items_update_fdset_for_fd
  placed-Bounds n i handler d s h b = record {
    wide = omega (
      arith,
      b.wide,
      length-set s.fds n (some (record { fd = n; interest = i; handler = handler; data_of = d })),
    );
    low = ground (arith, b.low);
    items = λ j item e. elim (ℕ_discrete n j) [
      | yes p ↦ omega arith
      | no p ↦ b.items j item (sym (get_elem?-set_other s.fds n j (some _) p) ∙ e)
    ];
  }

  -- The four servers, registered for reading one after the other.
  unfoldable pub server_table : H → H → D → ℕ → ℕ → ℕ → ℕ → Selector H D
  server_table smtp monitor no_data n6 n4 m6 m4 = placed m4 monitor reading no_data (
      placed m6 monitor reading no_data
        (placed n4 smtp reading no_data (placed n6 smtp reading no_data fresh_table)))

  pub servers_registered :
      (smtp monitor : H) (no_data : D) (n6 n4 m6 m4 : ℕ) (a b c e : List ℕ)
      → All (λ n. n < items_max_size) (n6 ∷ n4 ∷ m6 ∷ m4 ∷ [])
      → AllDiffer (n6 ∷ n4 ∷ m6 ∷ m4 ∷ [])
      → register_servers no_data
          ((pos n6, smtp, a) ∷ (pos n4, smtp, b) ∷ (pos m6, monitor, c) ∷ (pos m4, monitor, e) ∷ [])
          fresh_table
        ≡ some (selector_success, none, server_table smtp monitor no_data n6 n4 m6 m4)
  unfolding register_servers server_table
  servers_registered smtp monitor no_data n6 n4 m6 m4 a b c e h d =
      let t₁ = placed n6 smtp reading no_data fresh_table in
      let t₂ = placed n4 smtp reading no_data t₁ in
      let t₃ = placed m6 monitor reading no_data t₂ in
      let v₁ = fresh-Vacant n6 h.0 in
      let v₂ = placed-Vacant n6 n4 reading smtp no_data fresh_table d.0.0 (fresh-Vacant n4 h.1.0) in
      let v₃ =
        placed-Vacant n4 m6 reading smtp no_data t₁ d.1.0.0 (
          placed-Vacant n6 m6 reading smtp no_data fresh_table d.0.1.0 (fresh-Vacant m6 h.1.1.0)) in
      let v₄ = placed-Vacant m6 m4 reading monitor no_data t₂ d.1.1.0.0 (
        placed-Vacant n4 m4 reading smtp no_data t₁ d.1.0.1.0 (
          placed-Vacant n6 m4 reading smtp no_data fresh_table d.0.1.1.0
            (fresh-Vacant m4 h.1.1.1.0))) in
      rw (register-placed n6 reading smtp no_data fresh_table h.0 v₁) (
        rw (register-placed n4 reading smtp no_data t₁ h.1.0 v₂) (
          rw (register-placed m6 reading monitor no_data t₂ h.1.1.0 v₃)
            (rw (register-placed m4 reading monitor no_data t₃ h.1.1.1.0 v₄) refl)))

  -- The log file is registered for nothing, whether the logger gets its memory or not.
  pub log_table_lem :
      (open_file : List ℕ → ℤ) (day : List ℕ) (log_handler : H) (no_data : D)
      (malloc : ℕ → Option (List ℕ)) (l : Logger H D) (s : Selector H D) (n : ℕ)
      → ((path : List ℕ) → open_file path ≡ pos n)
      → n < items_max_size
      → get_elem? s.fds n ≡ some none
      → log_table open_file day true log_handler no_data malloc l s
        ≡ some (placed n log_handler 0 no_data s)
  unfolding log_table init_logs logger_set_level logger_init register_log allocate
  log_table_lem open_file day log_handler no_data malloc l s n opens small free =
      rw (try_open_lem open_file day [] n opens) (
        rw (register-placed n 0 log_handler no_data s small free)
          (elim (Option-cases (malloc log_min_buffer_size)) [
            | inl f ↦ rw f refl
            | inr (fresh, f) ↦ rw f refl
          ]))

  -- The table with which the loop begins.
  abbrev pub started_table :
      (smtp monitor log_handler : H) → D → (n6 n4 m6 m4 log : ℕ) → Selector H D
  started_table smtp monitor log_handler no_data n6 n4 m6 m4 log =
      placed log log_handler 0 no_data (server_table smtp monitor no_data n6 n4 m6 m4)

  pub started-Bounds :
      (smtp monitor log_handler : H) (no_data : D) (n6 n4 m6 m4 log : ℕ)
      → All (λ n. n < items_max_size) (n6 ∷ n4 ∷ m6 ∷ m4 ∷ log ∷ [])
      → Bounds (started_table smtp monitor log_handler no_data n6 n4 m6 m4 log)
  unfolding server_table
  started-Bounds smtp monitor log_handler no_data n6 n4 m6 m4 log h =
      placed-Bounds log 0 log_handler no_data _ h.1.1.1.1.0 (
        placed-Bounds m4 reading monitor no_data _ h.1.1.1.0 (
          placed-Bounds m6 reading monitor no_data _ h.1.1.0 (
            placed-Bounds n4 reading smtp no_data _ h.1.0
              (placed-Bounds n6 reading smtp no_data fresh_table h.0 fresh-Bounds))))

  pub log-Vacant :
      (smtp monitor : H) (no_data : D) (n6 n4 m6 m4 log : ℕ)
      → log < items_max_size
      → All (λ n. n ≢ log) (n6 ∷ n4 ∷ m6 ∷ m4 ∷ [])
      → get_elem? (server_table smtp monitor no_data n6 n4 m6 m4).fds log ≡ some none
  unfolding server_table
  log-Vacant smtp monitor no_data n6 n4 m6 m4 log h d =
      placed-Vacant m4 log reading monitor no_data _ d.1.1.1.0 (
        placed-Vacant m6 log reading monitor no_data _ d.1.1.0 (
          placed-Vacant n4 log reading smtp no_data _ d.1.0
            (placed-Vacant n6 log reading smtp no_data fresh_table d.0 (fresh-Vacant log h))))
