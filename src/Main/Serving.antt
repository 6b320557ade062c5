-- ===== src/Main/Serving.antt =====
-- src/main.c: where the set up goes well, main serves until it is told to end.
use smtp_protos.Prelude.{
  ℕ, ◌<◌, ◌≡◌, ◌≢◌, ◌⊎◌, List, [], ◌∷◌, Option, some, Bool, true, Returns, if◌then◌else◌, inl, inr,
  refl, Returns-bind, All, codes, ℤ, pos,
}
use smtp_protos.Args.{Strtol}
use smtp_protos.Selector.{
  Selector, Item, SelectorStatus, selector_success, selector_io, items_max_size,
}
use smtp_protos.Selector.Iteration.{
  FdHandlers, Selected, ready, interrupted, failed, selector_select, handle_block_notifications,
}
use smtp_protos.Selector.Destroy.{close_each, used_items, selector_destroy_lem}
use smtp_protos.Logger.{Logger}
use smtp_protos.Main.{
  SetUp, is_ok, first_failure, status_at_end, only_open, serve, finish, run_loop, after_registering,
  run_server, start, main, log_table,
}
use smtp_protos.Main.Arguments.{Config, check_port, check_command}
use smtp_protos.Main.Table.{
  AllDiffer, Bounds, fresh_table, new_table, server_table, servers_registered, started_table,
  log-Vacant, log_table_lem,
}

-- All the calls of the set up succeed.
abbrev pub all_well : ℕ → ℕ → ℕ → ℕ → SetUp
all_well n6 n4 m6 m4 = record {
  server6 = pos n6;
  server4 = pos n4;
  monitor_server6 = pos m6;
  monitor_server4 = pos m4;
  lingers = true;
  bind6 = true;
  bind4 = true;
  bind_monitor6 = true;
  bind_monitor4 = true;
  listen6 = true;
  listen4 = true;
  nio6 = true;
  nio4 = true;
  nio_monitor6 = true;
  nio_monitor4 = true;
  selector_inits = true;
  memory = true;
}

-- 1 if every round went well, and 2 if pselect failed in one.
abbrev pub status_of : List Selected → ℕ
status_of [] = 1
status_of (failed ∷ rounds) = 2
status_of (_ ∷ rounds) = status_of rounds

-- The rounds that are not done: from the first on in which pselect fails.
abbrev pub undone : List Selected → List Selected
undone [] = []
undone (failed ∷ rounds) = failed ∷ rounds
undone (_ ∷ rounds) = undone rounds

-- `P rounds` is what holds of the table and the world when those rounds are to come.
module _ {H D W : Type 0} (hs : FdHandlers H D W) (handle_close : Item H D → W → W)
    (P : List Selected → Selector H D → W → Type 0) where
  -- Each round in which pselect does not fail is served: its handlers lead from what holds before it to
  -- what holds before the next. The table holds no item beyond the limit.
  pub record Served : Type 0 where
    pub on_ready :
        (slave_r slave_w : ℕ → Bool) (rounds : List Selected) (s : Selector H D) (w : W)
        → P (ready slave_r slave_w ∷ rounds) s w
        → Returns
            (selector_select hs (ready slave_r slave_w) [] s w)
            (λ (ss, _, s', w'). (ss ≡ selector_success) × P rounds s' w')
    pub on_interrupt :
        (rounds : List Selected) (s : Selector H D) (w : W)
        → P (interrupted ∷ rounds) s w
        → P rounds s w
    pub bounded : (rounds : List Selected) (s : Selector H D) (w : W) → P rounds s w → Bounds s

  abbrev Ended : List Selected → SelectorStatus → Type 0
  Ended rounds last =
      ((last ≡ selector_success) × (status_of rounds ≡ 1))
      ⊎ ((last ≡ selector_io) × (status_of rounds ≡ 2))

  serve_lem :
      (rounds : List Selected) (s : Selector H D) (w : W)
      → Served
      → P rounds s w
      → Returns
          (serve hs handle_close rounds s w)
          (λ (last, s', w'). P (undone rounds) s' w' × Ended rounds last)
  unfolding serve selector_select handle_block_notifications
  serve_lem [] s w h p = (p, inl (refl, refl))
  serve_lem (ready r x ∷ rounds) s w h p =
      Returns-bind (λ (ss, _, s', w'). (ss ≡ selector_success) × P rounds s' w') _
        (selector_select hs (ready r x) [] s w) _
        (λ (ss, jobs, s', w') q. rw (q.0) (serve_lem rounds s' w' h q.1))
        (h.on_ready r x rounds s w p)
  serve_lem (interrupted ∷ rounds) s w h p = serve_lem rounds s w h (h.on_interrupt rounds s w p)
  serve_lem (failed ∷ rounds) s w h p = (p, inr (refl, refl))

  finish_lem :
      (n6 n4 m6 m4 : ℕ) (rounds : List Selected) (last : SelectorStatus) (m : List ℕ)
      (s : Selector H D) (w : W)
      → Bounds s
      → Ended rounds last
      → finish hs handle_close (all_well n6 n4 m6 m4) last (some m) (some s) w
        ≡ some (
          record { status = status_of rounds; closed = pos n6 ∷ pos n4 ∷ pos m6 ∷ pos m4 ∷ [] },
          close_each handle_close (used_items s.fds) w,
        )
  unfolding finish status_at_end only_open
  finish_lem n6 n4 m6 m4 rounds last m s w b (inl (e, f)) =
      rw (selector_destroy_lem handle_close w s b.items) (rw (e, f) refl)
  finish_lem n6 n4 m6 m4 rounds last m s w b (inr (e, f)) =
      rw (selector_destroy_lem handle_close w s b.items) (rw (e, f) refl)

  module _ (smtp monitor : H) (no_data : D) (init_log : Selector H D → Option (Selector H D)) where
    run_loop_lem :
        (n6 n4 m6 m4 : ℕ) (rounds : List Selected) (s s' : Selector H D) (w : W)
        → Served
        → init_log s ≡ some s'
        → P rounds s' w
        → Returns
            (run_loop hs handle_close smtp monitor no_data init_log
              (all_well n6 n4 m6 m4)
              rounds
              s
              w)
            (λ (e, w').
              (e.status ≡ status_of rounds)
              × (e.closed ≡ pos n6 ∷ pos n4 ∷ pos m6 ∷ pos m4 ∷ [])
              × ((t : Selector H D) × (v : W) × P (undone rounds) t v
                  × (w' ≡ close_each handle_close (used_items t.fds) v)))
    unfolding run_loop
    run_loop_lem n6 n4 m6 m4 rounds s s' w h logs p = rw logs (
        Returns-bind (λ (last, t, v). P (undone rounds) t v × Ended rounds last) _
          (serve hs handle_close rounds s' w) _
          (λ (last, t, v) q.
            rw
              (finish_lem n6 n4 m6 m4 rounds last
                (if is_ok last then codes "closing" else codes "serving") t v
                (h.bounded (undone rounds) t v q.0) q.1)
              (refl, refl, (t, v, q.0, refl)))
          (serve_lem rounds s' w h p))

  -- Where the arguments are accepted, the set up goes well and the log file opens, with five different
  -- descriptors within the limit, the loop begins with a table that holds the four servers, registered
  -- for reading with their handlers, and the log file, registered for nothing. If what holds then is led
  -- through every round by the handlers that selector_select calls in it, main serves the rounds one
  -- after the other, up to the first in which pselect fails, and returns: what holds after them holds,
  -- handle_close has then been called for every item that was left, the four servers are closed, and the
  -- status is 2 if pselect has failed, otherwise 1.
  pub main_lem :
      (smtp monitor log_handler : H) (no_data : D) (open_file : List ℕ → ℤ) (day : List ℕ)
      (malloc : ℕ → Option (List ℕ)) (l : Logger H D) (strtol : List ℕ → Strtol)
      (access : List ℕ → ℤ) (n6 n4 m6 m4 log : ℕ) (rounds : List Selected)
      (install : ℕ → Config → W → W) (port_arg command_arg : List ℕ) (w : W) (port : ℕ)
      (config : Config)
      → check_port strtol port_arg ≡ some port
      → check_command access command_arg ≡ some config
      → ((path : List ℕ) → open_file path ≡ pos log)
      → All (λ n. n < items_max_size) (n6 ∷ n4 ∷ m6 ∷ m4 ∷ log ∷ [])
      → AllDiffer (n6 ∷ n4 ∷ m6 ∷ m4 ∷ [])
      → All (λ n. n ≢ log) (n6 ∷ n4 ∷ m6 ∷ m4 ∷ [])
      → Served
      → P rounds
          (started_table smtp monitor log_handler no_data n6 n4 m6 m4 log)
          (install port config w)
      → Returns
          (main hs handle_close smtp monitor no_data
            (log_table open_file day true log_handler no_data malloc l)
            strtol
            access
            (all_well n6 n4 m6 m4)
            rounds
            install
            (port_arg ∷ command_arg ∷ [])
            w)
          (λ (e, w').
            (e.status ≡ status_of rounds)
            × (e.closed ≡ pos n6 ∷ pos n4 ∷ pos m6 ∷ pos m4 ∷ [])
            × ((t : Selector H D) × (v : W) × P (undone rounds) t v
                × (w' ≡ close_each handle_close (used_items t.fds) v)))
  unfolding main start run_server after_registering first_failure
  main_lem smtp monitor log_handler no_data open_file day malloc l strtol access n6 n4 m6 m4 log
        rounds install port_arg command_arg w port config hp hc opens small differ apart h p =
      let init_log = log_table open_file day true log_handler no_data malloc l in
      let servers = server_table smtp monitor no_data n6 n4 m6 m4 in
      let begun : main hs handle_close smtp monitor no_data init_log strtol access
            (all_well n6 n4 m6 m4) rounds install (port_arg ∷ command_arg ∷ []) w
          ≡ run_server hs handle_close smtp monitor no_data init_log (all_well n6 n4 m6 m4) rounds
              fresh_table (install port config w) =
        rw (main, hp) (rw (main, hc) (rw (start, new_table {H = H} {D = D}) refl)) in
      rw begun (
        rw
          (servers_registered smtp monitor no_data n6 n4 m6 m4 _ _ _ _
            (small.0, (small.1.0, (small.1.1.0, (small.1.1.1.0, tt)))) differ)
          (run_loop_lem smtp monitor no_data init_log n6 n4 m6 m4 rounds servers
            (started_table smtp monitor log_handler no_data n6 n4 m6 m4 log) (install port config w)
            h
            (log_table_lem open_file day log_handler no_data malloc l servers log opens
              small.1.1.1.1.0
              (log-Vacant smtp monitor no_data n6 n4 m6 m4 log small.1.1.1.1.0 apart))
            p))
