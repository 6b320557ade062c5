-- ===== src/Main/Tests.antt =====
-- Runs of src/main.c.
use smtp_protos.Prelude.{
  ℕ, suc, ◌+◌, ◌≡◌, List, [], ◌∷◌, Option, none, some, arith, true, false, Returns, refl, replicate,
  codes, pos,
}
use smtp_protos.Prelude.{Within}
use smtp_protos.CString.{strcmp_eq}
use smtp_protos.Args.{Strtol}
use smtp_protos.Selector.{Selector, Item}
use smtp_protos.Selector.Iteration.{FdHandlers, Selected, ready, interrupted, failed}
use smtp_protos.Selector.Calls.{
  Call, reading, acting, perform, calls_below, job_calls, selector_select_calls,
}
use smtp_protos.Selector.Destroy.{close_each, used_items}
use smtp_protos.Main.{main, log_table}
use smtp_protos.Main.Arguments.{check_port, check_command, init_status}
use smtp_protos.Main.Status.{IsFailure, main-IsFailure}
use smtp_protos.Main.Serving.{all_well, status_of, undone, Served, main_lem}
use smtp_protos.Main.Table.{Bounds, started_table, started-Bounds, server_table}
use smtp_protos.Logger.{Logger}
use smtp_protos.Monitor.Wire.{little, ntohs, htons}
use smtp_protos.Monitor.{
  Collected, handle_udp_packet, parse_monitor_message, is_valid_command, process_valid_command,
}
use smtp_protos.Selector.{write_item, items_update_fdset_for_fd, next_capacity, count_bits}
use smtp_protos.Monitor.Client.{prepare_buffer}
use smtp_protos.Prelude.{◌++◌, filled, negsuc, length, ◌==◌, if◌then◌else◌}

-- Every handler counts its call.
abbrev counting : FdHandlers ℕ ℕ ℕ
counting = record {
  handle_read = λ h. some (λ fd d s w. some (s, suc w));
  handle_write = λ h. some (λ fd d s w. some (s, suc w));
  handle_block = λ h. some (λ fd d s w. some (s, suc w));
}

abbrev close_item : Item ℕ ℕ → ℕ → ℕ
close_item item w = w + 100

abbrev on_default : List ℕ → Strtol
on_default arg = record { value = pos 0; end_at = 0; erange = false }

abbrev rounds : List Selected
rounds = ready (λ i. i == 5) (λ i. true) ∷ interrupted ∷ failed ∷ []

default_port : check_port on_default (codes "-") ≡ some 2525
unfolding check_port strcmp_eq
default_port = refl

default_command : check_command (λ path. pos 0) (codes "-") ≡ some (init_status none)
unfolding check_command strcmp_eq
default_command = refl

-- The monitor's handler is that of src/lib/monitor.c; of the others none is called.
record Life : Type 0 where
  collected : Collected
  arrived : List (List ℕ)
  replies : List (List ℕ)
  closed : ℕ

abbrev with_reply : Option (List ℕ) → Life → Life
with_reply none w = w
with_reply (some reply) w = record w { replies = reply ∷ w.replies }

abbrev answer_next : List (List ℕ) → Life → Life
answer_next [] w = w
answer_next (datagram ∷ others) w =
    with_reply (handle_udp_packet little w.collected (some datagram))
      (record w { arrived = others })

abbrev act : Call ℕ ℕ → Life → Life
act (reading h fd d) w = if h == 2 then answer_next w.arrived w else w
act _ w = w

abbrev close_life : Item ℕ ℕ → Life → Life
close_life item w = record w { closed = w.closed + 1 }

-- Descriptors 3 to 6 are the servers and 7 is the log file.
abbrev table : Selector ℕ ℕ
table = started_table 1 2 3 0 3 4 5 6 7

table-Bounds : Bounds table
table-Bounds =
    started-Bounds 1 2 3 0 3 4 5 6 7
      (omega arith, (omega arith, (omega arith, (omega arith, (omega arith, tt)))))

-- What the rounds make of the world.
abbrev after_rounds : List Selected → Life → Life
after_rounds [] w = w
after_rounds (failed ∷ rs) w = w
after_rounds (interrupted ∷ rs) w = after_rounds rs w
after_rounds (ready r x ∷ rs) w =
    after_rounds rs
      (perform act (calls_below act r x table (table.max_fd + 1) ++ job_calls act table []) w)

abbrev Leads : Life → List Selected → Selector ℕ ℕ → Life → Type 0
Leads end rs s w = (s ≡ table) × (after_rounds rs w ≡ end)

act-Served : (end : Life) → Served (acting act) close_life (Leads end)
act-Served end = record {
  on_ready = λ r x rs s w (p, q). rw p (
      rw
        (selector_select_calls act r x [] table w
          (omega (arith, table-Bounds.low, table-Bounds.wide)) tt)
        (refl, (refl, q)));
  on_interrupt = λ rs s w p. p;
  bounded = λ rs s w (p, q). rw p table-Bounds;
}

abbrev before : Life
before = record {
  collected = record { sent_bytes = 0; curr_connections = 1; total_connections = 2 };
  arrived = prepare_buffer little 0 0 ∷ prepare_buffer little 0 1 ∷ [];
  replies = [];
  closed = 0;
}

abbrev no_log : Logger ℕ ℕ
no_log = record {
  buffer = [];
  buffer_start = 0;
  buffer_length = 0;
  buffer_capacity = 0;
  log_file_fd = negsuc 0;
  selector = none;
  log_stream = false;
  log_level = 0;
  file = [];
  console = [];
}

main_lem_example :
    Returns
      (main
        (acting act)
        close_life
        1
        2
        0
        (log_table (λ path. pos 7) (codes "01-01-2024") true 3 0 (λ n. some (replicate n 0)) no_log)
        on_default
        (λ path. pos 0)
        (all_well 3 4 5 6)
        rounds
        (λ port config w. w)
        (codes "-" ∷ codes "-" ∷ [])
        before)
      (λ (e, w').
        (e.status ≡ status_of rounds)
        × (e.closed ≡ pos 3 ∷ pos 4 ∷ pos 5 ∷ pos 6 ∷ [])
        × ((t : Selector ℕ ℕ) × (v : Life) × Leads (after_rounds rounds before) (undone rounds) t v
            × (w' ≡ close_each close_life (used_items t.fds) v)))
main_lem_example =
    main_lem (acting act) close_life (Leads (after_rounds rounds before)) 1 2 3 0 (λ path. pos 7)
      (codes "01-01-2024") (λ n. some (replicate n 0)) no_log on_default (λ path. pos 0) 3 4 5 6 7
      rounds (λ port config w. w) (codes "-") (codes "-") before 2525 (init_status none)
      default_port default_command (λ path. refl)
      (omega arith, (omega arith, (omega arith, (omega arith, (omega arith, tt)))))
      (
        (omega arith, (omega arith, (omega arith, tt))),
        ((omega arith, (omega arith, tt)), ((omega arith, tt), (tt, tt))),
      )
      (omega arith, (omega arith, (omega arith, (omega arith, tt))))
      (act-Served (after_rounds rounds before)) (refl, refl)

-- One datagram has been answered in these rounds.
answered_once : length (after_rounds rounds before).replies ≡ 1
unfolding server_table write_item items_update_fdset_for_fd handle_udp_packet parse_monitor_message
    is_valid_command process_valid_command prepare_buffer filled replicate next_capacity count_bits
    ntohs htons
answered_once = refl

main-IsFailure_example :
    Within
      (main counting close_item 1 2 0
        (λ s. some s)
        on_default
        (λ path. pos 0)
        (all_well 3 4 5 6)
        rounds
        (λ port config w. w)
        (codes "-" ∷ codes "-" ∷ [])
        0)
      (λ (e, w'). IsFailure e.status)
main-IsFailure_example =
    main-IsFailure counting close_item 1 2 0 (λ s. some s) on_default (λ path. pos 0)
      (all_well 3 4 5 6) rounds (λ port config w. w) (codes "-" ∷ codes "-" ∷ []) 0

reserved :
    check_port (λ arg. record { value = pos 2526; end_at = 4; erange = false }) (codes "2526")
    ≡ none
unfolding check_port strcmp_eq
reserved = refl
