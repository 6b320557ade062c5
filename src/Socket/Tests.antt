-- ===== src/Socket/Tests.antt =====
-- src/lib/smtp.c: a client that is accepted and greeted.
use smtp_protos.Prelude.{
  ℕ, ◌≡◌, [], ◌∷◌, Option, none, some, arith, true, false, Returns, refl, filled, replicate, pos,
  negsuc,
}
use smtp_protos.Process.Admin.{Directory}
use smtp_protos.Request.Line.{request_parser_init}
use smtp_protos.Buffer.{buffer_can_read, buffer_read_ptr, buffer_read_adv, receive, buffer_init}
use smtp_protos.Selector.{
  Selector, Item, SelectorStatus, selector_success, selector_enomem, selector_maxfd, selector_iargs,
  selector_fdinuse, selector_set_interest, selector_register, selector_unregister_fd,
}
use smtp_protos.Monitor.{Collected, monitor_add_sent_bytes, monitor_add_connection}
use smtp_protos.Registry.{AccessRegistry}
use smtp_protos.Smtp.{request_read, request_data_write, request_failed}
use smtp_protos.Socket.{
  Client, Answers, World, FdHandler, smtp_handler, file_handler, other_handler, op_noop, op_reading,
  op_writing, is_success, set_interest, set_interest_key, with_session, print_to, process,
}
use smtp_protos.Selector.Slots.{Registered}
use smtp_protos.Socket.Read.{
  consumers_table, consume, wait_for_file, answer, is_data_read, request_actual_read,
  request_read_handler, get_bytes,
}
use smtp_protos.Socket.Write.{after_send, request_write_handler}
use smtp_protos.Socket.Waits.{IsFresh}
use smtp_protos.Socket.Machine.{place, states_handlers, alive, write_handler, write_file}
use smtp_protos.Stm.{
  StateDefinition, StateMachine, handle_first, call, stm_handler, stm_handler_read,
  stm_handler_write,
}
use smtp_protos.Prelude.{get_elem?}
use smtp_protos.Socket.Waits.States.{ready_of, machine_in}
use smtp_protos.Selector.{op_read, op_write}
use smtp_protos.Socket.Accept.{new_machine, new_session, welcome_message, smtp_passive_accept}
use smtp_protos.Socket.Read.{request_read_init, request_admin_init}
use smtp_protos.Socket.Waits.Delivered.{readable, writable, Delivered}
use smtp_protos.Socket.Waits.Delivered.{callback_for}
use smtp_protos.Stm.{stm_init, stm_state}
use smtp_protos.Socket.Run.{Reached, accepted, client_event, Resumed, Ready, event_of}
use smtp_protos.Socket.Run.Invariant.{Reached-callback, Reached-Ready}
use smtp_protos.Selector.{write_item}
use smtp_protos.Socket.Sent.{Reachable, request_write_handler_lem}
use smtp_protos.Socket.Failure.{write_file_error}

abbrev no_mails : AccessRegistry
no_mails = record { mails_count = 0; users = []; by_name = []; by_time = [] }

abbrev directory : AccessRegistry → Directory
directory r = record {
  authenticate = λ _. false;
  is_user = λ _. false;
  convert_and_validate_date = λ _. none;
  print_mails = λ _. none;
  print_mails_by_day = λ _ _. none;
}

abbrev table : Selector FdHandler ℕ
table = record {
  fds = none ∷ none ∷ none ∷ none ∷ none ∷ none ∷ none ∷ none ∷ none ∷ [];
  max_fd = 0;
  master_r = λ _. false;
  master_w = λ _. false;
}

abbrev counters : Collected
counters = record { sent_bytes = 0; curr_connections = 0; total_connections = 0 }

-- All is sent, and files are numbered 7.
abbrev calls : Answers
calls = record {
  received = none;
  sent = pos 33;
  wrote = pos 0;
  temp_file = λ _ _ _. (pos 7, [], []);
  pipe_end = pos 8;
  memory = true;
  now = pos 0;
}

abbrev accept_run : Option (Option (StateMachine World × Client) × Selector FdHandler ℕ × Collected)
accept_run = smtp_passive_accept directory (pos 3) (pos 5) (some 1) true table counters

abbrev greeted : Client
greeted = record {
  session = record new_session {
    write_buffer = record {
      mem = filled 4096 0 welcome_message;
      limit = 4096;
      read = 0;
      write = 33;
    };
  };
  address = 1;
  fd = pos 5;
  output_fd = pos 0;
  filename_fd = [];
  temp_full_path = [];
}

abbrev item : Item FdHandler ℕ
item = record { fd = 5; interest = op_writing; handler = smtp_handler; data_of = 1 }

abbrev world : World
world = record {
  client = greeted;
  key_fd = pos 5;
  selector = write_item 5 item 5 table;
  transform = false;
  collected = counters;
  registry = no_mails;
  outputs = [];
  delivered = [];
  answers = calls;
}

accept_runs :
    accept_run
    ≡ some (some (new_machine directory, greeted), world.selector, monitor_add_connection counters)
unfolding smtp_passive_accept new_machine new_session stm_init smtp_protos.Stm.numbered
    states_handlers selector_register receive buffer_init replicate smtp_protos.Selector.put_item
    filled write_item monitor_add_connection
accept_runs = refl

greeted-Reached : Reached directory (alive (new_machine directory) world)
greeted-Reached = accepted (pos 3) (pos 5) 1 true table counters world accept_runs refl refl

-- The greeting has been sent, and a command is waited for.
abbrev read_world : World
read_world = record world {
  client = record greeted {
    session = record (greeted.session) {
      request_parser = request_parser_init greeted.session.request_parser;
      write_buffer = record {
        mem = filled 4096 0 welcome_message;
        limit = 4096;
        read = 0;
        write = 0;
      };
    };
  };
  selector = write_item 5 (record item { interest = op_reading }) 5 world.selector;
  collected = monitor_add_sent_bytes 33 counters;
}

greeted_serves :
    write_handler (new_machine directory) world
    ≡ some (alive (machine_in directory request_read) read_world)
unfolding write_handler stm_handler_write stm_handler handle_first new_machine states_handlers
    smtp_protos.Stm.arrive smtp_protos.Stm.depart call smtp_protos.Stm.jump request_write_handler
    after_send buffer_read_ptr buffer_read_adv buffer_can_read new_session buffer_init
    set_interest_key set_interest selector_set_interest write_item
    smtp_protos.Selector.items_update_fdset_for_fd smtp_protos.Socket.Read.request_read_init
greeted_serves = refl

greeted_stays : Resumed world world
greeted_stays = record { same_client = refl; same_interest = λ i h. h; same_output = λ i h. h }

files-IsFresh : IsFresh (event_of world)
files-IsFresh = record { file_fresh = λ r n p e. cc e; pipe_fresh = λ e. cc e }

greeted_waits : Delivered writable (pos 5) world
unfolding write_item smtp_protos.Selector.items_update_fdset_for_fd
greeted_waits = (op_writing, (item, refl, refl), refl)

reading-Reached : Reached directory (alive (machine_in directory request_read) read_world)
reading-Reached =
    client_event writable world greeted-Reached greeted_stays files-IsFresh refl greeted_waits
      greeted_serves

reading_waits : Delivered readable (pos 5) read_world
unfolding write_item smtp_protos.Selector.items_update_fdset_for_fd
reading_waits = (op_reading, (record item { interest = op_reading }, refl, refl), refl)

Reached-Ready_example : Ready directory (machine_in directory request_read) read_world
Reached-Ready_example =
    Reached-Ready directory (machine_in directory request_read) read_world reading-Reached

reading_state : stm_state (machine_in directory request_read) ≡ some (place request_read)
unfolding stm_state new_machine states_handlers
reading_state = refl

Reached-callback_example :
    (f : World → Option (ℕ × World)) × (ready_of directory
        (callback_for readable)
        (get_elem? (machine_in directory request_read).states (place request_read))
      ≡ some f)
Reached-callback_example =
    Reached-callback directory readable (machine_in directory request_read) read_world
      reading-Reached (place request_read) reading_state refl reading_waits

world-Reachable : Reachable world op_writing
unfolding write_item smtp_protos.Selector.items_update_fdset_for_fd
world-Reachable = record {
  number = 5;
  is_number = refl;
  small = omega arith;
  registered = (item, refl, refl);
}

request_write_handler_lem_example : Returns (request_write_handler world) (λ r.
    (r.0 ≡ request_read)
    × Registered (pos 5) op_reading r.1.selector
    × (r.1.client.session.write_buffer.read ≡ 0)
    × (r.1.client.session.write_buffer.write ≡ 0)
    × (r.1.client.session.read_buffer ≡ world.client.session.read_buffer))
unfolding new_session
request_write_handler_lem_example =
    request_write_handler_lem world world-Reachable (omega arith) refl

abbrev broken : World
broken = record world { answers = record calls { wrote = negsuc 0 } }

write_file_error_example :
    (write_file (machine_in directory request_data_write) broken
      ≡ some (alive (machine_in directory request_failed) broken))
    × ((u : World) → write_file (machine_in directory request_failed) u ≡ none)
write_file_error_example = write_file_error directory broken refl
