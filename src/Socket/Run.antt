-- ===== src/Socket/Run.antt =====
-- src/lib/smtp.c: the run of a client's socket, from its acceptance, over the events that the
-- selector delivers.
pub mod Invariant
use smtp_protos.Prelude.{
  ℕ, ◌≡◌, ◌≢◌, ◌⊎◌, List, Option, none, some, Bool, true, false, Bool-cases, inl, inr, refl, ap,
  sym, ◌∙◌, ℤ, pos, negsuc,
}
use smtp_protos.Process.Admin.{Directory}
use smtp_protos.Buffer.{receive}
use smtp_protos.Selector.{Selector, selector_success, selector_register, selector_unregister_fd}
use smtp_protos.Monitor.{Collected}
use smtp_protos.Registry.{AccessRegistry}
use smtp_protos.Smtp.{
  SocketState, request_read, request_write, request_data_read, request_admin, request_data_write,
  request_finished, request_failed,
}
use smtp_protos.Socket.{
  Client, World, FdHandler, smtp_handler, op_noop, op_reading, op_writing, is_success,
}
use smtp_protos.Prelude.{Within, Within-bind, Within-any}
use smtp_protos.Selector.Slots.{Registered}
use smtp_protos.Socket.Waits.{Event, Framed, IsFresh, Waits, is_success_lem}
use smtp_protos.Socket.Machine.{
  place, states_handlers, Socket, alive, freed, read_handler, write_handler, write_file, is_over,
}
use smtp_protos.Stm.{
  StateDefinition, StateMachine, handle_first, call, stm_handler, stm_handler_read,
  stm_handler_write,
}
use smtp_protos.Prelude.{get_elem?}
use smtp_protos.Socket.Waits.States.{state_at, state_at-place, ready_of, machine_in}
use smtp_protos.Socket.Accept.{new_machine, new_session, welcome_message, smtp_passive_accept}
use smtp_protos.Socket.Waits.Delivered.{
  Readiness, readable, writable, serve, Delivered, Delivered-asks, Remains,
}
use smtp_protos.Socket.Waits.Delivered.{callback_for, Delivered-callback}
use smtp_protos.Socket.Waits.Events.{client_event_lem, first_event_lem, file_event_lem}
use smtp_protos.Selector.Added.{register-Registered}
use smtp_protos.Stm.{stm_init, stm_state}

-- Between two events of a client the server does other things, which leave the client and the
-- interests of its descriptors as they are.
pub record Resumed (w w' : World) : Type 0 where
  pub same_client : w'.client ≡ w.client
  pub same_interest :
      (i : ℕ) → Registered w.client.fd i w.selector → Registered w.client.fd i w'.selector
  pub same_output :
      (i : ℕ)
      → Registered w.client.output_fd i w.selector
      → Registered w.client.output_fd i w'.selector

abbrev pub event_of : World → Event
event_of w = record { fd = w.client.fd; key = w.key_fd; answers = w.answers }

pub event_of-Framed : (w : World) → Framed (event_of w) w
event_of-Framed w = record { at_fd = refl; at_key = refl; at_answers = refl }

module _ (dir : AccessRegistry → Directory) where
  -- What a client's socket comes to: by its acceptance, by an event of its own that the selector was
  -- asked for, or, while its message is written, by one of the message's descriptor.
  pub data Reached : Socket → Type 0 where
    accepted :
        (passive new_socket : ℤ) (address : ℕ) (memory : Bool) (sel : Selector FdHandler ℕ)
        → (c : Collected) {stm : StateMachine World} {client : Client}
        → {sel' : Selector FdHandler ℕ} {c' : Collected} (w : World)
        → smtp_passive_accept dir passive new_socket (some address) memory sel c
          ≡ some (some (stm, client), sel', c')
        → w.client ≡ client
        → w.selector ≡ sel'
        → Reached (alive stm w)
    client_event :
        (r : Readiness) {stm : StateMachine World} {w : World} (w' : World) {s : Socket}
        → Reached (alive stm w)
        → Resumed w w'
        → IsFresh (event_of w')
        → w'.key_fd ≡ w'.client.fd
        → Delivered r w'.client.fd w'
        → serve r stm w' ≡ some s
        → Reached s
    file_event :
        {w : World} (w' : World) {s : Socket}
        → Reached (alive (machine_in dir request_data_write) w)
        → Resumed w w'
        → IsFresh (event_of w')
        → write_file (machine_in dir request_data_write) w' ≡ some s
        → Reached s

  -- The machine has not begun and the greeting is to be sent, or it is in a state and waits for what
  -- the state's handler does.
  abbrev pub Ready : StateMachine World → World → Type 0
  Ready stm w =
      ((stm ≡ new_machine dir) × Registered w.client.fd op_writing w.selector)
      ⊎ ((st : SocketState) × (stm ≡ machine_in dir st) × Waits w.client.fd st w)
