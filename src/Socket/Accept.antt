-- ===== src/Socket/Accept.antt =====
-- src/lib/smtp.c: the acceptance of a client.
use smtp_protos.Prelude.{
  ℕ, ◌*◌, List, [], ◌∷◌, ◌++◌, Option, none, some, Bool, false, if◌then◌else◌, ◌>>=◌, replicate,
  codes, ℤ, pos, negsuc,
}
use smtp_protos.Process.{Session, ehlo, address_size, row_size}
use smtp_protos.Process.Admin.{Directory}
use smtp_protos.Request.{zeroed}
use smtp_protos.Buffer.{receive, buffer_init}
use smtp_protos.Selector.{Selector, selector_register, selector_unregister_fd}
use smtp_protos.Monitor.{Collected, monitor_add_connection}
use smtp_protos.Registry.{AccessRegistry}
use smtp_protos.Smtp.{request_write, request_failed}
use smtp_protos.Socket.{Client, World, FdHandler, smtp_handler, op_writing, is_success}
use smtp_protos.Request.{request_verb}
use smtp_protos.Process.{body_size}
use smtp_protos.Stm.{StateMachine, stm_init}
use smtp_protos.Socket.Machine.{place, states_handlers}

-- welcome_message
unfoldable pub welcome_message : List ℕ
welcome_message = codes "220 local ESMTP Postfix (Ubuntu)" ++ (10 ∷ [])

-- BUFFER_SIZE
abbrev pub buffer_size : ℕ
buffer_size = 4096

-- What calloc gives, with the two buffers.
unfoldable pub new_session : Session
new_session = record {
  state = ehlo;
  request_parser = record { request = zeroed; state = request_verb; i = 0 };
  mail_from = replicate address_size 0;
  rcpt_to = replicate (address_size * row_size) 0;
  rcpt_qty = 0;
  text = replicate body_size 0;
  user = replicate address_size 0;
  is_body = false;
  read_buffer = buffer_init buffer_size (replicate buffer_size 0);
  write_buffer = buffer_init buffer_size (replicate buffer_size 0);
}

module _ (dir : AccessRegistry → Directory) where
  -- The machine of a new client.
  unfoldable pub new_machine : StateMachine World
  unfolding states_handlers
  new_machine = record {
    initial = place request_write;
    states = states_handlers dir;
    max_state = place request_failed;
    current = none;
  }

  -- The new client after an accept that gave `new_socket`, at the address that calloc gave, and the
  -- server's table and counters; no client where one of them failed. If the client cannot be
  -- registered, smtp_done is called with the key of the passive socket, which is removed from the
  -- table: `passive` is its descriptor.
  unfoldable pub smtp_passive_accept :
      (passive new_socket : ℤ) (address : Option ℕ) (memory : Bool)
      → Selector FdHandler ℕ
      → Collected
      → Option (Option (StateMachine World × Client) × Selector FdHandler ℕ × Collected)
  unfolding new_machine new_session welcome_message
  smtp_passive_accept passive (negsuc _) address memory sel c = some (none, sel, c)
  smtp_passive_accept passive new_socket none memory sel c = some (none, sel, c)
  smtp_passive_accept passive new_socket (some address) memory sel c = do
    stm ← stm_init new_machine
    b ← receive new_session.write_buffer welcome_message
    (status, sel') ← selector_register memory new_socket smtp_handler op_writing address sel
    if is_success status
        then some (
          some (
            stm,
            record {
              session = record new_session { write_buffer = b };
              address = address;
              fd = new_socket;
              output_fd = pos 0;
              filename_fd = [];
              temp_full_path = [];
            },
          ),
          sel',
          monitor_add_connection c,
        )
        else (do
          (_, (_, sel'')) ← selector_unregister_fd {W = Unit {0}} (λ _ u. u) passive tt sel'
          some (none, sel'', c))
