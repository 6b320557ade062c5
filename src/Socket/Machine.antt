-- ===== src/Socket/Machine.antt =====
-- src/lib/smtp.c: the table of the states of a client's socket, the handlers that the selector calls,
-- and the acceptance of a client.
use smtp_protos.Prelude.{
  ℕ, List, [], ◌∷◌, Option, none, some, Bool, ◌==◌, ◌&&◌, ◌||◌, if◌then◌else◌, ◌>>=◌,
}
use smtp_protos.Process.Admin.{Directory}
use smtp_protos.Buffer.{buffer_can_read}
use smtp_protos.Selector.{Item, selector_unregister_fd}
use smtp_protos.Monitor.{monitor_close_connection}
use smtp_protos.Registry.{AccessRegistry}
use smtp_protos.Smtp.{
  SocketState, request_read, request_write, request_data_read, request_admin, request_data_write,
  request_finished, request_failed,
}
use smtp_protos.Socket.{World, FdHandler, smtp_handler}
use smtp_protos.Stm.{
  StateDefinition, StateMachine, stm_handler_read, stm_handler_write, stm_handler_close,
}
use smtp_protos.Socket.Read.{request_read_init, request_admin_init, request_read_handler}
use smtp_protos.Socket.Write.{request_write_handler}
use smtp_protos.Socket.File.{request_data_init, write_file_handler}

-- The place of a state in the enum, and the state at a place.
abbrev pub place : SocketState → ℕ
place request_read = 0
place request_write = 1
place request_data_read = 2
place request_admin = 3
place request_data_write = 4
place request_finished = 5
place request_failed = 6

-- The number of the state that a handler returns.
abbrev pub numbered : Option (SocketState × World) → Option (ℕ × World)
numbered m = do (st, w) ← m; some (place st, w)

-- request_close does nothing.
abbrev pub close_parser : ℕ → World → Option World
close_parser _ w = some w

-- REQUEST_DONE or REQUEST_ERROR.
abbrev pub is_over : ℕ → Bool
is_over st = st == place request_finished || st == place request_failed

module _ (dir : AccessRegistry → Directory) where
  unfoldable pub states_handlers : List (StateDefinition World)
  states_handlers =
      record {
        state = place request_read;
        on_arrival = some (λ _ w. some (request_read_init w));
        on_departure = some close_parser;
        on_read_ready = some (λ w. numbered (request_read_handler dir request_read w));
        on_write_ready = none;
        on_block_ready = none;
      }
      ∷ record {
        state = place request_write;
        on_arrival = none;
        on_departure = none;
        on_read_ready = none;
        on_write_ready = some (λ w. numbered (request_write_handler w));
        on_block_ready = none;
      }
      ∷ record {
        state = place request_data_read;
        on_arrival = some (λ _ w. request_data_init w);
        on_departure = some close_parser;
        on_read_ready = some (λ w. numbered (request_read_handler dir request_data_read w));
        on_write_ready = none;
        on_block_ready = none;
      }
      ∷ record {
        state = place request_admin;
        on_arrival = some (λ _ w. some (request_admin_init w));
        on_departure = some close_parser;
        on_read_ready = some (λ w. numbered (request_read_handler dir request_admin w));
        on_write_ready = none;
        on_block_ready = none;
      }
      ∷ record {
        state = place request_data_write;
        on_arrival = none;
        on_departure = none;
        on_read_ready = none;
        on_write_ready = some (λ w. numbered (write_file_handler dir w));
        on_block_ready = none;
      }
      ∷ record {
        state = place request_finished;
        on_arrival = none;
        on_departure = none;
        on_read_ready = none;
        on_write_ready = none;
        on_block_ready = none;
      }
      ∷ record {
        state = place request_failed;
        on_arrival = none;
        on_departure = none;
        on_read_ready = none;
        on_write_ready = none;
        on_block_ready = none;
      }
      ∷ []

-- What is left after an event: the client, or only the server's part once the client is freed.
pub data Socket : Type 0 where
  alive : StateMachine World → World → Socket
  freed : World → Socket

unfoldable pub close_handler : StateMachine World → World → Option World
close_handler stm w = do
  w' ← stm_handler_close stm w
  some (record w' { collected = monitor_close_connection w'.collected })

-- handle_close of an item: only the client's own does anything.
unfoldable pub handle_close : StateMachine World → Item FdHandler ℕ → Option World → Option World
unfolding close_handler
handle_close stm item w = elim (item.handler) [
  | smtp_handler ↦ do u ← w; close_handler stm u
  | _ ↦ w
]

-- The client is removed from the selector and freed; its socket is not closed.
unfoldable pub smtp_done : StateMachine World → World → Option Socket
unfolding handle_close
smtp_done stm w = do
  (_, (closed, sel)) ← selector_unregister_fd (handle_close stm) w.key_fd (some w) w.selector
  u ← closed
  some (freed (record u { selector = sel }))

unfoldable pub read_handler : StateMachine World → World → Option Socket
read_handler stm w = do
  (st, stm', w') ← stm_handler_read stm w
  if is_over st then smtp_done stm' w' else some (alive stm' w')

-- What is still in the buffer is read at once, in the states for commands and messages.
unfoldable pub write_handler : StateMachine World → World → Option Socket
unfolding read_handler
write_handler stm w = do
  (st, stm', w') ← stm_handler_write stm w
  if is_over st
      then smtp_done stm' w'
      else if (st == place request_read || st == place request_data_read)
          && buffer_can_read w'.client.session.read_buffer
      then read_handler stm' w'
      else some (alive stm' w')

-- The handler of the file's descriptor.
unfoldable pub write_file : StateMachine World → World → Option Socket
write_file stm w = do (_, stm', w') ← stm_handler_write stm w; some (alive stm' w')
