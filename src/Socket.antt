-- ===== src/Socket.antt =====
-- src/lib/smtp.c: a client's socket, with the descriptor that its mail is written to, in the
-- selector, and what their handlers see of the server.
-- The answers of the system calls during an event are given with it. `none` is a fault.
pub mod Read
pub mod Write
pub mod File
pub mod Machine
pub mod Accept
pub mod Waits
pub mod Run
pub mod Sent
pub mod Failure
pub mod Unused
mod Tests
use smtp_protos.Prelude.{
  ℕ, zero, suc, ◌+◌, ◌-◌, ◌*◌, ◌/◌, ◌%◌, ◌^◌, ◌≤◌, ◌<◌, ◌≡◌, ◌≢◌, ◌↔◌, ◌⊎◌, List, [], ◌∷◌, ◌++◌,
  Option, none, some, arith, length, set, Bool, true, false, ltb, leb, ◌==◌, ◌&&◌, ◌||◌, not,
  length-set, length-take, Returns, Returns-some, get_or, length-replicate, take, drop,
  if◌then◌else◌, ◌>>=◌, ◌>>◌, Bool-cases, Option-cases, inl, inr, refl, Returns-bind, Returns-mono,
  All, All-mono, filled, replicate, length-filled, set-filled, set-filled_end, set-replicate,
  length-append, ap, sym, ◌∙◌, append-nil, append_assoc, store, codes, ℤ, pos, negsuc, map, assert,
  dec_lt, ℕ_discrete,
}
use smtp_protos.Process.{
  Session, SmtpState, ehlo, from, to, data_cmd, body, done, xauth, xfrom, xget, xtran, xquit, error,
  address_size, row_size,
}
use smtp_protos.Process.Admin.{Directory}
use smtp_protos.Request.{
  RequestParser, Request, RequestState, request_done, request_is_done, zeroed,
}
use smtp_protos.Request.Line.{request_consume, request_parser_init}
use smtp_protos.Request.Body.{request_consume_data, request_parser_data_init}
use smtp_protos.Request.Admin.{request_consume_admin, request_parser_admin_init}
use smtp_protos.Buffer.{
  Buffer, buffer_can_read, buffer_read_ptr, buffer_read_adv, buffer_write_ptr, receive, buffer_init,
}
use smtp_protos.Selector.{
  Selector, Item, SelectorStatus, selector_success, selector_enomem, selector_maxfd, selector_iargs,
  selector_fdinuse, selector_set_interest, selector_register, selector_unregister_fd,
}
use smtp_protos.Monitor.{
  Collected, monitor_add_sent_bytes, monitor_add_connection, monitor_close_connection,
}
use smtp_protos.Registry.{AccessRegistry, register_mail}
use smtp_protos.Smtp.{
  SocketState, request_read, request_write, request_data_read, request_admin, request_data_write,
  request_finished, request_failed, request_process,
}
use smtp_protos.CString.{c_str, strlen}

-- smtp_handler and file_handler; the other handlers are those of main.c.
pub data FdHandler : Type 0 where
  smtp_handler file_handler other_handler : FdHandler

-- smtp_data: the session, its own address, and the descriptors and names of the files.
pub record Client : Type 0 where
  pub session : Session
  pub address : ℕ
  pub fd : ℤ
  pub output_fd : ℤ
  pub filename_fd : List ℕ
  pub temp_full_path : List ℕ

-- What the calls of one event answer. `received` is what recv writes, none where it fails; `sent`
-- and `wrote` are the results of send and of write; `temp_file` is create_temp_mail_file, from the
-- recipient and the two names to the descriptor and the names; `pipe_end` is the descriptor that is
-- written for a transformation; `memory` is that of the selector's table; `now` is time(NULL).
pub record Answers : Type 0 where
  pub received : Option (List ℕ)
  pub sent : ℤ
  pub wrote : ℤ
  pub temp_file : List ℕ → List ℕ → List ℕ → ℤ × List ℕ × List ℕ
  pub pipe_end : ℤ
  pub memory : Bool
  pub now : ℤ

-- What a key leads to. `outputs` is what was written to each descriptor of a file or a pipe, in
-- order; `delivered` is each call of copy_temp_to_new_single: the recipient, the name and the path.
pub record World : Type 0 where
  pub client : Client
  pub key_fd : ℤ
  pub selector : Selector FdHandler ℕ
  pub transform : Bool
  pub collected : Collected
  pub registry : AccessRegistry
  pub outputs : List (ℤ × List ℕ)
  pub delivered : List (List ℕ × List ℕ × List ℕ)
  pub answers : Answers

-- fd_interest
abbrev pub op_noop : ℕ
op_noop = 0

abbrev pub op_reading : ℕ
op_reading = 1

abbrev pub op_writing : ℕ
op_writing = 4

abbrev pub is_success : SelectorStatus → Bool
is_success selector_success = true
is_success _ = false

-- SELECTOR_SUCCESS == selector_set_interest(key->s, fd, i)
unfoldable pub set_interest : ℤ → ℕ → World → Option (Bool × World)
set_interest fd i w = do
  (status, s) ← selector_set_interest fd i w.selector
  some (is_success status, record w { selector = s })

unfoldable pub set_interest_key : ℕ → World → Option (Bool × World)
unfolding set_interest
set_interest_key i w = set_interest w.key_fd i w

abbrev pub with_session : Session → World → World
with_session s w = record w { client = record (w.client) { session = s } }

-- dprintf or write to a descriptor.
abbrev pub print_to : ℤ → List ℕ → World → World
print_to fd text w = record w { outputs = w.outputs ++ (fd, text) ∷ [] }

-- request_process on the client, with the registry behind the administrator's commands.
unfoldable pub process : (AccessRegistry → Directory) → World → Option (SocketState × World)
process dir w = do
  (next, s, transform') ← request_process (dir w.registry) w.client.session w.transform
  some (next, record (with_session s w) { transform = transform' })
