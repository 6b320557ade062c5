-- ===== src/Socket/Read.antt =====
-- src/lib/smtp.c: the handlers that read from a client.
use smtp_protos.Prelude.{
  ℕ, List, [], Option, none, some, length, Bool, true, false, ◌==◌, not, take, if◌then◌else◌, ◌>>=◌,
}
use smtp_protos.Process.Admin.{Directory}
use smtp_protos.Request.{RequestParser, RequestState, request_is_done}
use smtp_protos.Request.Line.{request_consume, request_parser_init}
use smtp_protos.Request.Body.{request_consume_data}
use smtp_protos.Request.Admin.{request_consume_admin, request_parser_admin_init}
use smtp_protos.Buffer.{Buffer, buffer_can_read, buffer_write_ptr, receive}
use smtp_protos.Registry.{AccessRegistry}
use smtp_protos.Smtp.{
  SocketState, request_read, request_data_read, request_admin, request_data_write, request_failed,
}
use smtp_protos.Socket.{
  World, op_noop, op_writing, set_interest, set_interest_key, with_session, process,
}

unfoldable pub request_read_init : World → World
request_read_init w =
    with_session
      (record (w.client.session) {
        request_parser = request_parser_init w.client.session.request_parser;
      })
      w

unfoldable pub request_admin_init : World → World
request_admin_init w =
    with_session
      (record (w.client.session) {
        request_parser = request_parser_admin_init w.client.session.request_parser;
      })
      w

-- consumers_table; an entry that is not initialised is a null pointer.
unfoldable pub consumers_table :
    SocketState
    → Option (Buffer → RequestParser → Bool → Option (RequestState × Bool × RequestParser × Buffer))
consumers_table request_read = some request_consume
consumers_table request_data_read = some request_consume_data
consumers_table request_admin = some request_consume_admin
consumers_table _ = none

abbrev pub is_data_read : SocketState → Bool
is_data_read request_data_read = true
is_data_read _ = false

-- The bytes of the buffer are consumed.
unfoldable pub consume : SocketState → World → Option (RequestState × World)
consume st w = do
  consumer ← consumers_table st
  (state, _, p, b) ← consumer w.client.session.read_buffer w.client.session.request_parser false
  some (state, with_session (record (w.client.session) { request_parser = p; read_buffer = b }) w)

-- A part of a message is there: wait until the file can be written.
unfoldable pub wait_for_file : World → Option (SocketState × World)
wait_for_file w = do
  (quiet, w₁) ← set_interest_key op_noop w
  if not quiet then some (request_failed, w₁) else (do
    (waiting, w₂) ← set_interest w₁.client.output_fd op_writing w₁
    some (if waiting then request_data_write else request_failed, w₂))

-- The bytes that recv writes, none if it fails.
abbrev pub get_bytes : Option (List ℕ) → List ℕ
get_bytes none = []
get_bytes (some bytes) = bytes

module _ (dir : AccessRegistry → Directory) where
  -- A command is complete: process it, and wait until the reply can be sent.
  unfoldable pub answer : World → Option (SocketState × World)
  answer w = do
    (waiting, w₁) ← set_interest_key op_writing w
    if waiting then process dir w₁ else some (request_failed, w₁)

  -- `st` is data->stm.current->state.
  unfoldable pub request_actual_read : SocketState → World → Option (SocketState × World)
  unfolding consume wait_for_file answer
  request_actual_read st w = do
    (state, w₁) ← consume st w
    if is_data_read st
        then wait_for_file w₁
        else if (request_is_done state false).0
        then answer w₁
        else some (st, w₁)

  -- recv gives no more than the room that it is told.
  unfoldable pub request_read_handler : SocketState → World → Option (SocketState × World)
  unfolding request_actual_read
  request_read_handler st w =
      if buffer_can_read w.client.session.read_buffer then request_actual_read st w else (do
        (_, room) ← buffer_write_ptr w.client.session.read_buffer
        let bytes = take room (get_bytes w.answers.received)
        if length bytes == 0 then some (request_failed, w) else (do
          b ← receive w.client.session.read_buffer bytes
          request_actual_read st (with_session (record (w.client.session) { read_buffer = b }) w)))
