-- ===== src/Smtp.antt =====
-- src/lib/smtp.c: the handlers of a client's socket. This file has the processing of a command;
-- the states of the socket's machine are those of headers/smtp.h.
pub mod Inversion
pub mod Moves
pub mod Access
pub mod Password
mod Tests
use smtp_protos.Prelude.{
  ℕ, zero, suc, ◌+◌, ◌-◌, ◌*◌, ◌%◌, ◌^◌, ◌≤◌, ◌<◌, ◌≡◌, ◌≢◌, ◌↔◌, ◌⊎◌, List, [], ◌∷◌, ◌++◌, Option,
  none, some, arith, length, set, Bool, true, false, ltb, leb, ◌==◌, ◌&&◌, ◌||◌, not, length-set,
  Returns, Returns-some, get_or, length-replicate, take, drop, if◌then◌else◌, ◌>>=◌, ◌>>◌,
  Bool-cases, Option-cases, inl, inr, refl, Returns-bind, Returns-mono, All, All-mono, filled,
  replicate, length-filled, set-filled, set-filled_end, set-replicate, length-append, ap, sym, ◌∙◌,
  append-nil, append_assoc, store, codes, ℤ, pos, negsuc, map, assert, dec_lt, ℕ_discrete,
}
use smtp_protos.Process.{
  SmtpState, ehlo, from, to, data_cmd, body, done, xauth, xfrom, xget, xtran, xquit, error, Session,
  Turn, Handler, request_of, sprintf, reply, is_valid, extract_email, is_foreign, mail_size,
  row_size, body_size, response_size, address_size,
}
use smtp_protos.Process.Replies.{
  Reply, auth_msg, bad_pwd, bad_sequence, bad_user, bad_command, welcome, ok_data, ok_body,
  bad_syntax, ok, mail_from_unknown, rcpt_to_unknown, listing, render,
}
use smtp_protos.CString.{c_str, strcasecmp_eq, strncasecmp_eq, strcpy}
use smtp_protos.Buffer.{Buffer, receive, buffer_write_ptr}
use smtp_protos.Process.Anytime.{handle_reset, handle_quit, handle_noop, handle_xquit}
use smtp_protos.Process.Mail.{handle_helo, handle_from, handle_to, handle_data, handle_body}
use smtp_protos.Process.Admin.{Directory, handle_xauth, handle_xfrom, handle_xget, handle_xtran}

-- socket_state
pub data SocketState : Type 0 where
  request_read request_write request_data_read request_admin request_data_write request_finished
        request_failed :
      SocketState

-- The commands that are tried in every state, in order: whether QUIT was given, and whether any
-- other of them was.
unfoldable pub anytime : Turn → Option (Bool × Bool × Turn)
anytime t = do
  (is_noop, t₁) ← handle_noop t
  (is_quit, t₂) ← handle_quit t₁
  (is_rset, t₃) ← handle_reset t₂
  (is_xquit, t₄) ← handle_xquit t₃
  some (is_quit, is_noop || (is_rset || is_xquit), t₄)

-- The reply goes to the write buffer. An array to which nothing was printed has no length.
unfoldable pub send_reply : Turn → Option Session
send_reply t = do
  msg ← t.msg
  write_buffer' ← receive t.session.write_buffer (render msg)
  some (record (t.session) { write_buffer = write_buffer' })

module _ (dir : Directory) where
  -- handlers_table; an entry that is not initialised is a null pointer.
  unfoldable pub handlers_table : SmtpState → Option Handler
  handlers_table ehlo = some handle_helo
  handlers_table from = some (handle_from (handle_xauth dir))
  handlers_table to = some handle_to
  handlers_table data_cmd = some handle_data
  handlers_table body = some handle_body
  handlers_table xauth = some (handle_xauth dir)
  handlers_table xfrom = some (handle_xfrom dir)
  handlers_table xget = some (handle_xget dir)
  handlers_table xtran = some (handle_xtran dir)
  handlers_table _ = none

  -- The call through the table; that of a null pointer is a fault.
  unfoldable pub run_handler : SmtpState → Handler
  unfolding handlers_table
  run_handler st t = do fn ← handlers_table st; fn t

  -- The handler of the state `st` that the session had, and its next state.
  unfoldable pub sequential : SmtpState → Turn → Option Turn
  sequential st t = do
    (t', next) ← run_handler st t
    some (record t' { session = record (t'.session) { state = next } })

  unfoldable pub request_process : Session → Bool → Option (SocketState × Session × Bool)
  request_process s transform = do
    _ ← buffer_write_ptr s.write_buffer
    (is_quit, other, t) ← anytime (record { session = s; transform = transform; msg = none })
    if is_quit then some (request_finished, t.session, t.transform) else (do
      t' ← (if other then some t else sequential s.state t)
      s' ← send_reply t'
      some (request_write, s', t'.transform))
