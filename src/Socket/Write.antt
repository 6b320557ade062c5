-- ===== src/Socket/Write.antt =====
-- src/lib/smtp.c: request_write_handler, which sends the replies.
use smtp_protos.Prelude.{
  ℕ, suc, ◌-◌, ◌^◌, Option, none, some, Bool, true, false, if◌then◌else◌, ◌>>=◌, ℤ, pos, negsuc,
}
use smtp_protos.Process.{SmtpState, body, xauth, xfrom, xget, xtran, xquit}
use smtp_protos.Buffer.{buffer_can_read, buffer_read_ptr, buffer_read_adv}
use smtp_protos.Monitor.{monitor_add_sent_bytes}
use smtp_protos.Smtp.{SocketState, request_read, request_data_read, request_admin, request_failed}
use smtp_protos.Socket.{World, op_reading, set_interest_key, with_session}

-- A ssize_t given as an unsigned long.
abbrev pub to_unsigned : ℤ → ℕ
to_unsigned (pos n) = n
to_unsigned (negsuc n) = 2 ^ 64 - suc n

abbrev pub is_body_state : SmtpState → Bool
is_body_state body = true
is_body_state _ = false

-- data->state >= XAUTH && data->state <= XQUIT
abbrev pub is_admin_state : SmtpState → Bool
is_admin_state xauth = true
is_admin_state xfrom = true
is_admin_state xget = true
is_admin_state xtran = true
is_admin_state xquit = true
is_admin_state _ = false

-- Set the interest where a test holds, and tell whether both succeed.
abbrev pub try_reading : Bool → World → Option (Bool × World)
try_reading test w = if test then set_interest_key op_reading w else some (false, w)

-- All was sent: what to read next.
unfoldable pub after_send : World → Option (SocketState × World)
after_send w = do
  (to_body, w₁) ← try_reading (is_body_state w.client.session.state) w
  if to_body then some (request_data_read, w₁) else (do
    (to_admin, w₂) ← try_reading (is_admin_state w₁.client.session.state) w₁
    if to_admin then some (request_admin, w₂) else (do
      (to_read, w₃) ← set_interest_key op_reading w₂
      some (if to_read then request_read else request_failed, w₃)))

-- After a send of a part only `ret` is returned without a value: a fault.
unfoldable pub request_write_handler : World → Option (SocketState × World)
unfolding after_send
request_write_handler w = do
  _ ← buffer_read_ptr w.client.session.write_buffer
  let w₁ = record w { collected = monitor_add_sent_bytes (to_unsigned w.answers.sent) w.collected }
  elim (w.answers.sent) [
    | negsuc _ ↦ some (request_failed, w₁)
    | pos n ↦ do
      b ← buffer_read_adv w.client.session.write_buffer (pos n)
      let w₂ = with_session (record (w.client.session) { write_buffer = b }) w₁
      if buffer_can_read b then none else after_send w₂
  ]
