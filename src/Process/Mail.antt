-- ===== src/Process/Mail.antt =====
-- The commands of src/lib/process.c that make up a mail transaction. MAIL and XAUTH are both
-- accepted in the state `from`, so handle_from takes handle_xauth as its argument.
use smtp_protos.Prelude.{
  ℕ, ◌+◌, ◌*◌, ◌%◌, ◌^◌, List, Option, none, some, length, Bool, true, false, ◌==◌, ◌&&◌, not,
  get_or, drop, if◌then◌else◌, ◌>>=◌, codes,
}
use smtp_protos.Process.{
  SmtpState, ehlo, from, to, data_cmd, body, Handler, request_of, sprintf, reply, is_valid,
  extract_email, is_foreign, mail_size, row_size,
}
use smtp_protos.Process.Replies.{
  bad_command, welcome, ok_data, ok_body, bad_syntax, ok, mail_from_unknown, rcpt_to_unknown,
}
use smtp_protos.CString.{c_str, strcasecmp_eq, strncasecmp_eq, strcpy}

unfoldable pub handle_helo : Handler
handle_helo t =
    if not (strcasecmp_eq (request_of t).verb (codes "HELO"))
      && not (strcasecmp_eq (request_of t).verb (codes "EHLO"))
    then reply t bad_command ehlo
    else if get_or (request_of t).arg 0 0 == 0
    then reply t bad_command ehlo
    else reply t welcome from

-- The address of an argument `prefix<address>`, if it is one.
unfoldable pub address_of : List ℕ → List ℕ → Option (List ℕ)
address_of prefix arg =
    if not (strncasecmp_eq arg prefix (length prefix))
    then none
    else extract_email (drop (length prefix) arg) mail_size

unfoldable pub handle_from : Handler → Handler
unfolding address_of
handle_from handle_xauth t =
    if strcasecmp_eq (request_of t).verb (codes "XAUTH") then handle_xauth t else (do
      (valid, t') ← is_valid (codes "MAIL") t
      if not valid then some (t', from) else elim (address_of (codes "FROM:") (request_of t').arg) [
        | none ↦ reply t' (bad_syntax (codes "MAIL FROM:<address>")) from
        | some mail ↦ if is_foreign mail then reply t' (mail_from_unknown mail) from else (do
          mail_from' ← strcpy t'.session.mail_from 0 mail
          reply (record t' { session = record (t'.session) { mail_from = mail_from' } })
              (ok (codes "2.1.0")) to)
      ])

unfoldable pub handle_to : Handler
unfolding address_of
handle_to t = do
  (valid, t') ← is_valid (codes "RCPT") t
  if not valid then some (t', to) else elim (address_of (codes "TO:") (request_of t').arg) [
    | none ↦ reply t' (bad_syntax (codes "RCPT TO:<address>")) to
    | some mail ↦ if is_foreign mail then reply t' (rcpt_to_unknown mail) to else (do
      rcpt_to' ← strcpy t'.session.rcpt_to (row_size * t'.session.rcpt_qty) mail
      let session' = record (t'.session) {
        rcpt_to = rcpt_to';
        rcpt_qty = (t'.session.rcpt_qty + 1) % 2 ^ 64;
      }
      reply (record t' { session = session' }) (ok (codes "2.1.0")) data_cmd)
  ]

unfoldable pub handle_body : Handler
handle_body t = do
  t' ← sprintf ok_body t
  text' ← strcpy t'.session.text 0 (c_str (request_of t').text)
  some (record t' { session = record (t'.session) { text = text'; state = ehlo } }, ehlo)

abbrev pub is_data_cmd : SmtpState → Bool
is_data_cmd data_cmd = true
is_data_cmd _ = false

-- DATA, or one more recipient.
unfoldable pub handle_data : Handler
unfolding handle_to
handle_data t = do
  (t', tried) ←
      (if strcasecmp_eq (request_of t).verb (codes "RCPT") then handle_to t else some (t, to))
  if is_data_cmd tried
      then some (t', data_cmd)
      else if not (strcasecmp_eq (request_of t').verb (codes "DATA"))
      then reply t' bad_command data_cmd
      else reply t' ok_data body
