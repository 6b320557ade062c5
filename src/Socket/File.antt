-- ===== src/Socket/File.antt =====
-- src/lib/smtp.c: the file that a message is written to.
use smtp_protos.Prelude.{
  ℕ, zero, suc, ◌*◌, List, [], ◌∷◌, ◌++◌, Option, some, Bool, true, false, not, take, drop,
  if◌then◌else◌, ◌>>=◌, replicate, codes, ℤ, pos, negsuc,
}
use smtp_protos.Process.{address_size, row_size}
use smtp_protos.Process.Admin.{Directory}
use smtp_protos.Request.{RequestState, request_done, zeroed}
use smtp_protos.Request.Body.{request_parser_data_init}
use smtp_protos.Selector.{selector_register, selector_unregister_fd}
use smtp_protos.Registry.{AccessRegistry, register_mail}
use smtp_protos.Smtp.{SocketState, request_data_read, request_failed}
use smtp_protos.CString.{c_str}
use smtp_protos.Socket.{
  World, file_handler, op_noop, op_reading, op_writing, is_success, set_interest, set_interest_key,
  with_session, print_to, process,
}

-- The C strings of the first rows of `rcpt_to`; a row past the array is read as empty, where the code
-- reads what follows it.
unfoldable pub recipients : ℕ → List ℕ → List (List ℕ)
recipients zero rows = []
recipients (suc n) rows = c_str rows ∷ recipients n (drop row_size rows)

abbrev pub crlf : List ℕ
crlf = 13 ∷ 10 ∷ []

-- The lines of the recipients.
unfoldable pub print_recipients : List (List ℕ) → World → World
print_recipients [] w = w
print_recipients (r ∷ rs) w =
    print_recipients rs
      (print_to w.client.output_fd (codes "RCPT TO: <" ++ (r ++ (codes ">" ++ crlf))) w)

-- The client reads a message, which goes to `output`.
abbrev pub opened : (output : ℤ) (name path : List ℕ) → World → World
opened output name path w = record w {
  client = record (w.client) {
    session = record (w.client.session) {
      request_parser = request_parser_data_init w.client.session.request_parser;
    };
    filename_fd = name;
    temp_full_path = path;
    output_fd = output;
  };
}

-- The lines of the sender and of the recipients.
unfoldable pub print_envelope : World → World
unfolding recipients print_recipients
print_envelope w =
    let s = w.client.session in
    print_recipients (recipients s.rcpt_qty s.rcpt_to) (
      print_to w.client.output_fd
        (codes "MAIL FROM: <" ++ (c_str s.mail_from ++ (codes ">" ++ crlf))) w)

-- A mail file is made, or the input of a transformation that writes to it; the envelope is written
-- and the descriptor registered. With a transformation the file is closed before "DATA" is printed
-- to it, which is lost. That pipe and fork fail, when the program exits, is left out.
unfoldable pub request_data_init : World → Option World
unfolding print_envelope
request_data_init w =
    let (file, name, path) =
      w.answers.temp_file (c_str w.client.session.rcpt_to) w.client.filename_fd
        w.client.temp_full_path in
    let output = (if w.transform then w.answers.pipe_end else file) in
    let w₁ = print_envelope (opened output name path w) in
    let w₂ = (if w.transform then w₁ else print_to file (codes "DATA" ++ crlf) w₁) in
    do
      (_, sel) ←
          selector_register w.answers.memory output file_handler op_noop w.client.address w.selector
      let u = record w₂ { selector = sel }
      some (with_session (record (u.client.session) { is_body = true }) u)

-- Each recipient is given a copy, and the registry told.
unfoldable pub deliver : List (List ℕ) → World → World
deliver [] w = w
deliver (r ∷ rs) w = deliver rs (record w {
  delivered = w.delivered ++ (r, w.client.filename_fd, w.client.temp_full_path) ∷ [];
  registry =
      register_mail w.client.session.mail_from r w.client.filename_fd w.answers.now w.registry;
})

unfoldable pub clean_request : World → World
clean_request w =
    with_session
      (record (w.client.session) {
        is_body = false;
        request_parser = record (w.client.session.request_parser) { request = zeroed };
        mail_from = replicate address_size 0;
        rcpt_to = replicate (address_size * row_size) 0;
        rcpt_qty = 0;
      })
      w

-- How many bytes write took.
abbrev pub written : ℤ → ℕ
written (pos n) = n
written (negsuc n) = 0

abbrev pub is_negative : ℤ → Bool
is_negative (pos n) = false
is_negative (negsuc n) = true

abbrev pub is_done : RequestState → Bool
is_done request_done = true
is_done _ = false

-- The message is complete: deliver it, close its file and answer.
unfoldable pub finish_message : (AccessRegistry → Directory) → World → Option (SocketState × World)
unfolding deliver recipients clean_request
finish_message dir w = do
  let w₁ = deliver (recipients w.client.session.rcpt_qty w.client.session.rcpt_to) w
  (waiting, w₂) ← set_interest w₁.client.fd op_writing w₁
  if not waiting then some (request_failed, w₂) else (do
    (status, (_, sel)) ←
        selector_unregister_fd {W = Unit {0}} (λ _ u. u) w₂.client.output_fd tt w₂.selector
    let w₃ = record w₂ { selector = sel }
    if not (is_success status)
        then some (request_failed, w₃)
        else process dir
            (clean_request (record w₃ { client = record (w₃.client) { output_fd = pos 0 } })))

unfoldable pub write_file_handler :
    (AccessRegistry → Directory) → World → Option (SocketState × World)
unfolding finish_message
write_file_handler dir w =
    let text = c_str w.client.session.request_parser.request.text in
    if is_negative w.answers.wrote then some (request_failed, w) else (do
      let w₁ = print_to w.client.output_fd (take (written w.answers.wrote) text) w
      (quiet, w₂) ← set_interest_key op_noop w₁
      if not quiet
          then some (request_failed, w₂)
          else if is_done w₂.client.session.request_parser.state
          then finish_message dir w₂
          else (do
            (reading, w₃) ← set_interest w₂.client.fd op_reading w₂
            some (if reading then request_data_read else request_failed, w₃)))
