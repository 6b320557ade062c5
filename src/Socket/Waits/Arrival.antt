-- ===== src/Socket/Waits/Arrival.antt =====
-- src/lib/smtp.c: the arrival at the state in which a message is read.
use smtp_protos.Prelude.{
  ℕ, ◌≡◌, ◌≢◌, List, [], ◌∷◌, ◌++◌, some, Bool, true, false, if◌then◌else◌, ◌>>=◌, refl, ap, ◌∙◌,
  codes, ℤ,
}
use smtp_protos.Selector.{selector_register}
use smtp_protos.Smtp.{request_data_read}
use smtp_protos.CString.{c_str}
use smtp_protos.Socket.{Client, World, file_handler, op_noop, op_reading, with_session, print_to}
use smtp_protos.Prelude.{Within, Within-bind}
use smtp_protos.Selector.Slots.{Registered, register_other}
use smtp_protos.Socket.File.{
  opened, print_envelope, crlf, request_data_init, recipients, print_recipients,
}
use smtp_protos.Socket.Waits.{Event, Framed, IsFresh, Waits, Framed-again}

print_recipients_lem :
    (rs : List (List ℕ)) (w : World)
    → ((print_recipients rs w).client ≡ w.client)
      × ((print_recipients rs w).key_fd ≡ w.key_fd)
      × ((print_recipients rs w).answers ≡ w.answers)
      × ((print_recipients rs w).selector ≡ w.selector)
unfolding print_recipients
print_recipients_lem [] w = (refl, refl, refl, refl)
print_recipients_lem (r ∷ rs) w = print_recipients_lem rs _

print_envelope_lem :
    (w : World)
    → ((print_envelope w).client ≡ w.client)
      × ((print_envelope w).key_fd ≡ w.key_fd)
      × ((print_envelope w).answers ≡ w.answers)
unfolding print_envelope
print_envelope_lem w =
    let (a, b, c, d) =
      print_recipients_lem (recipients w.client.session.rcpt_qty w.client.session.rcpt_to) _ in
    (a, b, c)

module _ (ev : Event) where
  -- The envelope is printed, on whichever descriptor.
  opened_keeps :
      (w w' : World) (output : ℤ)
      → (w'.client.fd ≡ w.client.fd) × (w'.key_fd ≡ w.key_fd) × (w'.answers ≡ w.answers)
      → w'.client.output_fd ≡ output
      → output ≢ ev.fd
      → Framed ev w
      → Registered ev.fd op_reading w.selector
      → Within
          (do
            (_, sel) ←
                selector_register w.answers.memory output file_handler op_noop w.client.address
                  w.selector
            let u = record w' { selector = sel }
            some (with_session (record (u.client.session) { is_body = true }) u))
          (λ u. Framed ev u × Waits ev.fd request_data_read u)
  opened_keeps w w' output p o q v h =
      Within-bind (λ r. Registered ev.fd op_reading r.1) _
        (selector_register w.answers.memory output file_handler op_noop w.client.address w.selector)
        _ (λ r g. (Framed-again ev w v p.0 p.1 p.2, (g, rw o q)))
        (register_other w.answers.memory output ev.fd file_handler op_noop w.client.address
          op_reading w.selector h)

  abbrev new_file : World → ℤ × List ℕ × List ℕ
  new_file w =
      w.answers.temp_file (c_str w.client.session.rcpt_to) w.client.filename_fd
        w.client.temp_full_path

  abbrev started : World → ℤ → World
  started w output = opened output (new_file w).1 (new_file w).2 w

  -- The line that a transformation does not see.
  abbrev data_line : Bool → ℤ → World → World
  data_line t file w = if t then w else print_to file (codes "DATA" ++ crlf) w

  data_line_lem :
      (t : Bool) (file : ℤ) (w : World)
      → ((data_line t file w).client ≡ w.client)
        × ((data_line t file w).key_fd ≡ w.key_fd)
        × ((data_line t file w).answers ≡ w.answers)
  data_line_lem true file w = (refl, refl, refl)
  data_line_lem false file w = (refl, refl, refl)

  output_fresh :
      (t : Bool) (w : World)
      → IsFresh ev
      → Framed ev w
      → (if t then w.answers.pipe_end else (new_file w).0) ≢ ev.fd
  output_fresh true w fresh v = rw v.at_answers fresh.pipe_fresh
  output_fresh false w fresh v = rw v.at_answers (fresh.file_fresh _ _ _)

  pub data_init_keeps :
      (w : World)
      → IsFresh ev
      → Framed ev w
      → Registered ev.fd op_reading w.selector
      → Within (request_data_init w) (λ u. Framed ev u × Waits ev.fd request_data_read u)
  unfolding request_data_init
  data_init_keeps w fresh v h =
      let file : ℤ = (new_file w).0 in
      let output : ℤ = (if w.transform then w.answers.pipe_end else file) in
      let u : World = print_envelope (started w output) in
      let (p, q, r) = print_envelope_lem (started w output) in
      let (p', q', r') = data_line_lem w.transform file u in
      opened_keeps w (data_line w.transform file u) output
        (ap (λ (c : Client). c.fd) (p' ∙ p), q' ∙ q, r' ∙ r)
        (ap (λ (c : Client). c.output_fd) (p' ∙ p)) (output_fresh w.transform w fresh v) v h
