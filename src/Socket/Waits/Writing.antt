-- ===== src/Socket/Waits/Writing.antt =====
-- src/lib/smtp.c: where the handlers that write to a client and to its message leave the selector.
use smtp_protos.Prelude.{
  ℕ, ◌≡◌, ◌≢◌, List, [], ◌∷◌, none, some, Bool, true, false, not, take, if◌then◌else◌, ◌>>=◌,
  Bool-cases, inl, inr, refl, ap, ◌∙◌, ℤ, pos, negsuc,
}
use smtp_protos.Process.Admin.{Directory}
use smtp_protos.Buffer.{buffer_can_read, buffer_read_ptr, buffer_read_adv}
use smtp_protos.Selector.{selector_unregister_fd}
use smtp_protos.Monitor.{monitor_add_sent_bytes}
use smtp_protos.Registry.{AccessRegistry}
use smtp_protos.Smtp.{request_data_read, request_failed}
use smtp_protos.CString.{c_str}
use smtp_protos.Socket.{
  Client, World, op_noop, op_reading, op_writing, is_success, set_interest, set_interest_key,
  with_session, print_to, process,
}
use smtp_protos.Prelude.{Within, Within-mono, Within-bind, Within-any}
use smtp_protos.Selector.Slots.{Registered, unregister_other}
use smtp_protos.Socket.Write.{
  to_unsigned, try_reading, after_send, request_write_handler, is_body_state, is_admin_state,
}
use smtp_protos.Socket.File.{
  written, is_negative, is_done, finish_message, write_file_handler, deliver, clean_request,
  recipients,
}
use smtp_protos.Socket.Waits.{
  After, Event, Framed, Out, Changed, Framed-again, set_interest_lem, process_keeps,
}

module _ (ev : Event) where
  try_reading_lem :
      (test : Bool) (w : World)
      → Framed ev w
      → Within
          (try_reading test w)
          (λ r. Framed ev r.1 × (r.0 ≡ true → Registered ev.key op_reading r.1.selector))
  unfolding set_interest_key
  try_reading_lem false w v = (v, λ p. cc)
  try_reading_lem true w v =
      Within-mono _ _ (set_interest w.key_fd op_reading w)
        (λ r c. (c.0, λ p. rw v.at_key at (c.2 p))) (set_interest_lem ev w.key_fd op_reading w v)

  after_send_keeps : (w : World) → ev.key ≡ ev.fd → Framed ev w → Within (after_send w) (Out ev)
  unfolding after_send
  after_send_keeps w k v =
      Within-bind _ (Out ev) (try_reading (is_body_state w.client.session.state) w) _
        (λ r₁ c₁. elim (Bool-cases r₁.0) [
          | inl e ↦ rw e (c₁.0, rw k at (c₁.1 e))
          | inr e ↦ rw e (
              Within-bind _ (Out ev) (try_reading (is_admin_state r₁.1.client.session.state) r₁.1) _
                (λ r₂ c₂. elim (Bool-cases r₂.0) [
                  | inl f ↦ rw f (c₂.0, rw k at (c₂.1 f))
                  | inr f ↦ rw f (
                      Within-bind _ (Out ev) (set_interest_key op_reading r₂.1) _
                        (λ r₃ c₃. elim (Bool-cases r₃.0) [
                          | inl g ↦ rw g (c₃.0, rw k at (c₃.1 g))
                          | inr g ↦ rw g (c₃.0, tt)
                        ])
                        (try_reading_lem true r₂.1 c₂.0))
                ])
                (try_reading_lem (is_admin_state r₁.1.client.session.state) r₁.1 c₁.0))
        ])
        (try_reading_lem (is_body_state w.client.session.state) w v)

  -- What the handler does with the result of send.
  sent_keeps :
      (w : World) (sent : ℤ)
      → ev.key ≡ ev.fd
      → Framed ev w
      → Within
          (elim sent [
            | negsuc _ ↦ some (
              request_failed,
              record w {
                collected = monitor_add_sent_bytes (to_unsigned w.answers.sent) w.collected;
              },
            )
            | pos n ↦ do
              b ← buffer_read_adv w.client.session.write_buffer (pos n)
              let w₂ =
                  with_session
                    (record (w.client.session) { write_buffer = b })
                    (record w {
                      collected = monitor_add_sent_bytes (to_unsigned w.answers.sent) w.collected;
                    })
              if buffer_can_read b then none else after_send w₂
          ])
          (Out ev)
  sent_keeps w (negsuc n) k v = (Framed-again ev w v refl refl refl, tt)
  sent_keeps w (pos n) k v =
      Within-bind (λ _. Unit {0}) (Out ev) (buffer_read_adv w.client.session.write_buffer (pos n)) _
        (λ b _. elim (Bool-cases (buffer_can_read b)) [
          | inl e ↦ rw e tt
          | inr e ↦ rw e (after_send_keeps _ k (Framed-again ev w v refl refl refl))
        ])
        (Within-any _)

  pub write_handler_keeps :
      (w : World) → ev.key ≡ ev.fd → Framed ev w → Within (request_write_handler w) (Out ev)
  unfolding request_write_handler
  write_handler_keeps w k v =
      Within-bind (λ _. Unit {0}) (Out ev) (buffer_read_ptr w.client.session.write_buffer) _
        (λ _ _. sent_keeps w w.answers.sent k v) (Within-any _)

  deliver_lem :
      (rs : List (List ℕ)) (w : World)
      → ((deliver rs w).client ≡ w.client)
        × ((deliver rs w).key_fd ≡ w.key_fd)
        × ((deliver rs w).answers ≡ w.answers)
  unfolding deliver
  deliver_lem [] w = (refl, refl, refl)
  deliver_lem (r ∷ rs) w = deliver_lem rs _

  close_file_keeps :
      (dir : AccessRegistry → Directory) (w : World)
      → Framed ev w
      → w.client.output_fd ≢ ev.fd
      → Registered ev.fd op_writing w.selector
      → Within
          (do
            (status, (_, sel)) ←
                selector_unregister_fd {W = Unit {0}} (λ _ u. u) w.client.output_fd tt w.selector
            let w₃ = record w { selector = sel }
            if not (is_success status)
                then some (request_failed, w₃)
                else process dir (
                    clean_request
                      (record w₃ { client = record (w₃.client) { output_fd = pos 0 } })))
          (Out ev)
  unfolding clean_request
  close_file_keeps dir w v o h =
      Within-bind (λ u. Registered ev.fd op_writing u.1.1) (Out ev)
        (selector_unregister_fd {W = Unit {0}} (λ _ u. u) w.client.output_fd tt w.selector) _
        (λ u g. elim (Bool-cases (is_success u.0)) [
          | inr e ↦ rw e (Framed-again ev w v refl refl refl, tt)
          | inl e ↦ rw e (
              Within-mono (After ev) (Out ev) (process dir _) (λ r p. p.0)
                (process_keeps ev dir _ (Framed-again ev w v refl refl refl) g))
        ])
        (unregister_other (λ _ u. u) w.client.output_fd ev.fd tt op_writing w.selector o h)

  -- The descriptor of the message is dropped, the client answered.
  finish_keeps :
      (dir : AccessRegistry → Directory) (w : World)
      → Framed ev w
      → w.client.output_fd ≢ ev.fd
      → Within (finish_message dir w) (Out ev)
  unfolding finish_message
  finish_keeps dir w v o =
      let w₁ : World = deliver (recipients w.client.session.rcpt_qty w.client.session.rcpt_to) w in
      let d = deliver_lem (recipients w.client.session.rcpt_qty w.client.session.rcpt_to) w in
      let v₁ : Framed ev w₁ = Framed-again ev w v (ap (λ (c : Client). c.fd) d.0) d.1 d.2 in
      Within-bind (λ r. Changed ev w₁.client.fd op_writing w₁ r) (Out ev)
        (set_interest w₁.client.fd op_writing w₁) _
        (λ r c. elim (Bool-cases r.0) [
          | inr e ↦ rw e (c.0, tt)
          | inl e ↦
              let apart : r.1.client.output_fd ≢ ev.fd =
                rw (ap (λ (u : Client). u.output_fd) (c.1 ∙ d.0)) o in
              rw e (close_file_keeps dir r.1 c.0 apart (rw v₁.at_fd at (c.2 e)))
        ])
        (set_interest_lem ev w₁.client.fd op_writing w₁ v₁)

  written_keeps :
      (dir : AccessRegistry → Directory) (w : World)
      → Framed ev w
      → w.client.output_fd ≢ ev.fd
      → Within
          (if is_done w.client.session.request_parser.state then finish_message dir w else (do
            (reading, w₃) ← set_interest w.client.fd op_reading w
            some (if reading then request_data_read else request_failed, w₃)))
          (Out ev)
  written_keeps dir w v o = elim (Bool-cases (is_done w.client.session.request_parser.state)) [
    | inl e ↦ rw e (finish_keeps dir w v o)
    | inr e ↦ rw e (
        Within-bind (λ r. Changed ev w.client.fd op_reading w r) (Out ev)
          (set_interest w.client.fd op_reading w) _
          (λ r c. elim (Bool-cases r.0) [
            | inr f ↦ rw f (c.0, tt)
            | inl f ↦ rw f (c.0, rw v.at_fd at (c.2 f))
          ])
          (set_interest_lem ev w.client.fd op_reading w v))
  ]

  pub write_file_keeps :
      (dir : AccessRegistry → Directory) (w : World)
      → Framed ev w
      → w.client.output_fd ≢ ev.fd
      → Within (write_file_handler dir w) (Out ev)
  unfolding write_file_handler set_interest_key
  write_file_keeps dir w v o = elim (Bool-cases (is_negative w.answers.wrote)) [
    | inl e ↦ rw e (v, tt)
    | inr e ↦
        let w₁ : World =
          print_to w.client.output_fd
            (take (written w.answers.wrote) (c_str w.client.session.request_parser.request.text))
            w in
        rw e (
          Within-bind (λ r. Changed ev w.key_fd op_noop w₁ r) (Out ev) (set_interest_key op_noop w₁)
            _
            (λ r c. elim (Bool-cases r.0) [
              | inr f ↦ rw f (c.0, tt)
              | inl f ↦
                  let apart : r.1.client.output_fd ≢ ev.fd =
                    rw (ap (λ (u : Client). u.output_fd) c.1) o in
                  rw f (written_keeps dir r.1 c.0 apart)
            ])
            (set_interest_lem ev w.key_fd op_noop w₁ (Framed-again ev w v refl refl refl)))
  ]
