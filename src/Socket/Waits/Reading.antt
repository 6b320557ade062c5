-- ===== src/Socket/Waits/Reading.antt =====
-- src/lib/smtp.c: where the handlers that read from a client leave the selector.
use smtp_protos.Prelude.{
  ◌≡◌, ◌≢◌, some, length, true, false, ◌==◌, take, if◌then◌else◌, ◌>>=◌, Bool-cases, inl, inr, refl,
  ap, ◌∙◌,
}
use smtp_protos.Process.Admin.{Directory}
use smtp_protos.Request.{request_is_done}
use smtp_protos.Buffer.{buffer_can_read, buffer_write_ptr, receive}
use smtp_protos.Registry.{AccessRegistry}
use smtp_protos.Smtp.{
  SocketState, request_read, request_write, request_data_read, request_admin, request_data_write,
  request_finished, request_failed,
}
use smtp_protos.Socket.{
  Client, World, op_noop, op_reading, op_writing, set_interest, set_interest_key, with_session,
}
use smtp_protos.Prelude.{Within, Within-bind, Within-any, Within-and}
use smtp_protos.Selector.Slots.{Registered}
use smtp_protos.Socket.Read.{
  consumers_table, consume, wait_for_file, is_data_read, request_actual_read, request_read_handler,
  get_bytes,
}
use smtp_protos.Socket.Waits.{
  Event, Framed, Wants, Changed, After, Framed-again, set_interest_lem, set_interest_leaves,
  answer_keeps,
}

module _ (ev : Event) (dir : AccessRegistry → Directory) where
  file_waits :
      (w : World)
      → Framed ev w
      → w.client.output_fd ≢ ev.fd
      → Registered ev.fd op_noop w.selector
      → Within
          (do
            (waiting, w') ← set_interest w.client.output_fd op_writing w
            some (if waiting then request_data_write else request_failed, w'))
          (After ev)
  file_waits w v o h =
      Within-bind
        (λ r. Changed ev w.client.output_fd op_writing w r × Registered ev.fd op_noop r.1.selector)
        (After ev) (set_interest w.client.output_fd op_writing w) _
        (λ r c. elim (Bool-cases r.0) [
          | inr e ↦ rw e ((c.0.0, tt), λ p. cc)
          | inl e ↦
              let output : r.1.client.output_fd ≡ w.client.output_fd =
                ap (λ (u : Client). u.output_fd) c.0.1 in
              rw e ((c.0.0, (c.1, rw output (c.0.2 e), rw output o)), λ p. cc)
        ])
        (Within-and _ _ _ (set_interest_lem ev w.client.output_fd op_writing w v)
          (set_interest_leaves ev w.client.output_fd ev.fd op_writing op_noop w o h))

  wait_for_file_keeps :
      (w : World)
      → Framed ev w
      → ev.key ≡ ev.fd
      → w.client.output_fd ≢ ev.fd
      → Within (wait_for_file w) (λ r. After ev r)
  unfolding wait_for_file set_interest_key
  wait_for_file_keeps w v k o =
      Within-bind (λ r. Changed ev w.key_fd op_noop w r) (After ev)
        (set_interest w.key_fd op_noop w) _
        (λ r h. elim (Bool-cases r.0) [
          | inr e ↦ rw e ((h.0, tt), λ p. cc)
          | inl e ↦
              let output : r.1.client.output_fd ≡ w.client.output_fd =
                ap (λ (c : Client). c.output_fd) h.1 in
              let apart : r.1.client.output_fd ≢ ev.fd = rw output o in
              rw e (file_waits r.1 h.0 apart (rw (v.at_key ∙ k) at (h.2 e)))
        ])
        (set_interest_lem ev w.key_fd op_noop w v)

  data_read_lem : (st : SocketState) → is_data_read st ≡ true → st ≡ request_data_read
  data_read_lem request_data_read e = refl
  data_read_lem request_read e = cc
  data_read_lem request_write e = cc
  data_read_lem request_admin e = cc
  data_read_lem request_data_write e = cc
  data_read_lem request_finished e = cc
  data_read_lem request_failed e = cc

  -- A state in which the client is read from asks for reading.
  abbrev pub Reads : SocketState → Type 0
  Reads st = (u : World) → Registered ev.fd op_reading u.selector → Wants ev.fd st u

  -- The state is a reading one; a message has a file of its own.
  abbrev pub Arrived : SocketState → World → Type 0
  Arrived st w =
      Framed ev w
      × Registered ev.fd op_reading w.selector
      × (st ≡ request_data_read → w.client.output_fd ≢ ev.fd)

  consume-Arrived :
      (st : SocketState) (w : World) → Arrived st w → Within (consume st w) (λ r. Arrived st r.1)
  unfolding consume
  consume-Arrived st w (v, h, o) =
      Within-bind (λ _. Unit {0}) _ (consumers_table st) _
        (λ c _.
          Within-bind (λ _. Unit {0}) _
            (c w.client.session.read_buffer w.client.session.request_parser false) _
            (λ r _. (Framed-again ev w v refl refl refl, h, o)) (Within-any _))
        (Within-any (consumers_table st))

  actual_read_keeps :
      (st : SocketState) (w : World)
      → ev.key ≡ ev.fd
      → Reads st
      → Arrived st w
      → Within (request_actual_read dir st w) (After ev)
  unfolding request_actual_read
  actual_read_keeps st w k reads c =
      Within-bind (λ r. Arrived st r.1) (After ev) (consume st w) _
        (λ r d. elim (Bool-cases (is_data_read st)) [
          | inl e ↦ rw e (wait_for_file_keeps r.1 d.0 k (d.2 (data_read_lem st e)))
          | inr e ↦ rw e (elim (Bool-cases (request_is_done r.0 false).0) [
            | inl g ↦ rw g (answer_keeps ev dir r.1 d.0 k)
            | inr g ↦ rw g ((d.0, reads r.1 d.1), λ q. cc)
          ])
        ])
        (consume-Arrived st w c)

  pub read_handler_keeps :
      (st : SocketState) (w : World)
      → ev.key ≡ ev.fd
      → Reads st
      → Arrived st w
      → Within (request_read_handler dir st w) (After ev)
  unfolding request_read_handler
  read_handler_keeps st w k reads c =
      elim (Bool-cases (buffer_can_read w.client.session.read_buffer)) [
        | inl e ↦ rw e (actual_read_keeps st w k reads c)
        | inr e ↦ rw e (
            Within-bind (λ _. Unit {0}) (After ev) (buffer_write_ptr w.client.session.read_buffer) _
              (λ r _.
                let bytes = take r.1 (get_bytes w.answers.received) in
                elim (Bool-cases (length bytes == 0)) [
                  | inl g ↦ rw g ((c.0, tt), λ q. cc)
                  | inr g ↦ rw g (
                      Within-bind (λ _. Unit {0}) (After ev)
                        (receive w.client.session.read_buffer bytes) _
                        (λ b _.
                          actual_read_keeps st
                            (with_session (record (w.client.session) { read_buffer = b }) w) k reads
                            (Framed-again ev w c.0 refl refl refl, c.1, c.2))
                        (Within-any _))
                ])
              (Within-any _))
      ]
