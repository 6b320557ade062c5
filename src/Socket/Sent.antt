-- ===== src/Socket/Sent.antt =====
-- src/lib/smtp.c: what follows a reply that is sent in one piece.
use smtp_protos.Prelude.{
  ℕ, ◌-◌, ◌<◌, ◌≡◌, some, arith, true, false, leb, Returns, if◌then◌else◌, Bool-cases, inl, inr,
  refl, Returns-bind, Returns-mono, ap, pos,
}
use smtp_protos.Process.{SmtpState}
use smtp_protos.Buffer.{buffer_compact, Buffer, buffer_can_read, buffer_read_ptr, buffer_read_adv}
use smtp_protos.Selector.{Selector, selector_success, selector_set_interest}
use smtp_protos.Monitor.{monitor_add_sent_bytes}
use smtp_protos.Smtp.{SocketState, request_read, request_data_read, request_admin}
use smtp_protos.Socket.{
  Client, World, FdHandler, op_reading, op_writing, set_interest_key, with_session,
}
use smtp_protos.Selector.Slots.{Registered, set_interest-Registered}
use smtp_protos.Socket.Write.{
  to_unsigned, after_send, request_write_handler, is_body_state, is_admin_state,
}
use smtp_protos.Selector.{items_max_size, write_item}

-- The client's key is a descriptor of the table, with this interest.
pub record Reachable (w : World) (i : ℕ) : Type 0 where
  pub number : ℕ
  pub is_number : w.key_fd ≡ pos number
  pub small : number < items_max_size
  pub registered : Registered (pos number) i w.selector

set_key_lem :
    (w : World) (i j : ℕ)
    → Reachable w i
    → Returns
        (set_interest_key j w)
        (λ r. (r.0 ≡ true) × (r.1.client ≡ w.client) × Registered w.key_fd j r.1.selector)
unfolding set_interest_key selector_set_interest
set_key_lem w i j v =
    let n = v.number in
    let inside : leb items_max_size n ≡ false = ground arith in
    let (item, e, f) = v.registered in
    let s : Selector FdHandler ℕ =
      write_item n (record item { interest = j }) w.selector.max_fd w.selector in
    let found : selector_set_interest (pos n) j w.selector ≡ some (selector_success, s) =
      rw (selector_set_interest, inside, e) refl in
    rw (v.is_number, found)
      (refl, refl, (rw found at (set_interest-Registered (pos n) j w.selector)) refl)

-- What is read after a reply, by the state of the conversation.
abbrev pub reading_after : SmtpState → SocketState
reading_after st =
    if is_body_state st
    then request_data_read
    else if is_admin_state st
    then request_admin
    else request_read

-- The client is as it was, and the selector asks for its bytes.
abbrev pub Reading : SocketState → World → SocketState × World → Type 0
Reading st w r = (r.0 ≡ st) × (r.1.client ≡ w.client) × Registered w.key_fd op_reading r.1.selector

after_send_lem :
    (w : World)
    → Reachable w op_writing
    → Returns (after_send w) (Reading (reading_after w.client.session.state) w)
unfolding after_send
after_send_lem w v =
    let asked = set_key_lem w op_writing op_reading v in
    elim (Bool-cases (is_body_state w.client.session.state)) [
      | inl e ↦ rw e (
          Returns-bind _ (Reading request_data_read w) (set_interest_key op_reading w) _
            (λ r c. rw c.0 (refl, c.1, c.2)) asked)
      | inr e ↦ rw e (elim (Bool-cases (is_admin_state w.client.session.state)) [
        | inl f ↦ rw f (
            Returns-bind _ (Reading request_admin w) (set_interest_key op_reading w) _
              (λ r c. rw c.0 (refl, c.1, c.2)) asked)
        | inr f ↦ rw f (
            Returns-bind _ (Reading request_read w) (set_interest_key op_reading w) _
              (λ r c. rw c.0 (refl, c.1, c.2)) asked)
      ])
    ]

read_all_lem :
    (b : Buffer)
    → b.read < b.write
    → buffer_read_adv b (pos (b.write - b.read)) ≡ some (record b { read = 0; write = 0 })
unfolding buffer_read_adv buffer_compact
read_all_lem b h = ground arith

read_ptr_lem : (b : Buffer) → b.read < b.write → buffer_read_ptr b ≡ some (b.read, b.write - b.read)
unfolding buffer_read_ptr
read_ptr_lem b h = ground arith

-- When the client can be written to, its key is in the table, and send takes all that is left of the
-- reply, then the write handler returns: the reply is gone from the buffer, the selector is asked for
-- the client's bytes, and what is read next follows from the state of the conversation.
pub request_write_handler_lem :
    (w : World)
    → Reachable w op_writing
    → w.client.session.write_buffer.read < w.client.session.write_buffer.write
    → w.answers.sent
      ≡ pos (w.client.session.write_buffer.write - w.client.session.write_buffer.read)
    → Returns (request_write_handler w) (λ r.
      (r.0 ≡ reading_after w.client.session.state)
      × Registered w.key_fd op_reading r.1.selector
      × (r.1.client.session.write_buffer.read ≡ 0)
      × (r.1.client.session.write_buffer.write ≡ 0)
      × (r.1.client.session.read_buffer ≡ w.client.session.read_buffer))
unfolding request_write_handler buffer_can_read
request_write_handler_lem w v h e =
    let b = w.client.session.write_buffer in
    let w₂ : World =
      with_session (record (w.client.session) { write_buffer = record b { read = 0; write = 0 } })
        (record w {
          collected = monitor_add_sent_bytes (to_unsigned w.answers.sent) w.collected;
        }) in
    let there : Reachable w₂ op_writing = record {
      number = v.number;
      is_number = v.is_number;
      small = v.small;
      registered = v.registered;
    } in
    rw (read_ptr_lem b h, e, read_all_lem b h)
      (Returns-mono (Reading (reading_after w.client.session.state) w₂) _ (after_send w₂)
        (λ r c. (
          c.0,
          c.2,
          ap (λ (u : Client). u.session.write_buffer.read) c.1,
          ap (λ (u : Client). u.session.write_buffer.write) c.1,
          ap (λ (u : Client). u.session.read_buffer) c.1,
        ))
        (after_send_lem w₂ there))
