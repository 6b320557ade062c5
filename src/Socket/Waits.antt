-- ===== src/Socket/Waits.antt =====
-- src/lib/smtp.c: in each state of its machine, a client is waited on for what the state's handler
-- does.
pub mod Reading
pub mod Writing
pub mod Arrival
pub mod States
pub mod Delivered
pub mod Events
use smtp_protos.Prelude.{
  ℕ, zero, suc, ◌+◌, ◌-◌, ◌*◌, ◌/◌, ◌%◌, ◌^◌, ◌≤◌, ◌<◌, ◌≡◌, ◌≢◌, ◌↔◌, ◌⊎◌, List, [], ◌∷◌, ◌++◌,
  Option, none, some, arith, length, set, Bool, true, false, ltb, leb, ◌==◌, ◌&&◌, ◌||◌, not,
  length-set, length-take, Returns, Returns-some, get_or, length-replicate, take, drop,
  if◌then◌else◌, ◌>>=◌, ◌>>◌, Bool-cases, Option-cases, inl, inr, refl, Returns-bind, Returns-mono,
  All, All-mono, filled, replicate, length-filled, set-filled, set-filled_end, set-replicate,
  length-append, ap, sym, ◌∙◌, append-nil, append_assoc, store, codes, ℤ, pos, negsuc, map, assert,
  dec_lt, ℕ_discrete,
}
use smtp_protos.Process.{
  Session, SmtpState, ehlo, from, to, data_cmd, body, done, xauth, xfrom, xget, xtran, xquit, error,
  address_size, row_size,
}
use smtp_protos.Process.Admin.{Directory}
use smtp_protos.Request.{
  RequestParser, Request, RequestState, request_done, request_is_done, zeroed,
}
use smtp_protos.Request.Line.{request_consume, request_parser_init}
use smtp_protos.Request.Body.{request_consume_data, request_parser_data_init}
use smtp_protos.Request.Admin.{request_consume_admin, request_parser_admin_init}
use smtp_protos.Buffer.{
  Buffer, buffer_can_read, buffer_read_ptr, buffer_read_adv, buffer_write_ptr, receive, buffer_init,
}
use smtp_protos.Selector.{
  Selector, Item, SelectorStatus, selector_success, selector_enomem, selector_maxfd, selector_iargs,
  selector_fdinuse, selector_io, selector_set_interest, selector_register, selector_unregister_fd,
}
use smtp_protos.Monitor.{
  Collected, monitor_add_sent_bytes, monitor_add_connection, monitor_close_connection,
}
use smtp_protos.Registry.{AccessRegistry, register_mail}
use smtp_protos.Smtp.{
  SocketState, request_read, request_write, request_data_read, request_admin, request_data_write,
  request_finished, request_failed, request_process,
}
use smtp_protos.CString.{c_str, strlen}
use smtp_protos.Socket.{
  Client, Answers, World, FdHandler, smtp_handler, file_handler, other_handler, op_noop, op_reading,
  op_writing, is_success, set_interest, set_interest_key, with_session, print_to, process,
}
use smtp_protos.Prelude.{Within, Within-bind, Within-any, Within-and}
use smtp_protos.Smtp.Inversion.{Outcome, quit, any_state, in_sequence, process-Outcome}
use smtp_protos.Selector.Slots.{
  Registered, set_interest-Registered, set_interest_other, register_other, unregister_other,
}
use smtp_protos.Socket.Read.{
  consumers_table, consume, wait_for_file, answer, is_data_read, request_actual_read,
  request_read_handler, get_bytes,
}
use smtp_protos.Socket.Write.{
  try_reading, after_send, request_write_handler, is_body_state, is_admin_state,
}
use smtp_protos.Socket.File.{
  request_data_init, finish_message, write_file_handler, deliver, clean_request, recipients,
  print_recipients,
}

-- An event on the client's socket or on the descriptor of its message: the client's descriptor, that
-- of the key, and what the system's calls answer.
pub record Event : Type 0 where
  pub fd : ℤ
  pub key : ℤ
  pub answers : Answers

-- No handler changes these.
pub record Framed (ev : Event) (w : World) : Type 0 where
  pub at_fd : w.client.fd ≡ ev.fd
  pub at_key : w.key_fd ≡ ev.key
  pub at_answers : w.answers ≡ ev.answers

-- A descriptor that is opened during the event is not the client's.
pub record IsFresh (ev : Event) : Type 0 where
  pub file_fresh : (r n p : List ℕ) → (ev.answers.temp_file r n p).0 ≢ ev.fd
  pub pipe_fresh : ev.answers.pipe_end ≢ ev.fd

pub is_success_lem : (st : SelectorStatus) → is_success st ≡ true → st ≡ selector_success
is_success_lem selector_success p = refl
is_success_lem selector_enomem p = cc
is_success_lem selector_maxfd p = cc
is_success_lem selector_iargs p = cc
is_success_lem selector_fdinuse p = cc
is_success_lem selector_io p = cc

-- What request_process returns.
process_next :
    (dir : Directory) (s : Session) (transform : Bool) {sock : SocketState} {s' : Session}
    {transform' : Bool}
    → request_process dir s transform ≡ some (sock, s', transform')
    → (sock ≡ request_write) ⊎ (sock ≡ request_finished)
process_next dir s transform h = next (process-Outcome dir s transform h)
  where
    next :
        {sock : SocketState} {s' : Session} {transform' : Bool}
        → Outcome dir s transform sock s' transform'
        → (sock ≡ request_write) ⊎ (sock ≡ request_finished)
    next (quit o t e f _ _) = inr f
    next (any_state t e _ f _) = inl f
    next (in_sequence t u n e k _ f _) = inl f

module _ (fd : ℤ) where
  -- What the selector must be asked for when the machine arrives at a state.
  abbrev pub Wants : SocketState → World → Type 0
  Wants request_read w = Registered fd op_reading w.selector
  Wants request_write w = Registered fd op_writing w.selector
  Wants request_data_read w = Registered fd op_reading w.selector
  Wants request_admin w = Registered fd op_reading w.selector
  Wants request_data_write w =
      Registered fd op_noop w.selector
      × Registered w.client.output_fd op_writing w.selector
      × (w.client.output_fd ≢ fd)
  Wants request_finished w = Unit
  Wants request_failed w = Unit

  -- The same while the machine is in the state; a message has a file of its own.
  abbrev pub Waits : SocketState → World → Type 0
  Waits request_read w = Wants request_read w
  Waits request_write w = Wants request_write w
  Waits request_data_read w = Wants request_data_read w × (w.client.output_fd ≢ fd)
  Waits request_admin w = Wants request_admin w
  Waits request_data_write w = Wants request_data_write w
  Waits request_finished w = Unit
  Waits request_failed w = Unit

module _ (ev : Event) where
  abbrev pub Out : SocketState × World → Type 0
  Out r = Framed ev r.1 × Wants ev.fd r.0 r.1

  abbrev Changed : ℤ → ℕ → World → Bool × World → Type 0
  Changed at i w r =
      Framed ev r.1 × (r.1.client ≡ w.client) × (r.0 ≡ true → Registered at i r.1.selector)

  Framed-again :
      (w : World) {u : World}
      → Framed ev w
      → u.client.fd ≡ w.client.fd
      → u.key_fd ≡ w.key_fd
      → u.answers ≡ w.answers
      → Framed ev u
  Framed-again w v p q r = record {
    at_fd = p ∙ v.at_fd;
    at_key = q ∙ v.at_key;
    at_answers = r ∙ v.at_answers;
  }

  set_interest_lem :
      (at : ℤ) (i : ℕ) (w : World)
      → Framed ev w
      → Within (set_interest at i w) (λ r. Changed at i w r)
  unfolding set_interest
  set_interest_lem at i w v =
      Within-bind (λ r. r.0 ≡ selector_success → Registered at i r.1) _
        (selector_set_interest at i w.selector) _
        (λ r h. (Framed-again w v refl refl refl, refl, λ p. h (is_success_lem r.0 p)))
        (set_interest-Registered at i w.selector)

  set_interest_leaves :
      (at other : ℤ) (i j : ℕ) (w : World)
      → at ≢ other
      → Registered other j w.selector
      → Within (set_interest at i w) (λ r. Registered other j r.1.selector)
  unfolding set_interest
  set_interest_leaves at other i j w q h =
      Within-bind (λ r. Registered other j r.1) _ (selector_set_interest at i w.selector) _
        (λ r k. k) (set_interest_other at other i j w.selector q h)

  -- What a handler of a reading state leaves; it does not go on reading a message.
  abbrev pub After : SocketState × World → Type 0
  After r = Out r × (r.0 ≢ request_data_read)

  module _ (dir : AccessRegistry → Directory) where
    process_keeps :
        (w : World)
        → Framed ev w
        → Registered ev.fd op_writing w.selector
        → Within (process dir w) After
    unfolding process
    process_keeps w v h =
        elim (Option-cases (request_process (dir w.registry) w.client.session w.transform)) [
          | inl e ↦ rw (process, e) tt
          | inr (r, e) ↦
              rw (process, e)
                (elim (process_next (dir w.registry) w.client.session w.transform e) [
                  | inl p ↦ rw p ((Framed-again w v refl refl refl, h), λ q. cc)
                  | inr p ↦ rw p ((Framed-again w v refl refl refl, tt), λ q. cc)
                ])
        ]

    answer_keeps : (w : World) → Framed ev w → ev.key ≡ ev.fd → Within (answer dir w) After
    unfolding answer set_interest_key
    answer_keeps w v k =
        Within-bind _ After (set_interest w.key_fd op_writing w) _
          (λ r h. elim (Bool-cases r.0) [
            | inl e ↦ rw e (process_keeps r.1 h.0 (rw (v.at_key ∙ k) at (h.2 e)))
            | inr e ↦ rw e ((h.0, tt), λ q. cc)
          ])
          (set_interest_lem w.key_fd op_writing w v)
