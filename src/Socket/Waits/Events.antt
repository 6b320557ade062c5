-- ===== src/Socket/Waits/Events.antt =====
-- src/lib/smtp.c: the events of a client's descriptors keep what is waited for.
use smtp_protos.Prelude.{
  ℕ, zero, suc, ◌≤◌, ◌≡◌, Option, none, some, arith, Bool, true, false, ◌==◌, ◌&&◌, ◌||◌,
  if◌then◌else◌, Bool-cases, inl, inr, refl, ap, ℤ,
}
use smtp_protos.Process.Admin.{Directory}
use smtp_protos.Buffer.{buffer_can_read}
use smtp_protos.Selector.{selector_unregister_fd}
use smtp_protos.Registry.{AccessRegistry}
use smtp_protos.Smtp.{
  SocketState, request_read, request_write, request_data_read, request_admin, request_data_write,
  request_finished, request_failed,
}
use smtp_protos.Socket.{World, op_noop, op_reading, op_writing}
use smtp_protos.Prelude.{Within, Within-mono, Within-bind, Within-any}
use smtp_protos.Selector.Slots.{Registered}
use smtp_protos.Socket.Read.{request_read_handler}
use smtp_protos.Socket.Write.{request_write_handler}
use smtp_protos.Socket.File.{write_file_handler}
use smtp_protos.Socket.Waits.{Event, Framed, IsFresh, Waits, Out, After}
use smtp_protos.Socket.Waits.Reading.{Arrived, Reads, read_handler_keeps}
use smtp_protos.Socket.Waits.Writing.{write_handler_keeps, write_file_keeps}
use smtp_protos.Socket.Machine.{
  place, states_handlers, alive, read_handler, write_handler, write_file, smtp_done, is_over,
}
use smtp_protos.Stm.{StateMachine, stm_handler_read, stm_handler_write}
use smtp_protos.Stm.Discipline.{Located, resident}
use smtp_protos.Prelude.{partial}
use smtp_protos.Socket.Waits.States.{
  state_at, place-state_at, machine_in, machine_at, Before, During, Goes, event_lem,
}
use smtp_protos.Socket.Machine.{handle_close}
use smtp_protos.Socket.Accept.{new_machine}
use smtp_protos.Socket.Waits.Delivered.{
  Readiness, readable, writable, serve, Delivered, Delivered-asks, Remains,
}

and_left : (a b : Bool) → (a && b) ≡ true → a ≡ true
and_left true b e = refl
and_left false b e = cc

module _ (dir : AccessRegistry → Directory) where
  -- The client's own handler ends in freeing it.
  smtp_done_lem :
      (fd : ℤ) (stm : StateMachine World) (w : World) → Within (smtp_done stm w) (Remains dir fd)
  unfolding smtp_done
  smtp_done_lem fd stm w =
      Within-bind (λ _. Unit {0}) (Remains dir fd)
        (selector_unregister_fd (handle_close stm) w.key_fd (some w) w.selector) _
        (λ r _. Within-bind (λ _. Unit {0}) (Remains dir fd) r.1.0 _ (λ _ _. tt) (Within-any _))
        (Within-any _)

  module _ (ev : Event) (fresh : IsFresh ev) where
    -- What the engine leaves.
    abbrev Left : ℕ × StateMachine World × World → Type 0
    Left r = (r.0 ≤ 6) × (r.1 ≡ machine_in dir (state_at r.0)) × During dir ev fresh r.0 r.2

    Reads-Goes :
        (st : SocketState) (n : ℕ) (w : World)
        → ev.key ≡ ev.fd
        → Reads ev dir st
        → Arrived ev dir st w
        → Within (request_read_handler dir st w) (Goes dir ev fresh n)
    Reads-Goes st n w k reads c =
        Within-mono (After ev) (Goes dir ev fresh n) (request_read_handler dir st w)
          (λ r a. (a.0, λ _. a.1)) (read_handler_keeps ev dir st w k reads c)

    reading_keeps :
        (st : SocketState) (w : World)
        → ev.key ≡ ev.fd
        → Waits ev.fd st w
        → Delivered readable ev.fd w
        → is_over (place st) ≡ false
        → Framed ev w
        → Within (stm_handler_read (machine_in dir st) w) Left
    unfolding stm_handler_read states_handlers Located new_machine
    reading_keeps request_read w k h d o v =
        event_lem dir ev fresh (λ d. d.on_read_ready) (request_read_handler dir request_read)
          (some 0) 0 w (omega arith) refl refl
          (λ u i. Reads-Goes request_read 0 u k (λ _ x. x) (i.0, i.1, λ p. cc))
          (omega arith, (v, h))
    reading_keeps request_data_read w k h d o v =
        event_lem dir ev fresh (λ d. d.on_read_ready) (request_read_handler dir request_data_read)
          (some 2) 2 w (omega arith) refl refl
          (λ u i. Reads-Goes request_data_read 2 u k (λ _ x. x) (i.0, i.1.0, λ p. i.1.1))
          (omega arith, (v, h))
    reading_keeps request_admin w k h d o v =
        event_lem dir ev fresh (λ d. d.on_read_ready) (request_read_handler dir request_admin)
          (some 3) 3 w (omega arith) refl refl
          (λ u i. Reads-Goes request_admin 3 u k (λ _ x. x) (i.0, i.1, λ p. cc))
          (omega arith, (v, h))
    reading_keeps request_write w k h d o v =
        absurd (cc (Delivered-asks readable ev.fd op_writing w d h))
    reading_keeps request_data_write w k h d o v =
        absurd (cc (Delivered-asks readable ev.fd op_noop w d h.0))
    reading_keeps request_finished w k h d o v = absurd (cc o)
    reading_keeps request_failed w k h d o v = absurd (cc o)

    writing_keeps :
        (c : Option ℕ) (w : World)
        → ev.key ≡ ev.fd
        → Located partial (Before dir ev fresh) (During dir ev fresh) (machine_at dir c) c w
        → resident partial (Before dir ev fresh) (During dir ev fresh) (machine_at dir c) ≡ 1
        → Within (stm_handler_write (machine_at dir c) w) Left
    unfolding stm_handler_write states_handlers
    writing_keeps c w k l q =
        event_lem dir ev fresh (λ d. d.on_write_ready) request_write_handler c 1 w (omega arith) q
          refl
          (λ u i.
            Within-mono (Out ev) (Goes dir ev fresh 1) (request_write_handler u)
              (λ r a. (a, λ p e. absurd (cc (ap place e)))) (write_handler_keeps ev u k i.0))
          l

    file_keeps :
        (w : World)
        → Framed ev w
        → Waits ev.fd request_data_write w
        → Within (stm_handler_write (machine_in dir request_data_write) w) Left
    unfolding stm_handler_write states_handlers Located new_machine
    file_keeps w v h =
        event_lem dir ev fresh (λ d. d.on_write_ready) (write_file_handler dir) (some 4) 4 w
          (omega arith) refl refl
          (λ u i.
            Within-mono (Out ev) (Goes dir ev fresh 4) (write_file_handler dir u)
              (λ r a. (a, λ p e. absurd (cc (ap place e)))) (write_file_keeps ev dir u i.0 i.1.2))
          (omega arith, (v, h))

    -- What read_handler makes of it.
    read_rest :
        (r : ℕ × StateMachine World × World)
        → Left r
        → Within
            (if is_over r.0 then smtp_done r.1 r.2 else some (alive r.1 r.2))
            (Remains dir ev.fd)
    read_rest r l = elim (Bool-cases (is_over r.0)) [
      | inl e ↦ rw e (smtp_done_lem ev.fd r.1 r.2)
      | inr e ↦ rw e (state_at r.0, l.1, l.2.0.at_fd, l.2.1)
    ]

    read_handler_lem :
        (st : SocketState) (w : World)
        → ev.key ≡ ev.fd
        → is_over (place st) ≡ false
        → Framed ev w
        → Waits ev.fd st w
        → Delivered readable ev.fd w
        → Within (read_handler (machine_in dir st) w) (Remains dir ev.fd)
    unfolding read_handler
    read_handler_lem st w k o v h d =
        Within-bind Left (Remains dir ev.fd) (stm_handler_read (machine_in dir st) w) _
          (λ r l. read_rest r l) (reading_keeps st w k h d o v)

    -- Both states after which bytes of the buffer are read at once ask for reading.
    read_again :
        (n : ℕ) (w : World)
        → (n == place request_read || n == place request_data_read) ≡ true
        → Waits ev.fd (state_at n) w
        → Delivered readable ev.fd w
    read_again zero w e h = (op_reading, h, refl)
    read_again (suc zero) w e h = absurd (cc e)
    read_again (suc (suc zero)) w e h = (op_reading, h.0, refl)
    read_again (suc (suc (suc n))) w e h = absurd (ground arith)

    abbrev again : ℕ × StateMachine World × World → Bool
    again r =
        (r.0 == place request_read || r.0 == place request_data_read)
        && buffer_can_read r.2.client.session.read_buffer

    write_rest :
        (r : ℕ × StateMachine World × World)
        → ev.key ≡ ev.fd
        → Left r
        → Within
            (if is_over r.0
              then smtp_done r.1 r.2
              else if (r.0 == place request_read || r.0 == place request_data_read)
                  && buffer_can_read r.2.client.session.read_buffer
              then read_handler r.1 r.2
              else some (alive r.1 r.2))
            (Remains dir ev.fd)
    write_rest r k l = elim (Bool-cases (is_over r.0)) [
      | inl e ↦ rw e (smtp_done_lem ev.fd r.1 r.2)
      | inr e ↦ rw e (elim (Bool-cases (again r)) [
        | inr f ↦ rw f (state_at r.0, l.1, l.2.0.at_fd, l.2.1)
        | inl f ↦
            rw (f, l.1)
              (read_handler_lem (state_at r.0) r.2 k (rw (place-state_at r.0 l.0) e) l.2.0 l.2.1
                (read_again r.0 r.2 (and_left _ _ f) l.2.1))
      ])
    ]

    write_handler_lem :
        (c : Option ℕ) (w : World)
        → ev.key ≡ ev.fd
        → Located partial (Before dir ev fresh) (During dir ev fresh) (machine_at dir c) c w
        → resident partial (Before dir ev fresh) (During dir ev fresh) (machine_at dir c) ≡ 1
        → Within (write_handler (machine_at dir c) w) (Remains dir ev.fd)
    unfolding write_handler
    write_handler_lem c w k l q =
        Within-bind Left (Remains dir ev.fd) (stm_handler_write (machine_at dir c) w) _
          (λ r m. write_rest r k m) (writing_keeps c w k l q)

    pub client_event_lem :
        (r : Readiness) (st : SocketState) (w : World)
        → ev.key ≡ ev.fd
        → is_over (place st) ≡ false
        → Framed ev w
        → Waits ev.fd st w
        → Delivered r ev.fd w
        → Within (serve r (machine_in dir st) w) (Remains dir ev.fd)
    unfolding Located new_machine
    client_event_lem readable st w k o v h d = read_handler_lem st w k o v h d
    client_event_lem writable request_write w k o v h d =
        write_handler_lem (some 1) w k (omega arith, (v, h)) refl
    client_event_lem writable request_read w k o v h d =
        absurd (cc (Delivered-asks writable ev.fd op_reading w d h))
    client_event_lem writable request_data_read w k o v h d =
        absurd (cc (Delivered-asks writable ev.fd op_reading w d h.0))
    client_event_lem writable request_admin w k o v h d =
        absurd (cc (Delivered-asks writable ev.fd op_reading w d h))
    client_event_lem writable request_data_write w k o v h d =
        absurd (cc (Delivered-asks writable ev.fd op_noop w d h.0))
    client_event_lem writable request_finished w k o v h d = absurd (cc o)
    client_event_lem writable request_failed w k o v h d = absurd (cc o)

    pub first_event_lem :
        (w : World)
        → ev.key ≡ ev.fd
        → Framed ev w
        → Registered ev.fd op_writing w.selector
        → Within (write_handler (new_machine dir) w) (Remains dir ev.fd)
    unfolding Located new_machine
    first_event_lem w k v h = write_handler_lem none w k (v, h) refl

    pub file_event_lem :
        (w : World)
        → Framed ev w
        → Waits ev.fd request_data_write w
        → Within (write_file (machine_in dir request_data_write) w) (Remains dir ev.fd)
    unfolding write_file
    file_event_lem w v h =
        Within-bind Left (Remains dir ev.fd)
          (stm_handler_write (machine_in dir request_data_write) w) _
          (λ r l. (state_at r.0, l.1, l.2.0.at_fd, l.2.1)) (file_keeps w v h)
