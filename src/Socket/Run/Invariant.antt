-- ===== src/Socket/Run/Invariant.antt =====
-- src/lib/smtp.c: what holds of a client's socket throughout its run.
use smtp_protos.Prelude.{
  ℕ, ◌≡◌, ◌≢◌, ◌⊎◌, List, Option, none, some, Bool, true, false, Bool-cases, inl, inr, refl, ap,
  sym, ◌∙◌, ℤ, pos, negsuc,
}
use smtp_protos.Process.Admin.{Directory}
use smtp_protos.Buffer.{receive}
use smtp_protos.Selector.{Selector, selector_success, selector_register, selector_unregister_fd}
use smtp_protos.Monitor.{Collected}
use smtp_protos.Registry.{AccessRegistry}
use smtp_protos.Smtp.{
  SocketState, request_read, request_write, request_data_read, request_admin, request_data_write,
  request_finished, request_failed,
}
use smtp_protos.Socket.{
  Client, World, FdHandler, smtp_handler, op_noop, op_reading, op_writing, is_success,
}
use smtp_protos.Prelude.{Within, Within-bind, Within-any}
use smtp_protos.Selector.Slots.{Registered}
use smtp_protos.Socket.Waits.{IsFresh, Waits, is_success_lem}
use smtp_protos.Socket.Machine.{
  place, states_handlers, Socket, alive, freed, read_handler, write_handler, write_file, is_over,
}
use smtp_protos.Stm.{
  StateDefinition, StateMachine, handle_first, call, stm_handler, stm_handler_read,
  stm_handler_write,
}
use smtp_protos.Prelude.{get_elem?}
use smtp_protos.Socket.Waits.States.{state_at, state_at-place, ready_of, machine_in}
use smtp_protos.Socket.Accept.{new_machine, new_session, welcome_message, smtp_passive_accept}
use smtp_protos.Socket.Waits.Delivered.{
  Readiness, readable, writable, serve, Delivered, Delivered-asks, Remains,
}
use smtp_protos.Socket.Waits.Delivered.{callback_for, Delivered-callback}
use smtp_protos.Socket.Waits.Events.{client_event_lem, first_event_lem, file_event_lem}
use smtp_protos.Selector.Added.{register-Registered}
use smtp_protos.Stm.{stm_init, stm_state}
use smtp_protos.Socket.Run.{
  Reached, accepted, client_event, file_event, Resumed, Ready, event_of, event_of-Framed,
}

module _ (dir : AccessRegistry → Directory) where
  abbrev AllReady : Socket → Type 0
  AllReady (alive stm w) = Ready dir stm w
  AllReady (freed w) = Unit

  Waits-Resumed :
      (st : SocketState) (w w' : World)
      → Resumed w w'
      → Waits w.client.fd st w
      → Waits w'.client.fd st w'
  Waits-Resumed request_read w w' v h = rw v.same_client (v.same_interest op_reading h)
  Waits-Resumed request_write w w' v h = rw v.same_client (v.same_interest op_writing h)
  Waits-Resumed request_data_read w w' v h =
      (rw v.same_client (v.same_interest op_reading h.0), rw v.same_client h.1)
  Waits-Resumed request_admin w w' v h = rw v.same_client (v.same_interest op_reading h)
  Waits-Resumed request_data_write w w' v h = (
    rw v.same_client (v.same_interest op_noop h.0),
    rw v.same_client (v.same_output op_writing h.1),
    rw v.same_client h.2,
  )
  Waits-Resumed request_finished w w' v h = tt
  Waits-Resumed request_failed w w' v h = tt

  ready-Remains : (s : Socket) (fd : ℤ) → Remains dir fd s → AllReady s
  ready-Remains (alive stm w) fd (st, e, f, h) =
      let h' : Waits w.client.fd st w = simp f h in inr (st, e, h')
  ready-Remains (freed w) fd h = tt

  init_lem : Within (stm_init (new_machine dir)) (λ stm. stm ≡ new_machine dir)
  unfolding stm_init new_machine states_handlers smtp_protos.Stm.numbered
  init_lem = refl

  abbrev Begun : Option (StateMachine World × Client) → Selector FdHandler ℕ → Type 0
  Begun none sel = Unit
  Begun (some (stm, client)) sel = (stm ≡ new_machine dir) × Registered client.fd op_writing sel

  accept-Ready :
      (passive new_socket : ℤ) (address : ℕ) (memory : Bool) (sel : Selector FdHandler ℕ)
      → (c : Collected)
      → Within
          (smtp_passive_accept dir passive new_socket (some address) memory sel c)
          (λ r. Begun r.0 r.1)
  unfolding smtp_passive_accept
  accept-Ready passive (negsuc n) address memory sel c = tt
  accept-Ready passive (pos n) address memory sel c =
      Within-bind (λ stm. stm ≡ new_machine dir) _ (stm_init (new_machine dir)) _
        (λ stm p.
          Within-bind (λ _. Unit {0}) _ (receive new_session.write_buffer welcome_message) _
            (λ b _.
              Within-bind (λ r. r.0 ≡ selector_success → Registered (pos n) op_writing r.1) _
                (selector_register memory (pos n) smtp_handler op_writing address sel) _
                (λ r g. elim (Bool-cases (is_success r.0)) [
                  | inl f ↦ rw f (p, g (is_success_lem r.0 f))
                  | inr f ↦ rw f (
                      Within-bind (λ _. Unit {0}) _
                        (selector_unregister_fd {W = Unit {0}} (λ _ u. u) passive tt r.1) _
                        (λ _ _. tt) (Within-any _))
                ])
                (register-Registered memory (pos n) smtp_handler op_writing address sel))
            (Within-any _))
        init_lem

  Within-of : {A : Type 0} (P : A → Type 0) (m : Option A) {r : A} → m ≡ some r → Within m P → P r
  Within-of P m e h = rw e at h

  -- The last states have no callbacks.
  over_stops :
      (r : Readiness) (st : SocketState) (w : World) (P : Socket → Type 0)
      → is_over (place st) ≡ true
      → Within (serve r (machine_in dir st) w) P
  unfolding read_handler write_handler stm_handler_read stm_handler_write stm_handler handle_first
      new_machine states_handlers
  over_stops readable request_finished w P o = tt
  over_stops readable request_failed w P o = tt
  over_stops writable request_finished w P o = tt
  over_stops writable request_failed w P o = tt
  over_stops r request_read w P o = cc
  over_stops r request_write w P o = cc
  over_stops r request_data_read w P o = cc
  over_stops r request_admin w P o = cc
  over_stops r request_data_write w P o = cc

  first_event :
      (r : Readiness) (w : World)
      → IsFresh (event_of w)
      → w.key_fd ≡ w.client.fd
      → Delivered r w.client.fd w
      → Registered w.client.fd op_writing w.selector
      → Within (serve r (new_machine dir) w) (Remains dir w.client.fd)
  first_event writable w fresh k d h =
      first_event_lem dir (event_of w) fresh w k (event_of-Framed w) h
  first_event readable w fresh k d h =
      absurd (cc (Delivered-asks readable w.client.fd op_writing w d h))

  later_event :
      (r : Readiness) (st : SocketState) (w : World)
      → IsFresh (event_of w)
      → w.key_fd ≡ w.client.fd
      → Delivered r w.client.fd w
      → Waits w.client.fd st w
      → Within (serve r (machine_in dir st) w) (Remains dir w.client.fd)
  later_event r st w fresh k d h = elim (Bool-cases (is_over (place st))) [
    | inl o ↦ over_stops r st w _ o
    | inr o ↦ client_event_lem dir (event_of w) fresh r st w k o (event_of-Framed w) h d
  ]

  abbrev current_of : StateMachine World → Option ℕ
  current_of stm = stm.current

  not_new : machine_in dir request_data_write ≢ new_machine dir
  unfolding new_machine
  not_new a = let p : some (place request_data_write) ≡ none = ap (λ m. current_of m) a in cc

  abbrev state_of : Option ℕ → SocketState
  state_of none = request_failed
  state_of (some n) = state_at n

  machine_in-injective :
      (st : SocketState)
      → machine_in dir request_data_write ≡ machine_in dir st
      → st ≡ request_data_write
  machine_in-injective st a = sym (ap (λ m. state_of (current_of m)) a ∙ state_at-place st)

  AllReady-Reached : (s : Socket) → Reached dir s → AllReady s
  AllReady-Reached s (accepted passive new_socket address memory sel c w e p q) =
      let (a, b) =
        Within-of _ (smtp_passive_accept dir passive new_socket (some address) memory sel c) e
          (accept-Ready passive new_socket address memory sel c) in
      inl (a, rw (p, q) b)
  AllReady-Reached s (client_event r {stm} {w} w' before v fresh k d e) =
      elim (AllReady-Reached (alive stm w) before) [
        | inl (a, h) ↦ ready-Remains s w'.client.fd (
            Within-of _ (serve r (new_machine dir) w') (rw a at e)
              (first_event r w' fresh k d (rw v.same_client (v.same_interest op_writing h))))
        | inr (st, a, h) ↦ ready-Remains s w'.client.fd (
            Within-of _ (serve r (machine_in dir st) w') (rw a at e)
              (later_event r st w' fresh k d (Waits-Resumed st w w' v h)))
      ]
  AllReady-Reached s (file_event {w} w' before v fresh e) =
      elim (AllReady-Reached (alive (machine_in dir request_data_write) w) before) [
        | inl (a, h) ↦ absurd (not_new a)
        | inr (st, a, h) ↦
            let st' : st ≡ request_data_write = machine_in-injective st a in
            let h' : Waits w.client.fd request_data_write w = rw st' at h in
            ready-Remains s w'.client.fd (
              Within-of _ (write_file (machine_in dir request_data_write) w') e (
                file_event_lem dir (event_of w') fresh w' (event_of-Framed w')
                  (Waits-Resumed request_data_write w w' v h')))
      ]

  -- Whatever the clients send and the calls answer, and whatever else the server does between the
  -- events of a client: the client's socket is registered for what the state of its machine does, for
  -- writing where a reply is sent, for reading where a command or a message is read, and for nothing
  -- while the message's own descriptor, another one, is registered for writing.
  pub Reached-Ready :
      (stm : StateMachine World) (w : World) → Reached dir (alive stm w) → Ready dir stm w
  Reached-Ready stm w h = AllReady-Reached (alive stm w) h

  callback_lem :
      (r : Readiness) (st : SocketState) (stm : StateMachine World) (w : World) (n : ℕ)
      → stm.states ≡ states_handlers dir
      → n ≡ place st
      → is_over n ≡ false
      → Waits w.client.fd st w
      → Delivered r w.client.fd w
      → (f : World → Option (ℕ × World)) × (ready_of dir (callback_for r) (get_elem? stm.states n)
          ≡ some f)
  callback_lem r st stm w n a p o h d =
      let (f, e) = Delivered-callback dir r w.client.fd st w (rw p at o) h d in (f, rw (a, p) e)

  new_state : stm_state (new_machine dir) ≡ some (place request_write)
  unfolding stm_state new_machine
  new_state = refl

  state_in : (st : SocketState) → stm_state (machine_in dir st) ≡ some (place st)
  unfolding stm_state new_machine states_handlers
  state_in request_read = refl
  state_in request_write = refl
  state_in request_data_read = refl
  state_in request_admin = refl
  state_in request_data_write = refl
  state_in request_finished = refl
  state_in request_failed = refl

  abbrev states_of : StateMachine World → List (StateDefinition World)
  states_of stm = stm.states

  same_table :
      (st : SocketState) (stm : StateMachine World)
      → (stm ≡ new_machine dir) ⊎ (stm ≡ machine_in dir st)
      → stm.states ≡ states_handlers dir
  unfolding new_machine
  same_table st stm (inl a) = ap (λ m. states_of m) a
  same_table st stm (inr a) = ap (λ m. states_of m) a

  abbrev number_of : Option ℕ → ℕ
  number_of none = 0
  number_of (some n) = n

  -- Whatever the clients send and the calls answer, and whatever else the server does between the
  -- events of a client: if its socket comes to a machine in a state that is not the last one, each
  -- event of the client's socket that the selector was asked for has a callback in the table of the
  -- states, so the machine does not abort.
  pub Reached-callback :
      (r : Readiness) (stm : StateMachine World) (w : World)
      → Reached dir (alive stm w)
      → (n : ℕ) → stm_state stm ≡ some n
      → is_over n ≡ false
      → Delivered r w.client.fd w
      → (f : World → Option (ℕ × World)) × (ready_of dir (callback_for r) (get_elem? stm.states n)
          ≡ some f)
  Reached-callback r stm w h n e o d = elim (AllReady-Reached (alive stm w) h) [
    | inl (a, k) ↦
        callback_lem r request_write stm w n (same_table request_write stm (inl a))
          (ap number_of (sym e ∙ ap stm_state a ∙ new_state)) o k d
    | inr (st, a, k) ↦
        callback_lem r st stm w n (same_table st stm (inr a))
          (ap number_of (sym e ∙ ap stm_state a ∙ state_in st)) o k d
  ]
