-- ===== src/Socket/Waits/States.antt =====
-- src/lib/smtp.c: the table of the states keeps what is waited for.
use smtp_protos.Prelude.{ℕ, zero, suc, ◌≤◌, ◌≡◌, ◌≢◌, Option, none, some, arith, refl, ap, sym, ◌∙◌}
use smtp_protos.Process.Admin.{Directory}
use smtp_protos.Registry.{AccessRegistry}
use smtp_protos.Smtp.{
  SocketState, request_read, request_write, request_data_read, request_admin, request_data_write,
  request_finished, request_failed,
}
use smtp_protos.Socket.{World}
use smtp_protos.Prelude.{Within, Within-mono, Within-bind}
use smtp_protos.Socket.Waits.{Event, Framed, IsFresh, Wants, Waits, Out, Framed-again}
use smtp_protos.Socket.Machine.{place, numbered, states_handlers}
use smtp_protos.Stm.{StateDefinition, StateMachine, call, stm_handler}
use smtp_protos.Stm.Discipline.{
  Keeps, Disciplined, Located, Moves, Serves, resident, stm_handler_lem,
}
use smtp_protos.Prelude.{partial, get_elem?}
use smtp_protos.Socket.Waits.Arrival.{data_init_keeps}
use smtp_protos.Socket.Accept.{new_machine}
use smtp_protos.Socket.Read.{request_read_init, request_admin_init}

-- The state at a place of the table.
abbrev pub state_at : ℕ → SocketState
state_at zero = request_read
state_at (suc zero) = request_write
state_at (suc (suc zero)) = request_data_read
state_at (suc (suc (suc zero))) = request_admin
state_at (suc (suc (suc (suc zero)))) = request_data_write
state_at (suc (suc (suc (suc (suc zero))))) = request_finished
state_at _ = request_failed

pub place-state_at : (n : ℕ) → n ≤ 6 → place (state_at n) ≡ n
place-state_at zero h = refl
place-state_at (suc zero) h = refl
place-state_at (suc (suc zero)) h = refl
place-state_at (suc (suc (suc zero))) h = refl
place-state_at (suc (suc (suc (suc zero)))) h = refl
place-state_at (suc (suc (suc (suc (suc zero))))) h = refl
place-state_at (suc (suc (suc (suc (suc (suc zero)))))) h = refl
place-state_at (suc (suc (suc (suc (suc (suc (suc n))))))) h = absurd (omega arith)

pub state_at-place : (st : SocketState) → state_at (place st) ≡ st
state_at-place request_read = refl
state_at-place request_write = refl
state_at-place request_data_read = refl
state_at-place request_admin = refl
state_at-place request_data_write = refl
state_at-place request_finished = refl
state_at-place request_failed = refl

pub settled :
    (ev : Event) (st : SocketState) (w : World)
    → st ≢ request_data_read
    → Wants ev.fd st w
    → Waits ev.fd st w
settled ev request_read w p h = h
settled ev request_write w p h = h
settled ev request_data_read w p h = absurd (p refl)
settled ev request_admin w p h = h
settled ev request_data_write w p h = h
settled ev request_finished w p h = h
settled ev request_failed w p h = h

place-le : (st : SocketState) → place st ≤ 6
place-le request_read = omega arith
place-le request_write = omega arith
place-le request_data_read = omega arith
place-le request_admin = omega arith
place-le request_data_write = omega arith
place-le request_finished = omega arith
place-le request_failed = omega arith

module _ (dir : AccessRegistry → Directory) where
  -- The machine of a client, in a state.
  abbrev pub machine_in : SocketState → StateMachine World
  machine_in st = record (new_machine dir) { current = some (place st) }

  abbrev pub machine_at : Option ℕ → StateMachine World
  machine_at c = record (new_machine dir) { current = c }

  abbrev departs : Option (StateDefinition World) → ℕ → World → Option World
  departs none n w = none
  departs (some d) n w = call d.on_departure n w

  abbrev pub ready_of :
      (StateDefinition World → Option (World → Option (ℕ × World)))
      → Option (StateDefinition World)
      → Option (World → Option (ℕ × World))
  ready_of ready none = none
  ready_of ready (some d) = ready d

  departs_lem :
      (s : ℕ) (w : World) → s ≤ 6 → departs (get_elem? (states_handlers dir) s) s w ≡ some w
  unfolding states_handlers call
  departs_lem zero w h = refl
  departs_lem (suc zero) w h = refl
  departs_lem (suc (suc zero)) w h = refl
  departs_lem (suc (suc (suc zero))) w h = refl
  departs_lem (suc (suc (suc (suc zero)))) w h = refl
  departs_lem (suc (suc (suc (suc (suc zero))))) w h = refl
  departs_lem (suc (suc (suc (suc (suc (suc zero)))))) w h = refl
  departs_lem (suc (suc (suc (suc (suc (suc (suc s))))))) w h = absurd (omega arith)

  departure_lem :
      (s : ℕ) (d : StateDefinition World) (w : World)
      → s ≤ 6
      → get_elem? (states_handlers dir) s ≡ some d
      → call d.on_departure s w ≡ some w
  departure_lem s d w h e = ap (λ o. departs o s w) (sym e) ∙ departs_lem s w h

  module _ (ev : Event) (fresh : IsFresh ev) where
    -- What holds before and after an arrival.
    abbrev pub Before : ℕ → World → Type 0
    Before n w = Framed ev w × Wants ev.fd (state_at n) w

    abbrev pub During : ℕ → World → Type 0
    During n w = Framed ev w × Waits ev.fd (state_at n) w

    -- All the states are there.
    states_there :
        (s : ℕ)
        → s ≤ 6
        → (d : StateDefinition World) × (get_elem? (states_handlers dir) s ≡ some d)
          × Keeps partial Before During s d
    unfolding states_handlers call request_read_init request_admin_init
    states_there zero h = (
      _,
      refl,
      record { number = refl; arrival = λ w p. (Framed-again ev w p.0 refl refl refl, p.1) },
    )
    states_there (suc zero) h = (_, refl, record { number = refl; arrival = λ w p. p })
    states_there (suc (suc zero)) h =
        (_, refl, record { number = refl; arrival = λ w p. data_init_keeps ev w fresh p.0 p.1 })
    states_there (suc (suc (suc zero))) h = (
      _,
      refl,
      record { number = refl; arrival = λ w p. (Framed-again ev w p.0 refl refl refl, p.1) },
    )
    states_there (suc (suc (suc (suc zero)))) h =
        (_, refl, record { number = refl; arrival = λ w p. p })
    states_there (suc (suc (suc (suc (suc zero))))) h =
        (_, refl, record { number = refl; arrival = λ w p. p })
    states_there (suc (suc (suc (suc (suc (suc zero)))))) h =
        (_, refl, record { number = refl; arrival = λ w p. p })
    states_there (suc (suc (suc (suc (suc (suc (suc s))))))) h = absurd (omega arith)

    machine-Disciplined : (c : Option ℕ) → Disciplined partial Before During (machine_at c)
    unfolding new_machine
    machine-Disciplined c = record { initial_there = omega arith; there = states_there }

    -- What a callback leaves: a message is not read again but after its file is written.
    abbrev pub Goes : ℕ → SocketState × World → Type 0
    Goes s r = Out ev r × (place r.0 ≡ s → r.0 ≢ request_data_read)

    moves_lem :
        (s : ℕ) (d : StateDefinition World) (c : Option ℕ) (r : SocketState × World)
        → s ≤ 6
        → get_elem? (states_handlers dir) s ≡ some d
        → Goes s r
        → Moves partial Before During (machine_at c) s d (place r.0, r.1)
    unfolding new_machine
    moves_lem s d c r h e g =
        let at : state_at (place r.0) ≡ r.0 = state_at-place r.0 in
        (
          place-le r.0,
          λ p. (g.0.0, rw (ap state_at (sym p) ∙ at) (settled ev r.0 r.1 (g.1 p) g.0.1)),
          λ p. rw (departure_lem s d r.1 h e) (g.0.0, rw at g.0.1),
        )

    serves_lem :
        (ready : StateDefinition World → Option (World → Option (ℕ × World)))
        → (run : World → Option (SocketState × World)) (c : Option ℕ) (s : ℕ) → s ≤ 6
        → resident partial Before During (machine_at c) ≡ s
        → ready_of ready (get_elem? (states_handlers dir) s) ≡ some (λ u. numbered (run u))
        → ((u : World) → During s u → Within (run u) (Goes s))
        → Serves partial Before During ready (machine_at c)
    unfolding new_machine
    serves_lem ready run c s h q f keeps d e =
        let e' : get_elem? (states_handlers dir) s ≡ some d = rw q at e in
        (
          λ u. numbered (run u),
          ap (λ o. ready_of ready o) (sym e') ∙ f,
          λ u i. rw q (
              Within-bind (Goes s) _ (run u) _ (λ r g. moves_lem s d c r h e' g)
                (keeps u (rw q at i))),
        )

    -- An event of which a callback is the handler.
    pub event_lem :
        (ready : StateDefinition World → Option (World → Option (ℕ × World)))
        → (run : World → Option (SocketState × World)) (c : Option ℕ) (s : ℕ) (w : World) → s ≤ 6
        → resident partial Before During (machine_at c) ≡ s
        → ready_of ready (get_elem? (states_handlers dir) s) ≡ some (λ u. numbered (run u))
        → ((u : World) → During s u → Within (run u) (Goes s))
        → Located partial Before During (machine_at c) c w
        → Within
            (stm_handler ready (machine_at c) w)
            (λ r. (r.0 ≤ 6) × (r.1 ≡ machine_in (state_at r.0)) × During r.0 r.2)
    unfolding new_machine Located
    event_lem ready run c s w h q f keeps l =
        Within-mono _ _ (stm_handler ready (machine_at c) w)
          (λ r m. (
            m.1.0,
            m.0
                ∙ ap (λ n. record (new_machine dir) { current = some n })
                    (sym (place-state_at r.0 m.1.0)),
            m.1.1,
          ))
          (stm_handler_lem partial Before During ready (machine_at c) w (machine-Disciplined c)
            (serves_lem ready run c s h q f keeps) l)
