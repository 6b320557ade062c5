-- ===== src/Socket/Waits/Delivered.antt =====
-- src/lib/smtp.c: the events of a client's socket that the selector is asked for.
use smtp_protos.Prelude.{ℕ, ◌≡◌, Option, some, Bool, true, false, refl, ℤ, pos, negsuc}
use smtp_protos.Process.Admin.{Directory}
use smtp_protos.Selector.{Selector}
use smtp_protos.Registry.{AccessRegistry}
use smtp_protos.Smtp.{
  SocketState, request_read, request_write, request_data_read, request_admin, request_data_write,
  request_finished, request_failed,
}
use smtp_protos.Socket.{World, FdHandler, op_noop, op_reading, op_writing}
use smtp_protos.Selector.Slots.{Registered}
use smtp_protos.Socket.Waits.{Waits}
use smtp_protos.Socket.Machine.{
  place, states_handlers, Socket, alive, freed, read_handler, write_handler, is_over,
}
use smtp_protos.Stm.{StateDefinition, StateMachine}
use smtp_protos.Prelude.{get_elem?}
use smtp_protos.Socket.Waits.States.{ready_of, machine_in}
use smtp_protos.Selector.{op_read, op_write}

-- An event of a client's socket, and what the selector does with it.
pub data Readiness : Type 0 where
  readable writable : Readiness

abbrev pub asks : Readiness → ℕ → Bool
asks readable i = op_read i
asks writable i = op_write i

abbrev pub serve : Readiness → StateMachine World → World → Option Socket
serve readable = read_handler
serve writable = write_handler

abbrev pub callback_for : Readiness → StateDefinition World → Option (World → Option (ℕ × World))
callback_for readable d = d.on_read_ready
callback_for writable d = d.on_write_ready

-- The selector has been asked for it.
abbrev pub Delivered : Readiness → ℤ → World → Type 0
Delivered r fd w = (i : ℕ) × Registered fd i w.selector × (asks r i ≡ true)

Registered-unique :
    (fd : ℤ) (i j : ℕ) (s : Selector FdHandler ℕ) → Registered fd i s → Registered fd j s → i ≡ j
Registered-unique (pos n) i j s (x, e, p) (y, f, q) = cc
Registered-unique (negsuc n) i j s h k = elim h [ ]

-- What the machine waits for decides which of the two can come.
pub Delivered-asks :
    (r : Readiness) (fd : ℤ) (j : ℕ) (w : World)
    → Delivered r fd w
    → Registered fd j w.selector
    → asks r j ≡ true
Delivered-asks r fd j w (i, h, e) k = rw (Registered-unique fd i j w.selector h k) at e

module _ (dir : AccessRegistry → Directory) where
  -- The client's machine is in a state, and waits for what its handler does; or the client is freed.
  abbrev pub Remains : ℤ → Socket → Type 0
  Remains fd (alive stm w) =
      (st : SocketState) × (stm ≡ machine_in dir st) × (w.client.fd ≡ fd) × Waits fd st w
  Remains fd (freed w) = Unit

  -- In a state that is not the last one, the table has a callback for every event of the client's
  -- socket that the selector was asked for, so the machine does not abort.
  pub Delivered-callback :
      (r : Readiness) (fd : ℤ) (st : SocketState) (w : World)
      → is_over (place st) ≡ false
      → Waits fd st w
      → Delivered r fd w
      → (f : World → Option (ℕ × World)) × (ready_of dir
            (callback_for r)
            (get_elem? (states_handlers dir) (place st))
          ≡ some f)
  unfolding states_handlers
  Delivered-callback readable fd request_read w o h d = (_, refl)
  Delivered-callback readable fd request_data_read w o h d = (_, refl)
  Delivered-callback readable fd request_admin w o h d = (_, refl)
  Delivered-callback readable fd request_write w o h d =
      absurd (cc (Delivered-asks readable fd op_writing w d h))
  Delivered-callback readable fd request_data_write w o h d =
      absurd (cc (Delivered-asks readable fd op_noop w d h.0))
  Delivered-callback readable fd request_finished w o h d = absurd (cc o)
  Delivered-callback readable fd request_failed w o h d = absurd (cc o)
  Delivered-callback writable fd request_write w o h d = (_, refl)
  Delivered-callback writable fd request_read w o h d =
      absurd (cc (Delivered-asks writable fd op_reading w d h))
  Delivered-callback writable fd request_data_read w o h d =
      absurd (cc (Delivered-asks writable fd op_reading w d h.0))
  Delivered-callback writable fd request_admin w o h d =
      absurd (cc (Delivered-asks writable fd op_reading w d h))
  Delivered-callback writable fd request_data_write w o h d =
      absurd (cc (Delivered-asks writable fd op_noop w d h.0))
  Delivered-callback writable fd request_finished w o h d = absurd (cc o)
  Delivered-callback writable fd request_failed w o h d = absurd (cc o)
