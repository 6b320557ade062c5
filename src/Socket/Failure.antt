-- ===== src/Socket/Failure.antt =====
-- src/lib/smtp.c: a message that cannot be written to its file.
use smtp_protos.Prelude.{◌≡◌, none, some, true, refl}
use smtp_protos.Process.Admin.{Directory}
use smtp_protos.Registry.{AccessRegistry}
use smtp_protos.Smtp.{request_data_write, request_failed}
use smtp_protos.Socket.{World}
use smtp_protos.Socket.File.{is_negative, write_file_handler}
use smtp_protos.Socket.Machine.{alive, write_file, states_handlers}
use smtp_protos.Socket.Accept.{new_machine}
use smtp_protos.Socket.Waits.States.{machine_in}
use smtp_protos.Stm.{call, stm_handler, stm_handler_write, handle_first, jump, arrive, depart}

module _ (dir : AccessRegistry → Directory) where
  failed_run :
      (w : World)
      → is_negative w.answers.wrote ≡ true
      → write_file_handler dir w ≡ some (request_failed, w)
  unfolding write_file_handler
  failed_run w e = rw e refl

  -- If the write to the message's descriptor fails, write_file leaves the client in its last state,
  -- with nothing else changed, so the descriptor stays registered as it was; and the next event of
  -- that descriptor, whatever the calls answer, aborts the server.
  pub write_file_error :
      (w : World)
      → is_negative w.answers.wrote ≡ true
      → (write_file (machine_in dir request_data_write) w
          ≡ some (alive (machine_in dir request_failed) w))
        × ((u : World) → write_file (machine_in dir request_failed) u ≡ none)
  unfolding write_file stm_handler_write stm_handler handle_first jump arrive depart call
      new_machine states_handlers
  write_file_error w e = (rw (failed_run w e) refl, λ u. refl)
