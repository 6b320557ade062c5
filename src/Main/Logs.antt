-- ===== src/Main/Logs.antt =====
-- src/main.c: the two calls of logger_init.
use smtp_protos.Prelude.{
  ℕ, ◌<◌, ◌≡◌, ◌≢◌, List, [], Option, none, some, Bool, false, Returns, refl, Returns-bind, ℤ, pos,
  negsuc,
}
use smtp_protos.Prelude.{get_elem?}
use smtp_protos.Selector.{Selector, items_max_size}
use smtp_protos.Logger.{Logger, log_min_buffer_size}
use smtp_protos.Logger.Setup.{allocate, register_log, logger_init}
use smtp_protos.Logger.Print.{logger_set_level}
use smtp_protos.Logger.Room.{IsValid, GivesSize, pending}
use smtp_protos.Logger.Flush.{InSync}
use smtp_protos.Logger.Ends.{logger_init_lem}
use smtp_protos.Main.{init_logs}

module _ {H D : Type 0} where
  -- The first call opens no file, since there is no selector yet.
  pub first_call :
      (open_file : List ℕ → ℤ) (day : List ℕ) (mem : Bool) (log_handler : H) (no_data : D)
      (malloc : ℕ → Option (List ℕ)) (l : Logger H D)
      → logger_init open_file day mem log_handler no_data malloc none (some []) false l
        ≡ some (
          pos 0,
          record l { selector = none; log_file_fd = negsuc 0; log_stream = false; log_level = 0 },
        )
  unfolding logger_init register_log allocate
  first_call open_file day mem log_handler no_data malloc l = refl

  -- After the second call, with a file that opens, a free place for it and memory, the logger is valid
  -- and its file registered, with nothing that waits.
  pub init_logs_lem :
      (open_file : List ℕ → ℤ) (day : List ℕ) (mem : Bool) (log_handler : H) (no_data : D)
      (malloc : ℕ → Option (List ℕ)) (l : Logger H D) (s : Selector H D) (n : ℕ)
      → ((path : List ℕ) → open_file path ≡ pos n)
      → n < items_max_size
      → get_elem? s.fds n ≡ some none
      → GivesSize malloc
      → malloc log_min_buffer_size ≢ none
      → Returns (init_logs open_file day mem log_handler no_data malloc l s) (λ l'.
        IsValid l' × InSync l' × (l'.log_file_fd ≡ pos n) × (pending l' ≡ []) × (l'.file ≡ l.file))
  unfolding init_logs logger_set_level
  init_logs_lem open_file day mem log_handler no_data malloc l s n opens small free gives has =
      let l₁ : Logger H D = record l {
        selector = none;
        log_file_fd = negsuc 0;
        log_stream = false;
        log_level = 0;
      } in
      rw (first_call open_file day mem log_handler no_data malloc l) (
        Returns-bind
          (λ (answer, l').
            (answer ≡ pos 0)
            × IsValid l'
            × InSync l'
            × (l'.log_file_fd ≡ pos n)
            × (pending l' ≡ [])
            × (l'.file ≡ l₁.file))
          _ (logger_init open_file day mem log_handler no_data malloc (some s) (some []) false l₁) _
          (λ (answer, l') (_, v, t, e, p, f). (
            record { sized = v.sized; at_least = v.at_least; at_most = v.at_most; room = v.room },
            t,
            e,
            unfold pending in p,
            f,
          ))
          (logger_init_lem open_file day mem log_handler no_data malloc s [] false l₁ n opens small
            free gives has))
