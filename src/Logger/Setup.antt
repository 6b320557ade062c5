-- ===== src/Logger/Setup.antt =====
-- src/lib/logger.c: logger_init and logger_finalize.
use smtp_protos.Prelude.{
  ℕ, ◌-◌, List, [], ◌++◌, Option, none, some, length, Bool, false, ◌==◌, ◌||◌, take, if◌then◌else◌,
  ◌>>=◌, codes, ℤ, pos, negsuc,
}
use smtp_protos.CString.{strlen, c_str}
use smtp_protos.Selector.{Item, Selector, selector_register, selector_unregister_fd}
use smtp_protos.Logger.{Logger, log_min_buffer_size, is_open, op_noop}

abbrev pub default_log_file_maxstrlen : ℕ
default_log_file_maxstrlen = 48

-- `day` is the date as "%02d-%02d-%04d", `open_file` what open(2) answers for a name. The second
-- part tells whether the folder is made first.
unfoldable pub try_open_log_file : (List ℕ → ℤ) → List ℕ → Option (List ℕ) → ℤ × Bool
try_open_log_file open_file day none = (negsuc 0, false)
try_open_log_file open_file day (some log_file) =
    let by_default = strlen log_file == 0 in
    let name =
      if by_default
      then take (default_log_file_maxstrlen - 1) (codes "./log/" ++ (day ++ codes ".log"))
      else c_str log_file in
    (if is_open (open_file name) then open_file name else negsuc 0, by_default)

module _ {H D : Type 0} where
  -- The part of logger_init that gives the buffer.
  unfoldable pub allocate : (ℕ → Option (List ℕ)) → Logger H D → ℤ × Logger H D
  allocate malloc l =
      let emptied = record l {
        buffer_start = 0;
        buffer_length = 0;
        buffer_capacity = log_min_buffer_size;
      } in
      if is_open l.log_file_fd || l.log_stream
      then (elim (malloc log_min_buffer_size) [
        | none ↦ (negsuc 0, record emptied { buffer = []; log_file_fd = negsuc 0 })
        | some fresh ↦ (pos 0, record emptied { buffer = fresh })
      ])
      else (pos 0, l)

  -- `handler` and `d` are the logger's handler and the NULL that it registers; `mem` tells whether
  -- the table can grow.
  unfoldable pub register_log : Bool → H → D → Logger H D → Option (Logger H D)
  register_log mem handler d l = elim l.selector [
    | none ↦ some l
    | some s ↦
        if is_open l.log_file_fd
        then (do
          (_, s') ← selector_register mem l.log_file_fd handler op_noop d s
          some (record l { selector = some s' }))
        else some l
  ]

  unfoldable pub logger_init :
      (List ℕ → ℤ)
      → List ℕ
      → Bool
      → H
      → D
      → (ℕ → Option (List ℕ))
      → Option (Selector H D)
      → Option (List ℕ)
      → Bool
      → Logger H D
      → Option (ℤ × Logger H D)
  unfolding try_open_log_file allocate register_log
  logger_init open_file day mem handler d malloc selector_param log_file stream l = do
    let fd : ℤ = elim selector_param [
      | none ↦ negsuc 0
      | some _ ↦ (try_open_log_file open_file day log_file).0
    ]
    l₁ ← register_log mem handler d (record l {
      selector = selector_param;
      log_file_fd = fd;
      log_stream = stream;
      log_level = 0;
    })
    some (allocate malloc l₁)

  -- `close_of` is handle_close of a handler. The table that is left is the second part.
  unfoldable pub close_log :
      (H → Logger H D → Option (Logger H D))
      → Logger H D
      → Option (Logger H D × Option (Selector H D))
  close_log close_of l = elim l.selector [
    | none ↦ some (l, none)
    | some s ↦ do
      (_, (closed, s')) ←
          selector_unregister_fd
            (λ (item : Item H D) (w : Option (Logger H D)). w >>= close_of item.handler)
            l.log_file_fd (some l) s
      l' ← closed
      some (record l' { selector = none }, some s')
  ]

  unfoldable pub logger_finalize :
      (H → Logger H D → Option (Logger H D))
      → Logger H D
      → Option (Logger H D × Option (Selector H D))
  unfolding close_log
  logger_finalize close_of l = do
    (l', s) ← if is_open l.log_file_fd then close_log close_of l else some (l, l.selector)
    some (
      record l' {
        buffer = [];
        buffer_start = if length l'.buffer == 0 then l'.buffer_start else 0;
        buffer_length = if length l'.buffer == 0 then l'.buffer_length else 0;
        buffer_capacity = if length l'.buffer == 0 then l'.buffer_capacity else 0;
        log_stream = false;
      },
      s,
    )
