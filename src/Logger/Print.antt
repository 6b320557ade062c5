-- ===== src/Logger/Print.antt =====
-- src/lib/logger.c and the macro logf of src/lib/headers/logger.h: what is done for a message.
use smtp_protos.Prelude.{
  ℕ, ◌+◌, ◌-◌, ◌%◌, ◌^◌, List, [], ◌∷◌, ◌++◌, Option, none, some, length, Bool, false, ltb, leb,
  ◌==◌, ◌&&◌, ◌||◌, take, drop, if◌then◌else◌, ◌>>=◌, codes, ℤ, pos, negsuc,
}
use smtp_protos.CString.{strcpy, strlen, c_str}
use smtp_protos.Logger.{
  Logger, log_buffer_max_print_length, is_open, make_buffer_space, try_flush_buffer_to_file,
}

-- LOG_OUTPUT, of the levels from LOG_DEBUG, 0, to LOG_FATAL, 5.
abbrev pub log_output : ℕ
log_output = 2

unfoldable pub logger_get_level_string : ℕ → List ℕ
logger_get_level_string level =
    if level == 0
    then codes " [DEBUG]"
    else if level == 1
    then codes " [INFO]"
    else if level == 2
    then codes " [OUTPUT]"
    else if level == 3
    then codes " [WARNING]"
    else if level == 4
    then codes " [ERROR]"
    else if level == 5
    then codes " [FATAL]"
    else codes " [UNKNOWN]"

-- fd > 0
abbrev pub is_positive : ℤ → Bool
is_positive (pos n) = ltb 0 n
is_positive (negsuc n) = false

-- The line of a message: `stamp` is the time, as formatted.
unfoldable pub log_line : List ℕ → ℕ → List ℕ → List ℕ
unfolding logger_get_level_string
log_line stamp level text =
    stamp
    ++ ((if level == log_output then [] else logger_get_level_string level)
        ++ (9 ∷ (text ++ 10 ∷ [])))

module _ {H D : Type 0} where
  unfoldable pub logger_set_level : ℕ → Logger H D → Logger H D
  logger_set_level level l = record l { log_level = level }

  unfoldable pub logger_is_enabled_for : ℕ → Logger H D → Bool
  logger_is_enabled_for level l =
      leb l.log_level level && (is_positive l.log_file_fd || l.log_stream)

  unfoldable pub logger_pre_print : (ℕ → Option (List ℕ)) → Logger H D → Option (Logger H D)
  logger_pre_print malloc l = make_buffer_space malloc log_buffer_max_print_length l

  -- The place of the next line, and a size_t, the room for it.
  unfoldable pub logger_get_buf_start_and_max_length : Logger H D → ℕ × ℕ
  logger_get_buf_start_and_max_length l = (
    l.buffer_start + l.buffer_length,
    (l.buffer_capacity + 2 ^ 64 - (l.buffer_length + l.buffer_start)) % 2 ^ 64,
  )

  -- fprintf(log_stream, "%s", buffer + at): the bytes as far as a NUL, which must be there.
  unfoldable pub print_to_stream : ℕ → Logger H D → Option (Logger H D)
  print_to_stream at l =
      if l.log_stream
      then (if ltb (strlen (drop at l.buffer)) (length (drop at l.buffer))
          then some (record l { console = l.console ++ c_str (drop at l.buffer) })
          else none)
      else some l

  unfoldable pub logger_post_print : (ℕ → ℤ) → ℤ → ℕ → Logger H D → Option (ℤ × Logger H D)
  logger_post_print write (negsuc _) maxlen l = some (negsuc 0, l)
  logger_post_print write (pos written) maxlen l = do
    l₁ ← print_to_stream (l.buffer_start + l.buffer_length) l
    let kept = if leb maxlen written then (maxlen + 2 ^ 64 - 1) % 2 ^ 64 else written
    l₂ ←
        if is_open l.log_file_fd
        then try_flush_buffer_to_file write
            (record l₁ { buffer_length = (l₁.buffer_length + kept) % 2 ^ 64 })
        else some l₁
    some (pos 0, l₂)

  -- snprintf(buffer + at, maxlen, ...), for a text that is formatted: what fits, and a NUL.
  unfoldable pub print_line : ℕ → ℕ → List ℕ → Logger H D → Option (Logger H D)
  print_line at maxlen line l =
      if maxlen == 0
      then some l
      else (do m ← strcpy l.buffer at (take (maxlen - 1) line); some (record l { buffer = m }))

  -- The macro logf, with the text of the message formatted.
  unfoldable pub logf :
      (ℕ → Option (List ℕ)) → (ℕ → ℤ) → List ℕ → ℕ → List ℕ → Logger H D → Option (Logger H D)
  logf malloc write stamp level text l =
      if logger_is_enabled_for level l
      then (do
        let line = log_line stamp level text
        l₁ ← logger_pre_print malloc l
        let (bufstart, maxlen) = logger_get_buf_start_and_max_length l₁
        l₂ ← print_line bufstart maxlen line l₁
        (_, l₃) ← logger_post_print write (pos (length line)) maxlen l₂
        some l₃)
      else some l
