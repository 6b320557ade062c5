-- ===== src/Logger.antt =====
-- src/lib/logger.c and the macro logf of src/lib/headers/logger.h: lines wait in a buffer until the
-- file takes them. `buffer` is the memory, empty while the pointer is NULL; `file` and `console` are
-- what the log file and the stream have taken so far. `malloc` is what an allocation of a size
-- gives, its bytes not set; `write` is what write(2) answers, given how many bytes it is offered. A
-- read or write outside the buffer is a fault.
pub mod Setup
pub mod Print
pub mod Room
pub mod Flush
pub mod Line
pub mod Order
pub mod Run
pub mod Ends
mod Tests
use smtp_protos.Prelude.{
  ℕ, zero, suc, ◌+◌, ◌-◌, ◌*◌, ◌/◌, ◌%◌, ◌^◌, ◌≤◌, ◌<◌, ◌≡◌, ◌≢◌, ◌↔◌, ◌⊎◌, List, [], ◌∷◌, ◌++◌,
  Option, none, some, arith, length, set, Bool, true, false, ltb, leb, ◌==◌, ◌&&◌, ◌||◌, not,
  length-set, length-take, Returns, Returns-some, get_or, length-replicate, take, drop,
  if◌then◌else◌, ◌>>=◌, ◌>>◌, Bool-cases, Option-cases, inl, inr, refl, Returns-bind, Returns-mono,
  All, All-mono, filled, replicate, length-filled, set-filled, set-filled_end, set-replicate,
  length-append, ap, sym, ◌∙◌, append-nil, append_assoc, store, codes, ℤ, pos, negsuc, map, assert,
  dec_lt, ℕ_discrete,
}
use smtp_protos.CString.{strcpy, strlen, c_str}
use smtp_protos.Selector.{
  Item, Selector, SelectorStatus, selector_register, selector_set_interest, selector_unregister_fd,
}

abbrev pub log_min_buffer_size : ℕ
log_min_buffer_size = 0x1000

abbrev pub log_max_buffer_size : ℕ
log_max_buffer_size = 0x400000

abbrev pub log_buffer_size_granularity : ℕ
log_buffer_size_granularity = 0x1000

abbrev pub log_buffer_max_print_length : ℕ
log_buffer_max_print_length = 0x200

-- OP_NOOP and OP_WRITE.
abbrev pub op_noop : ℕ
op_noop = 0

abbrev pub op_writing : ℕ
op_writing = 4

-- The variables of the file; `selector` is `none` while it is NULL.
pub record Logger (H D : Type 0) : Type 0 where
  pub buffer : List ℕ
  pub buffer_start : ℕ
  pub buffer_length : ℕ
  pub buffer_capacity : ℕ
  pub log_file_fd : ℤ
  pub selector : Option (Selector H D)
  pub log_stream : Bool
  pub log_level : ℕ
  pub file : List ℕ
  pub console : List ℕ

-- memmove or memcpy of bytes to the front of an array.
abbrev pub put_front : List ℕ → List ℕ → Option (List ℕ)
put_front bytes a =
    if leb (length bytes) (length a) then some (bytes ++ drop (length bytes) a) else none

-- How many bytes a call of write(2) took.
abbrev pub taken : ℤ → ℕ
taken (pos n) = n
taken (negsuc n) = 0

-- fd >= 0
abbrev pub is_open : ℤ → Bool
is_open (pos n) = true
is_open (negsuc n) = false

module _ {H D : Type 0} where
  -- The bytes of the buffer from `at` on that are offered to a call or moved.
  abbrev pub bytes_at : ℕ → Logger H D → Option (List ℕ)
  bytes_at at l =
      if leb (at + l.buffer_length) (length l.buffer)
      then some (take l.buffer_length (drop at l.buffer))
      else none

  unfoldable pub compact : Logger H D → Option (Logger H D)
  compact l = do
    bytes ← bytes_at l.buffer_start l
    m ← put_front bytes l.buffer
    some (record l { buffer = m; buffer_start = 0 })

  -- The size of the next buffer.
  unfoldable pub grown_capacity : ℕ → Logger H D → ℕ
  grown_capacity len l =
      let n =
        (l.buffer_length + len + log_buffer_size_granularity - 1)
        / log_buffer_size_granularity
        * log_buffer_size_granularity in
      if ltb log_max_buffer_size n then log_max_buffer_size else n

  abbrev pub move_to : ℕ → List ℕ → Logger H D → Option (Logger H D)
  move_to size fresh l = do
    bytes ← bytes_at l.buffer_start l
    m ← put_front bytes fresh
    some (record l { buffer = m; buffer_start = 0; buffer_capacity = size })

  -- The bytes move to a new buffer, or, where there is none, to the front of the old one.
  unfoldable pub grow : (ℕ → Option (List ℕ)) → ℕ → Logger H D → Option (Logger H D)
  unfolding compact grown_capacity
  grow malloc len l = elim (malloc (grown_capacity len l)) [
    | none ↦ compact l
    | some fresh ↦ move_to (grown_capacity len l) fresh l
  ]

  unfoldable pub make_buffer_space : (ℕ → Option (List ℕ)) → ℕ → Logger H D → Option (Logger H D)
  unfolding compact grow
  make_buffer_space malloc len l =
      if ltb l.buffer_capacity (l.buffer_length + l.buffer_start + len)
      then (if leb l.buffer_capacity len
          then compact l
          else if ltb l.buffer_capacity log_max_buffer_size
          then grow malloc len l
          else some l)
      else some l

  -- What is left in the buffer after a write of its bytes that took `n` of them.
  abbrev pub after_write : ℕ → List ℕ → Logger H D → Logger H D
  after_write n bytes l =
      let left = l.buffer_length - n in
      if ltb 0 n
      then record l {
        buffer_length = left;
        buffer_start = if left == 0 then 0 else l.buffer_start + n;
        file = l.file ++ take n bytes;
      }
      else l

  -- selector_set_interest with the logger's own descriptor; its status is not looked at.
  unfoldable pub ask : ℕ → Logger H D → Option (Logger H D)
  ask interest l = elim l.selector [
    | none ↦ some l
    | some s ↦ do
      (_, s') ← selector_set_interest l.log_file_fd interest s
      some (record l { selector = some s' })
  ]

  unfoldable pub try_flush_buffer_to_file : (ℕ → ℤ) → Logger H D → Option (Logger H D)
  unfolding ask
  try_flush_buffer_to_file write l = do
    bytes ← bytes_at l.buffer_start l
    let l' = after_write (taken (write (length bytes))) bytes l
    ask (if ltb 0 l'.buffer_length then op_writing else op_noop) l'

  unfoldable pub fd_write_handler : (ℕ → ℤ) → Logger H D → Option (Logger H D)
  fd_write_handler write l = try_flush_buffer_to_file write l

  -- The bytes are written from the front of the buffer, not from `buffer_start`.
  unfoldable pub fd_close_handler : (ℕ → ℤ) → Logger H D → Option (Logger H D)
  fd_close_handler write l = do
    l' ←
        if l.buffer_length == 0
        then some l
        else (do bytes ← bytes_at 0 l; some (after_write (taken (write (length bytes))) bytes l))
    some (record l' { log_file_fd = negsuc 0 })
