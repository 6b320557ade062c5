-- ===== src/Buffer.antt =====
-- src/lib/buffer.c and headers/buffer.h: a byte buffer with a read and a write pointer.
-- The struct's pointers `limit`, `read` and `write` are offsets from `data`, and `mem` is the
-- memory that `data` points to. A failed assert is the fault `none`.
pub mod Inv
pub mod Fifo
mod Tests
use smtp_protos.Prelude.{
  ℕ, ◌+◌, ◌-◌, Bool, List, ◌++◌, Option, none, some, ltb, leb, ◌==◌, if◌then◌else◌, get_or, set,
  take, drop, length, assert, ◌>>=◌, ◌>>◌, ℤ, pos, negsuc,
}

-- struct buffer
pub record Buffer : Type 0 where
  pub mem : List ℕ
  pub limit : ℕ
  pub read : ℕ
  pub write : ℕ

unfoldable pub buffer_reset : Buffer → Buffer
buffer_reset b = record b { read = 0; write = 0 }

-- The storage `data` and its announced size `n`.
unfoldable pub buffer_init : ℕ → List ℕ → Buffer
unfolding buffer_reset
buffer_init n storage =
    let b = buffer_reset (record { mem = storage; limit = 0; read = 0; write = 0 }) in
    record b { limit = n }

-- limit - write > 0, a signed difference.
unfoldable pub buffer_can_write : Buffer → Bool
buffer_can_write b = ltb b.write b.limit

-- The offset to write at, and how many bytes fit there.
unfoldable pub buffer_write_ptr : Buffer → Option (ℕ × ℕ)
buffer_write_ptr b = do assert (leb b.write b.limit); some (b.write, b.limit - b.write)

unfoldable pub buffer_can_read : Buffer → Bool
buffer_can_read b = ltb b.read b.write

-- The offset to read at, and how many bytes are there.
unfoldable pub buffer_read_ptr : Buffer → Option (ℕ × ℕ)
buffer_read_ptr b = do assert (leb b.read b.write); some (b.read, b.write - b.read)

unfoldable pub buffer_write_adv : Buffer → ℤ → Option Buffer
buffer_write_adv b (pos n) = do
  assert (leb (b.write + n) b.limit)
  some (record b { write = b.write + n })
buffer_write_adv b (negsuc _) = some b

-- memmove(data, data + from, n)
abbrev pub move_down : List ℕ → ℕ → ℕ → List ℕ
move_down mem from n = take n (drop from mem) ++ drop n mem

unfoldable pub buffer_compact : Buffer → Buffer
buffer_compact b =
    if 0 == b.read
    then b
    else if b.read == b.write
    then record b { read = 0; write = 0 }
    else record b {
      mem = move_down b.mem b.read (b.write - b.read);
      read = 0;
      write = b.write - b.read;
    }

unfoldable pub buffer_read_adv : Buffer → ℤ → Option Buffer
unfolding buffer_compact
buffer_read_adv b (pos n) = do
  let b' = record b { read = b.read + n }
  assert (leb b'.read b'.write)
  some (if b'.read == b'.write then buffer_compact b' else b')
buffer_read_adv b (negsuc _) = some b

-- The byte read, 0 where there is none.
unfoldable pub buffer_read : Buffer → Option (ℕ × Buffer)
unfolding buffer_can_read buffer_read_adv
buffer_read b =
    if buffer_can_read b
    then (do b' ← buffer_read_adv b (pos 1); some (get_or b.mem b.read 0, b'))
    else some (0, b)

unfoldable pub buffer_write : Buffer → ℕ → Option Buffer
unfolding buffer_can_write buffer_write_adv
buffer_write b c =
    if buffer_can_write b
    then buffer_write_adv (record b { mem = set b.mem b.write c }) (pos 1)
    else some b

-- memcpy or recv of `bytes` to the offset `at`: what the callers do between
-- `buffer_write_ptr` and `buffer_write_adv`. A write past the memory is a fault.
unfoldable pub copy_in : Buffer → ℕ → List ℕ → Option Buffer
copy_in b at bytes =
    if leb (at + length bytes) (length b.mem)
    then some (record b { mem = take at b.mem ++ (bytes ++ drop (at + length bytes) b.mem) })
    else none

-- The bytes between the read and the write pointer: what a reader will see.
unfoldable pub contents : Buffer → List ℕ
contents b = take (b.write - b.read) (drop b.read b.mem)

-- What `recv` leaves: `bytes` in the place of the writer, and the writer advanced past them.
unfoldable pub receive : Buffer → List ℕ → Option Buffer
unfolding buffer_write_ptr copy_in buffer_write_adv
receive b bytes = do
  (at, room) ← buffer_write_ptr b
  b' ← copy_in b at bytes
  buffer_write_adv b' (pos (length bytes))
