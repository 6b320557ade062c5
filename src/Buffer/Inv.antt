-- ===== src/Buffer/Inv.antt =====
-- The invariant of headers/buffer.h: R <= W <= limit, inside the storage.
use smtp_protos.Prelude.{
  ℕ, ◌+◌, ◌-◌, ◌≤◌, ◌≡◌, List, arith, length, take, drop, length-append, length-take, length-drop,
}
use smtp_protos.Buffer.{Buffer, buffer_init, buffer_compact, move_down}

pub record IsValid (b : Buffer) : Type 0 where
  pub read_le_write : b.read ≤ b.write
  pub write_le_limit : b.write ≤ b.limit
  pub in_memory : b.limit ≤ length b.mem

pub init-IsValid : (n : ℕ) (storage : List ℕ) → n ≤ length storage → IsValid (buffer_init n storage)
unfolding buffer_init
init-IsValid n storage h = ground arith

pub length-move_down :
    (mem : List ℕ) (i n : ℕ) → i + n ≤ length mem → length (move_down mem i n) ≡ length mem
length-move_down mem i n h = omega (
  arith,
  length-append (take n (drop i mem)) (drop n mem),
  length-take n (drop i mem),
  length-drop i mem,
  length-drop n mem,
)

pub compact-IsValid : {b : Buffer} → IsValid b → IsValid (buffer_compact b)
unfolding buffer_compact
compact-IsValid {b} v = ground (arith, length-move_down b.mem b.read (b.write - b.read))
