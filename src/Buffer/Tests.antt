-- ===== src/Buffer/Tests.antt =====
-- Runs of buffer.c, and its theorems at concrete buffers.
use smtp_protos.Prelude.{◌-◌, ◌≡◌, [], ◌∷◌, ◌++◌, some, arith, length, Returns, ◌>>=◌, refl}
use smtp_protos.Buffer.{
  Buffer, contents, buffer_init, buffer_compact, buffer_read, buffer_write, receive,
}
use smtp_protos.Buffer.Inv.{IsValid}
use smtp_protos.Buffer.Fifo.{pop, read_pops, receive_appends, compact_room}

-- "HOLA" written to six bytes, and two of them read.
abbrev half_read : Buffer
half_read = record { mem = b'H' ∷ b'O' ∷ b'L' ∷ b'A' ∷ 0 ∷ 0 ∷ []; limit = 6; read = 2; write = 4 }

half_read-IsValid : IsValid half_read
half_read-IsValid = omega arith

write_then_read :
    (buffer_write (buffer_init 1 (0 ∷ [])) 7 >>= buffer_read)
    ≡ some (7, record { mem = 7 ∷ []; limit = 1; read = 0; write = 0 })
unfolding buffer_write buffer_init buffer_read
write_then_read = refl

read_pops_example :
    Returns
      (buffer_read half_read)
      (λ r. ((r.0, contents r.1) ≡ pop (contents half_read)) × IsValid r.1)
read_pops_example = read_pops half_read half_read-IsValid

receive_appends_example :
    Returns
      (receive half_read (b'!' ∷ []))
      (λ c. (contents c ≡ contents half_read ++ b'!' ∷ []) × IsValid c)
receive_appends_example = receive_appends half_read (b'!' ∷ []) half_read-IsValid (omega arith)

compact_room_example :
    let c = buffer_compact half_read in
    (contents c ≡ contents half_read)
    × (c.limit - c.write ≡ 6 - length (contents half_read))
    × IsValid c
compact_room_example = compact_room half_read half_read-IsValid
