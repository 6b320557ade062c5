-- ===== src/Monitor/Client.antt =====
-- monitor_client/client_monitor.c: the request that the client sends, and how it reads a reply.
use smtp_protos.Prelude.{ℕ, ◌/◌, ◌%◌, List, [], ◌∷◌, Bool, ◌==◌, not, get_or, if◌then◌else◌, codes}
use smtp_protos.Monitor.Wire.{Endian, htons, read_32, read_64}

-- The size of a request, which is also what the client reads of a reply.
abbrev pub request_size : ℕ
request_size = 14

unfoldable pub prepare_buffer : Endian → ℕ → ℕ → List ℕ
prepare_buffer e request_id cmd =
    htons e 0xfffe / 256 % 256
    ∷ htons e 0xfffe % 256
    ∷ 0
    ∷ htons e request_id / 256 % 256
    ∷ htons e request_id % 256
    ∷ 0xff
    ∷ 0xe9
    ∷ 0x1a
    ∷ 0x2b
    ∷ 0x3c
    ∷ 0x4d
    ∷ 0x5e
    ∷ 0x6f
    ∷ cmd
    ∷ []

-- What the client prints for a reply to a command.
pub data Printed : Type 0 where
  historical simultaneous transferred : ℕ → Printed
  transformations : Bool → Printed
  turned_on turned_off nothing : Printed

unfoldable pub print_bytes_recieved : List ℕ → ℕ → Printed
print_bytes_recieved b command =
    if command == 0
    then historical (read_32 b 6)
    else if command == 1
    then simultaneous (read_32 b 6)
    else if command == 2
    then transferred (read_64 b 6)
    else if command == 3
    then transformations (not (get_or b 6 0 == 0))
    else if command == 4
    then turned_on
    else if command == 5
    then turned_off
    else nothing

-- commands_str
unfoldable pub commands_str : List (List ℕ)
commands_str =
    codes "HIST" ∷ codes "CONC" ∷ codes "BYTES" ∷ codes "STATUS" ∷ codes "T_ON" ∷ codes "T_OFF" ∷ []
