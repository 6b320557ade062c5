-- ===== src/Monitor/Service.antt =====
-- The service of src/lib/monitor.c answers the client of monitor_client/client_monitor.c.
use smtp_protos.Prelude.{
  ℕ, zero, suc, ◌+◌, ◌*◌, ◌/◌, ◌%◌, ◌^◌, ◌≤◌, ◌<◌, ◌≡◌, [], ◌∷◌, some, arith, true, ◌==◌, Returns,
  take, if◌then◌else◌, refl, filled, replicate, ap,
}
use smtp_protos.Monitor.Wire.{Endian, little, big, htons, ntohs, be_32, be_64, read_32, read_64}
use smtp_protos.Monitor.Client.{
  prepare_buffer, print_bytes_recieved, Printed, request_size, historical, simultaneous,
  transferred, transformations, turned_on, turned_off,
}
use smtp_protos.Monitor.{
  Collected, Status, accepted, parse_monitor_message, process_valid_command, handle_udp_packet,
  signature_err, buffer_size, is_valid_command,
}

-- What the client prints for each command when the service answers, given the counters; transformations
-- are said to be on whatever they are.
abbrev pub expected : Collected → ℕ → Printed
expected c command =
    if command == 0
    then historical c.total_connections
    else if command == 1
    then simultaneous c.curr_connections
    else if command == 2
    then transferred c.sent_bytes
    else if command == 3
    then transformations true
    else if command == 4
    then turned_on
    else turned_off

parse-prepare :
    (e : Endian) (id command : ℕ) (st : Status)
    → command ≤ 5
    → parse_monitor_message e (prepare_buffer e id command) 14 st
      ≡ accepted command (ntohs e (htons e id / 256 % 256 * 256 + htons e id % 256)) (
          htons e 0xfffe / 256
          ∷ htons e 0xfffe % 256
          ∷ 0
          ∷ htons e id / 256 % 256
          ∷ htons e id % 256
          ∷ 0
          ∷ [])
unfolding parse_monitor_message prepare_buffer htons ntohs is_valid_command
parse-prepare little id command st h = ground arith
parse-prepare big id command st h = ground arith

pub handle_udp_packet_lem :
    (e : Endian) (c : Collected) (id command : ℕ)
    → command ≤ 5
    → handle_udp_packet e c (some (prepare_buffer e id command))
      ≡ some (
          filled buffer_size 0 (
            htons e 0xfffe / 256
            ∷ htons e 0xfffe % 256
            ∷ 0
            ∷ htons e id / 256 % 256
            ∷ htons e id % 256
            ∷ 0
            ∷ process_valid_command e c command))
unfolding handle_udp_packet prepare_buffer
handle_udp_packet_lem e c id command h =
    rw (handle_udp_packet, parse-prepare e id command signature_err h)

-- For each of the six commands the service answers a request that the client has prepared, and
-- from the bytes that it reads of the answer the client prints the counter that it asked for.
pub monitor_answers :
    (e : Endian) (c : Collected) (id command : ℕ)
    → command ≤ 5
    → c.total_connections < 2 ^ 32
    → c.curr_connections < 2 ^ 32
    → c.sent_bytes < 2 ^ 64
    → Returns
        (handle_udp_packet e c (some (prepare_buffer e id command)))
        (λ reply. print_bytes_recieved (take request_size reply) command ≡ expected c command)
unfolding print_bytes_recieved process_valid_command filled replicate be_32 be_64 read_32 read_64
monitor_answers e c id zero h k l m =
    rw (handle_udp_packet_lem e c id 0 h) (ap historical (omega arith))
monitor_answers e c id (suc zero) h k l m =
    rw (handle_udp_packet_lem e c id 1 h) (ap simultaneous (omega arith))
monitor_answers e c id (suc (suc zero)) h k l m =
    rw (handle_udp_packet_lem e c id 2 h) (ap transferred (omega arith))
monitor_answers e c id (suc (suc (suc zero))) h k l m = rw (handle_udp_packet_lem e c id 3 h) refl
monitor_answers e c id (suc (suc (suc (suc zero)))) h k l m =
    rw (handle_udp_packet_lem e c id 4 h) refl
monitor_answers e c id (suc (suc (suc (suc (suc zero))))) h k l m =
    rw (handle_udp_packet_lem e c id 5 h) refl
monitor_answers e c id (suc (suc (suc (suc (suc (suc n)))))) h k l m = absurd (omega arith)
