-- ===== src/Monitor/Tests.antt =====
-- Runs of src/lib/monitor.c and of monitor_client/client_monitor.c.
use smtp_protos.Prelude.{◌+◌, ◌%◌, ◌^◌, ◌≡◌, List, [], ◌∷◌, some, arith}
use smtp_protos.Monitor.Wire.{little}
use smtp_protos.Monitor.Client.{prepare_buffer}
use smtp_protos.Monitor.Counters.{
  Event, opened, closed, sent, notify_all, notify_all_lem, opens, closes, bytes,
}
use smtp_protos.Prelude.{pos, refl, true, false, replicate, filled, codes, ℕ}
use smtp_protos.CString.{strcmp_eq}
use smtp_protos.Monitor.Wire.{htons, ntohs, be_64}
use smtp_protos.Monitor.Client.{transferred}
use smtp_protos.Monitor.Exchange.{Address, af_inet, Env, sock_addrs_equal, usage, answered, main}
use smtp_protos.Monitor.Shown.{exchange_shows, word_of, bytes_sent}
use smtp_protos.Monitor.{
  Collected, handle_udp_packet, parse_monitor_message, is_valid_command, process_valid_command,
}

abbrev counters : Collected
counters = record { sent_bytes = 4294967297; curr_connections = 3; total_connections = 258 }

abbrev life : List Event
life = opened ∷ sent 12 ∷ opened ∷ closed ∷ sent 30 ∷ closed ∷ opened ∷ []

notify_all_lem_example :
    ((notify_all life counters).total_connections % 2 ^ 32
      ≡ (counters.total_connections + opens life) % 2 ^ 32)
    × (((notify_all life counters).curr_connections + closes life) % 2 ^ 32
        ≡ (counters.curr_connections + opens life) % 2 ^ 32)
    × ((notify_all life counters).sent_bytes % 2 ^ 64 ≡ (counters.sent_bytes + bytes life) % 2 ^ 64)
notify_all_lem_example = notify_all_lem life counters

-- The service answers BYTES; nothing else answers.
abbrev reply : List ℕ
reply = 254 ∷ 255 ∷ 0 ∷ 0 ∷ 0 ∷ 0 ∷ 0 ∷ 0 ∷ 0 ∷ 1 ∷ 0 ∷ 0 ∷ 0 ∷ 1 ∷ replicate 8 0

abbrev home : Address
home = af_inet 2130706433 2526

abbrev env : Env
env = record {
  getaddrinfo = λ host port. some home;
  created = pos 3;
  sent = pos 14;
  received = some (reply, home);
  unset = replicate 15 7;
}

reply_lem : handle_udp_packet little counters (some (prepare_buffer little 0 2)) ≡ some reply
unfolding handle_udp_packet parse_monitor_message prepare_buffer htons ntohs is_valid_command
    process_valid_command be_64 filled replicate
reply_lem = refl

same_source : sock_addrs_equal (some home) (some home) ≡ true
unfolding sock_addrs_equal
same_source = refl

exchange_shows_example :
    main little env (codes "-" ∷ codes "-" ∷ word_of bytes_sent ∷ [])
    ≡ some (answered home (prepare_buffer little 0 2) false false false (transferred 4294967297))
exchange_shows_example =
    exchange_shows little env counters bytes_sent (codes "-") (codes "-") home home 14 reply
      (omega arith) (omega arith) (omega arith) refl refl reply_lem refl same_source

help : main little env (codes "-" ∷ codes "-" ∷ codes "-h" ∷ []) ≡ some usage
unfolding main strcmp_eq
help = refl
