-- ===== src/Monitor/Shown.antt =====
-- monitor_client/client_monitor.c: the client shows what src/lib/monitor.c answers.
use smtp_protos.Prelude.{
  ℕ, zero, suc, ◌+◌, ◌^◌, ◌≤◌, ◌<◌, ◌≡◌, List, [], ◌∷◌, ◌++◌, some, arith, length, true, false,
  length-take, Returns, get_or, take, drop, refl, length-filled, ap, ◌∙◌, codes, pos, not, ◌==◌,
}
use smtp_protos.Prelude.{get_or-append_front}
use smtp_protos.CString.{strcmp_eq}
use smtp_protos.Monitor.Wire.{Endian, read_32, read_64}
use smtp_protos.Monitor.{Collected, handle_udp_packet, buffer_size}
use smtp_protos.Monitor.Client.{
  Printed, historical, simultaneous, transferred, prepare_buffer, print_bytes_recieved,
  commands_str,
}
use smtp_protos.Monitor.Service.{expected, monitor_answers, handle_udp_packet_lem}
use smtp_protos.Monitor.Exchange.{
  Address, sock_addrs_equal, command_exists, args_quantity_ok, request_id_generator,
  udp_client_socket, Env, answered, or_default, rec_buffer, exchange, main,
}

-- A word of the list, of its six.
abbrev word : ℕ → List ℕ
word i = get_or commands_str i []

command_exists-word : (i : ℕ) → i ≤ 5 → command_exists (word i) ≡ some i
unfolding command_exists commands_str strcmp_eq
command_exists-word zero h = refl
command_exists-word (suc zero) h = refl
command_exists-word (suc (suc zero)) h = refl
command_exists-word (suc (suc (suc zero))) h = refl
command_exists-word (suc (suc (suc (suc zero)))) h = refl
command_exists-word (suc (suc (suc (suc (suc zero))))) h = refl
command_exists-word (suc (suc (suc (suc (suc (suc i)))))) h = absurd (omega arith)

no_help : (i : ℕ) → i ≤ 5 → strcmp_eq (codes "-h") (word i) ≡ false
unfolding commands_str strcmp_eq
no_help zero h = refl
no_help (suc zero) h = refl
no_help (suc (suc zero)) h = refl
no_help (suc (suc (suc zero))) h = refl
no_help (suc (suc (suc (suc zero)))) h = refl
no_help (suc (suc (suc (suc (suc zero))))) h = refl
no_help (suc (suc (suc (suc (suc (suc i)))))) h = absurd (omega arith)

read_32-append : (b r : List ℕ) (at : ℕ) → at + 3 < length b → read_32 (b ++ r) at ≡ read_32 b at
unfolding read_32
read_32-append b r at h = omega (
  arith,
  get_or-append_front b r at 0 (omega arith),
  get_or-append_front b r (at + 1) 0 (omega arith),
  get_or-append_front b r (at + 2) 0 (omega arith),
  get_or-append_front b r (at + 3) 0 h,
)

read_64-append : (b r : List ℕ) (at : ℕ) → at + 7 < length b → read_64 (b ++ r) at ≡ read_64 b at
unfolding read_64
read_64-append b r at h = omega (
  arith,
  get_or-append_front b r at 0 (omega arith),
  get_or-append_front b r (at + 1) 0 (omega arith),
  get_or-append_front b r (at + 2) 0 (omega arith),
  get_or-append_front b r (at + 3) 0 (omega arith),
  get_or-append_front b r (at + 4) 0 (omega arith),
  get_or-append_front b r (at + 5) 0 (omega arith),
  get_or-append_front b r (at + 6) 0 (omega arith),
  get_or-append_front b r (at + 7) 0 h,
)

-- What is printed depends on the bytes that came.
print-append :
    (b r : List ℕ) (command : ℕ)
    → length b ≡ 14
    → print_bytes_recieved (b ++ r) command ≡ print_bytes_recieved b command
unfolding print_bytes_recieved
print-append b r command h =
    rw (read_32-append b r 6 (omega arith)) (
      rw (read_64-append b r 6 (omega arith)) (rw (get_or-append_front b r 6 0 (omega arith)) refl))

reply_size :
    (e : Endian) (c : Collected) (i : ℕ)
    → i ≤ 5
    → Returns
        (handle_udp_packet e c (some (prepare_buffer e 0 i)))
        (λ reply. length reply ≡ buffer_size)
reply_size e c i h = rw (handle_udp_packet_lem e c 0 i h) (length-filled buffer_size 0 _)

exchange_lem :
    (e : Endian) (env : Env) (request : List ℕ) (i : ℕ) (serv_addr from : Address) (n : ℕ)
    (reply : List ℕ)
    → env.sent ≡ pos n
    → env.received ≡ some (reply, from)
    → sock_addrs_equal (some serv_addr) (some from) ≡ true
    → length (take 14 reply) ≡ 14
    → exchange e env request i (some serv_addr)
      ≡ some (
          answered serv_addr request
            (not (n == 14))
            false
            false
            (print_bytes_recieved (take 14 reply) i))
unfolding exchange rec_buffer
exchange_lem e env request i serv_addr from n reply sent arrived source size = rw sent (
    rw arrived (
      rw source (
        rw size (
          ap (λ p. some (answered serv_addr request (not (n == 14)) false false p))
            (print-append (take 14 reply) (0 ∷ drop 15 env.unset) i size)))))

-- For each of the six words.
exchange_all :
    (e : Endian) (env : Env) (c : Collected) (i : ℕ) (host port : List ℕ) (serv_addr from : Address)
    (n : ℕ) (reply : List ℕ)
    → i ≤ 5
    → c.total_connections < 2 ^ 32
    → c.curr_connections < 2 ^ 32
    → c.sent_bytes < 2 ^ 64
    → env.getaddrinfo (or_default (codes "127.0.0.1") host) (or_default (codes "2526") port)
      ≡ some serv_addr
    → env.sent ≡ pos n
    → handle_udp_packet e c (some (prepare_buffer e 0 i)) ≡ some reply
    → env.received ≡ some (reply, from)
    → sock_addrs_equal (some serv_addr) (some from) ≡ true
    → main e env (host ∷ port ∷ get_or commands_str i [] ∷ [])
      ≡ some (answered serv_addr (prepare_buffer e 0 i) (not (n == 14)) false false (expected c i))
unfolding main udp_client_socket request_id_generator args_quantity_ok
exchange_all e env c i host port serv_addr from n reply h k l m known sent answer arrived source =
    let shown = monitor_answers e c 0 i h k l m in
    let shown' : print_bytes_recieved (take 14 reply) i ≡ expected c i = rw answer at shown in
    let given = rw answer at (reply_size e c i h) in
    let size : length (take 14 reply) ≡ 14 = omega (arith, length-take 14 reply) in
    let socket : (udp_client_socket env.getaddrinfo env.created
          (or_default (codes "127.0.0.1") host) (or_default (codes "2526") port)).1
        ≡ some serv_addr =
      rw (udp_client_socket, known) refl in
    rw (no_help i h) (
      rw (command_exists-word i h) (
        rw socket (
          exchange_lem e env (prepare_buffer e 0 i) i serv_addr from n reply sent arrived source
            size
          ∙ ap (λ p. some (answered serv_addr (prepare_buffer e 0 i) (not (n == 14)) false false p))
              shown')))

-- The word that asks for a counter, and the counter.
pub data Counter : Type 0 where
  history concurrent bytes_sent : Counter

abbrev pub word_of : Counter → List ℕ
word_of history = codes "HIST"
word_of concurrent = codes "CONC"
word_of bytes_sent = codes "BYTES"

abbrev pub shown_of : Collected → Counter → Printed
shown_of c history = historical c.total_connections
shown_of c concurrent = simultaneous c.curr_connections
shown_of c bytes_sent = transferred c.sent_bytes

abbrev pub command_of : Counter → ℕ
command_of history = 0
command_of concurrent = 1
command_of bytes_sent = 2

-- The client and the service together, for HIST, CONC and BYTES: if sendto takes the datagram, the
-- client's request for that word reaches the service and the service's answer comes back from the
-- address that it was sent to, then the client prints the counter that the word asks for, as the
-- service holds it; it warns only if sendto has answered another number than 14.
pub exchange_shows :
    (e : Endian) (env : Env) (c : Collected) (k : Counter) (host port : List ℕ)
    (serv_addr from : Address) (n : ℕ) (reply : List ℕ)
    → c.total_connections < 2 ^ 32
    → c.curr_connections < 2 ^ 32
    → c.sent_bytes < 2 ^ 64
    → env.getaddrinfo (or_default (codes "127.0.0.1") host) (or_default (codes "2526") port)
      ≡ some serv_addr
    → env.sent ≡ pos n
    → handle_udp_packet e c (some (prepare_buffer e 0 (command_of k))) ≡ some reply
    → env.received ≡ some (reply, from)
    → sock_addrs_equal (some serv_addr) (some from) ≡ true
    → main e env (host ∷ port ∷ word_of k ∷ [])
      ≡ some (
          answered serv_addr
            (prepare_buffer e 0 (command_of k))
            (not (n == 14))
            false
            false
            (shown_of c k))
unfolding commands_str
exchange_shows e env c history =
    λ host port a f n r. exchange_all e env c 0 host port a f n r (omega arith)
exchange_shows e env c concurrent =
    λ host port a f n r. exchange_all e env c 1 host port a f n r (omega arith)
exchange_shows e env c bytes_sent =
    λ host port a f n r. exchange_all e env c 2 host port a f n r (omega arith)
