-- ===== src/Monitor/Exchange.antt =====
-- monitor_client/client_monitor.c: main and what it calls. An `Env` is what the calls on the network
-- answer. What is written by perror is left out but for the three warnings on what was sent and received.
use smtp_protos.Prelude.{
  ℕ, suc, ◌+◌, ◌%◌, ◌^◌, List, [], ◌∷◌, ◌++◌, Option, none, some, length, Bool, true, false, ltb,
  ◌==◌, ◌&&◌, not, get_or, take, drop, if◌then◌else◌, codes, ℤ, pos, negsuc,
}
use smtp_protos.CString.{strcmp_eq}
use smtp_protos.Monitor.Wire.{Endian}
use smtp_protos.Monitor.Client.{
  request_size, prepare_buffer, Printed, print_bytes_recieved, commands_str,
}

-- A struct sockaddr by its family: the address and the port, or the family alone.
pub data Address : Type 0 where
  af_inet : ℕ → ℕ → Address
  af_inet6 : List ℕ → ℕ → Address
  other_family : ℕ → Address

-- memcmp of equally long arrays.
unfoldable pub memcmp_eq : List ℕ → List ℕ → Bool
memcmp_eq [] [] = true
memcmp_eq (x ∷ xs) (y ∷ ys) = x == y && memcmp_eq xs ys
memcmp_eq _ _ = false

-- Pointers may be NULL. Other families are never equal.
unfoldable pub sock_addrs_equal : Option Address → Option Address → Bool
unfolding memcmp_eq
sock_addrs_equal none none = true
sock_addrs_equal none (some b) = false
sock_addrs_equal (some a) none = false
sock_addrs_equal (some (af_inet a p)) (some (af_inet b q)) = a == b && p == q
sock_addrs_equal (some (af_inet6 a p)) (some (af_inet6 b q)) = memcmp_eq a b && p == q
sock_addrs_equal (some _) (some _) = false

-- The loop of command_exists: the place of the first of the words that is the command.
unfoldable pub find_command : List ℕ → List (List ℕ) → ℕ → Option ℕ
find_command command [] i = none
find_command command (word ∷ words) i =
    if strcmp_eq command word then some i else find_command command words (suc i)

unfoldable pub command_exists : List ℕ → Option ℕ
unfolding find_command
command_exists command = find_command command commands_str 0

unfoldable pub args_quantity_ok : ℤ → ℕ → Bool
args_quantity_ok (negsuc _) argc = false
args_quantity_ok (pos _) argc = ltb 1 argc

-- The identifier, and the next one, of 16 bits.
unfoldable pub request_id_generator : ℕ → ℕ × ℕ
request_id_generator request_id = (request_id, (request_id + 1) % 2 ^ 16)

-- getaddrinfo gives a first address, or fails; `created` is the descriptor of socket(2).
unfoldable pub udp_client_socket :
    (getaddrinfo : List ℕ → List ℕ → Option Address) (created : ℤ)
    → List ℕ
    → List ℕ
    → ℤ × Option Address
udp_client_socket getaddrinfo created host service = elim (getaddrinfo host service) [
  | none ↦ (negsuc 0, none)
  | some serv_addr ↦ (created, some serv_addr)
]

-- `sent` is what sendto answers; `received` is the datagram that comes within five seconds, and its
-- source; `unset` is what `rec_buffer` holds before.
pub record Env : Type 0 where
  pub getaddrinfo : List ℕ → List ℕ → Option Address
  pub created : ℤ
  pub sent : ℤ
  pub received : Option (List ℕ × Address)
  pub unset : List ℕ

-- How the program ends: `sent_to` is the receiver of the datagram, which follows, and then the warnings
-- that were printed.
pub data Outcome : Type 0 where
  usage not_a_command few_arguments send_failed : Outcome
  no_answer : (sent_to : Address) → List ℕ → (unexpected_sent : Bool) → Outcome
  answered :
      (sent_to : Address)
      → List ℕ
      → (unexpected_sent unexpected_size unknown_source : Bool) → Printed
      → Outcome

unfoldable pub exit_status : Outcome → ℤ
exit_status usage = pos 0
exit_status not_a_command = negsuc 0
exit_status few_arguments = negsuc 0
exit_status send_failed = negsuc 0
exit_status (no_answer _ _ _) = pos 0
exit_status (answered _ _ _ _ _ _) = pos 0

-- '-' at the front stands for the default.
abbrev pub or_default : List ℕ → List ℕ → List ℕ
or_default default given = if get_or given 0 0 == b'-' then default else given

-- What recvfrom and the NUL behind the bytes leave of rec_buffer.
unfoldable pub rec_buffer : List ℕ → List ℕ → List ℕ
rec_buffer unset datagram =
    let got = take request_size datagram in got ++ (0 ∷ drop (length got + 1) unset)

module _ (e : Endian) (env : Env) where
  -- From the request on; without an address the pointer to it was never set.
  unfoldable pub exchange : (request : List ℕ) (command : ℕ) → Option Address → Option Outcome
  exchange request command none = none
  exchange request command (some serv_addr) = elim (env.sent) [
    | negsuc _ ↦ some send_failed
    | pos num_bytes ↦ elim (env.received) [
      | none ↦ some (no_answer serv_addr request (not (num_bytes == request_size)))
      | some (datagram, from) ↦ some (
          answered serv_addr request (not (num_bytes == request_size))
            (not (length (take request_size datagram) == request_size))
            (not (sock_addrs_equal (some serv_addr) (some from)))
            (print_bytes_recieved (rec_buffer env.unset datagram) command))
    ]
  ]

  -- The arguments without the program's name.
  unfoldable pub main : List (List ℕ) → Option Outcome
  main (host ∷ port ∷ command ∷ others) =
      if strcmp_eq (codes "-h") command then some usage else elim (command_exists command) [
        | none ↦ some not_a_command
        | some command_reference ↦
            if args_quantity_ok (pos command_reference) (4 + length others)
            then exchange (prepare_buffer e (request_id_generator 0).0 command_reference)
                command_reference
                (udp_client_socket env.getaddrinfo env.created (or_default (codes "127.0.0.1") host)
                  (or_default (codes "2526") port)).1
            else some few_arguments
      ]
  main _ = some usage
