-- ===== src/Monitor.antt =====
-- src/lib/monitor.c: the statistics of the server, and the UDP service that reports them.
-- Bytes are numbers below 256. The host's byte order is a parameter, since the code applies ntohs
-- to values that it has already put together.
pub mod Wire
pub mod Client
pub mod Counters
pub mod Service
pub mod Exchange
pub mod Shown
mod Tests
use smtp_protos.Prelude.{
  ℕ, zero, suc, ◌+◌, ◌-◌, ◌*◌, ◌/◌, ◌%◌, ◌^◌, ◌≤◌, ◌<◌, ◌≡◌, ◌≢◌, ◌↔◌, ◌⊎◌, List, [], ◌∷◌, ◌++◌,
  Option, none, some, arith, length, set, Bool, true, false, ltb, leb, ◌==◌, ◌&&◌, ◌||◌, not,
  length-set, Returns, Returns-some, get_or, length-replicate, take, drop, if◌then◌else◌, ◌>>=◌,
  ◌>>◌, Bool-cases, Option-cases, inl, inr, refl, Returns-bind, Returns-mono, All, All-mono, filled,
  replicate, length-filled, set-filled, set-filled_end, set-replicate, length-append, ap, sym, ◌∙◌,
  append-nil, append_assoc, store, codes, ℤ, pos, negsuc, map, assert, dec_lt, ℕ_discrete,
}
use Wire.{Endian, little, big, ntohs, htons, be_32, be_64}

-- monitor_collection_data_t
pub record Collected : Type 0 where
  pub sent_bytes : ℕ
  pub curr_connections : ℕ
  pub total_connections : ℕ

-- enum status
pub data Status : Type 0 where
  success inv_vers auth_fail inv_cmd inv_req_len unexpected signature_err : Status

-- The place of a status in the enum.
abbrev pub code_of : Status → ℕ
code_of success = 0
code_of inv_vers = 1
code_of auth_fail = 2
code_of inv_cmd = 3
code_of inv_req_len = 4
code_of unexpected = 5
code_of signature_err = 6

abbrev pub signature : ℕ
signature = 0xfffe

abbrev pub version : ℕ
version = 0

abbrev pub token : ℕ
token = 0xffe91a2b3c4d5e6f

abbrev pub buffer_size : ℕ
buffer_size = 22

unfoldable pub is_valid_command : ℕ → Bool
is_valid_command command = leb command 5

-- What a message that is not accepted leaves in `*status`, or what one that is leaves in
-- `*data_command`, `*data_request_id` and the first six bytes of the response.
pub data Parsed : Type 0 where
  rejected : Status → Parsed
  accepted : (command request_id : ℕ) (header : List ℕ) → Parsed

-- The eight bytes from the fifth on, most significant first.
unfoldable pub token_of : List ℕ → ℕ
token_of b =
    get_or b 5 0 * 2 ^ 56
    + get_or b 6 0 * 2 ^ 48
    + get_or b 7 0 * 2 ^ 40
    + get_or b 8 0 * 2 ^ 32
    + get_or b 9 0 * 2 ^ 24
    + get_or b 10 0 * 2 ^ 16
    + get_or b 11 0 * 2 ^ 8
    + get_or b 12 0

module _ (e : Endian) where
  -- `buffer` is the datagram, `n` its length; `status` is what the caller put in `*status`.
  unfoldable pub parse_monitor_message : List ℕ → ℕ → Status → Parsed
  unfolding token_of is_valid_command
  parse_monitor_message buffer n status =
      if ltb n 14
      then rejected status
      else if not (ntohs e (get_or buffer 0 0 * 256 + get_or buffer 1 0) == signature)
      then rejected status
      else if not (get_or buffer 2 0 == version)
      then rejected inv_vers
      else if not (token_of buffer == token)
      then rejected auth_fail
      else if not (is_valid_command (get_or buffer 13 0))
      then rejected inv_cmd
      else if not (n == 14)
      then rejected inv_req_len
      else accepted (get_or buffer 13 0) (ntohs e (get_or buffer 3 0 * 256 + get_or buffer 4 0)) (
          htons e signature / 256
          ∷ htons e signature % 256
          ∷ version
          ∷ get_or buffer 3 0
          ∷ get_or buffer 4 0
          ∷ code_of success
          ∷ [])

  -- The bytes that a command writes from the sixth of the response on.
  unfoldable pub process_valid_command : Collected → ℕ → List ℕ
  process_valid_command c command =
      if command == 0
      then be_32 c.total_connections
      else if command == 1
      then be_32 c.curr_connections
      else if command == 2
      then be_64 c.sent_bytes
      else if command == 3
      then 3 ∷ []
      else if command == 4
      then 4 ∷ []
      else if command == 5
      then 5 ∷ []
      else []

  -- The datagram sent back, if any. `none` is a failed recvfrom; a datagram is cut to the buffer.
  unfoldable pub handle_udp_packet : Collected → Option (List ℕ) → Option (List ℕ)
  handle_udp_packet c none = none
  handle_udp_packet c (some datagram) =
      let received = take buffer_size datagram in
      elim (parse_monitor_message received (length received) signature_err) [
        | accepted command _ header ↦
            some (filled buffer_size 0 (header ++ process_valid_command c command))
        | rejected status ↦
            if ltb (code_of status) (code_of signature_err)
            then some (filled buffer_size 0 (0 ∷ 0 ∷ 0 ∷ 0 ∷ 0 ∷ code_of status ∷ []))
            else none
      ]

unfoldable pub monitor_add_connection : Collected → Collected
monitor_add_connection c = record c {
  curr_connections = (c.curr_connections + 1) % 2 ^ 32;
  total_connections = (c.total_connections + 1) % 2 ^ 32;
}

unfoldable pub monitor_close_connection : Collected → Collected
monitor_close_connection c = record c {
  curr_connections = (c.curr_connections + 2 ^ 32 - 1) % 2 ^ 32;
}

-- `bytes` is an unsigned long.
unfoldable pub monitor_add_sent_bytes : ℕ → Collected → Collected
monitor_add_sent_bytes bytes c = record c { sent_bytes = (c.sent_bytes + bytes) % 2 ^ 64 }
