-- ===== src/Monitor/Wire.antt =====
-- Numbers as bytes, for src/lib/monitor.c and monitor_client/client_monitor.c.
use smtp_protos.Prelude.{ℕ, ◌+◌, ◌*◌, ◌/◌, ◌%◌, ◌^◌, List, [], ◌∷◌, get_or}

-- The byte order of a host.
pub data Endian : Type 0 where
  little big : Endian

unfoldable pub swap_16 : ℕ → ℕ
swap_16 v = v % 256 * 256 + v / 256 % 256

-- htons and ntohs swap the bytes on a little-endian host.
unfoldable pub htons : Endian → ℕ → ℕ
unfolding swap_16
htons little v = swap_16 v
htons big v = v

unfoldable pub ntohs : Endian → ℕ → ℕ
unfolding swap_16
ntohs little v = swap_16 v
ntohs big v = v

-- The bytes that memcpy takes from htonl(v), on either kind of host.
unfoldable pub be_32 : ℕ → List ℕ
be_32 v = v / 2 ^ 24 % 256 ∷ v / 2 ^ 16 % 256 ∷ v / 2 ^ 8 % 256 ∷ v % 256 ∷ []

-- The bytes of htobe64(v), the function of these programs.
unfoldable pub be_64 : ℕ → List ℕ
be_64 v =
    v / 2 ^ 56 % 256
    ∷ v / 2 ^ 48 % 256
    ∷ v / 2 ^ 40 % 256
    ∷ v / 2 ^ 32 % 256
    ∷ v / 2 ^ 24 % 256
    ∷ v / 2 ^ 16 % 256
    ∷ v / 2 ^ 8 % 256
    ∷ v % 256
    ∷ []

-- ntohl of the four bytes from `at` on.
unfoldable pub read_32 : List ℕ → ℕ → ℕ
read_32 b at =
    get_or b at 0 * 2 ^ 24
    + get_or b (at + 1) 0 * 2 ^ 16
    + get_or b (at + 2) 0 * 2 ^ 8
    + get_or b (at + 3) 0

-- be64toh of the eight bytes from `at` on.
unfoldable pub read_64 : List ℕ → ℕ → ℕ
read_64 b at =
    get_or b at 0 * 2 ^ 56
    + get_or b (at + 1) 0 * 2 ^ 48
    + get_or b (at + 2) 0 * 2 ^ 40
    + get_or b (at + 3) 0 * 2 ^ 32
    + get_or b (at + 4) 0 * 2 ^ 24
    + get_or b (at + 5) 0 * 2 ^ 16
    + get_or b (at + 6) 0 * 2 ^ 8
    + get_or b (at + 7) 0
