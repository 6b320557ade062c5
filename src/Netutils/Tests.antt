-- ===== src/Netutils/Tests.antt =====
-- Runs of src/lib/netutils.c.
use smtp_protos.Prelude.{ℕ, ◌≤◌, List, [], ◌∷◌, arith, length, Returns, ℤ, pos, negsuc}
use smtp_protos.Buffer.{Buffer}
use smtp_protos.Buffer.Inv.{IsValid}
use smtp_protos.Prelude.{filled, replicate, ◌>>=◌, some, none, codes, ◌≡◌, refl, Option}
use smtp_protos.CString.{c_str, strlen, strcpy}
use smtp_protos.Netutils.Human.{Peer, sockaddr_to_human, put_address, other, internet}
use smtp_protos.Netutils.{count, sock_blocking_write, sock_blocking_copy}
use smtp_protos.Netutils.Progress.{Wrote, Copied, sock_blocking_write_lem, sock_blocking_copy_lem}

-- Each call takes one byte, if there is one.
abbrev one_byte : ℕ → List ℕ → ℤ
one_byte k [] = pos 0
one_byte k (c ∷ bytes) = pos 1

one_byte_takes : (k : ℕ) (bytes : List ℕ) → count (one_byte k bytes) ≤ length bytes
one_byte_takes k [] = omega arith
one_byte_takes k (c ∷ bytes) = omega arith

abbrev three : Buffer
three = record { mem = 1 ∷ 2 ∷ 3 ∷ 4 ∷ []; limit = 4; read = 1; write = 4 }

three-IsValid : IsValid three
three-IsValid = omega arith

sock_blocking_write_lem_example :
    Returns
      (sock_blocking_write one_byte (negsuc 0) three)
      (Wrote one_byte (negsuc 0) one_byte_takes [] three)
sock_blocking_write_lem_example =
    sock_blocking_write_lem one_byte (negsuc 0) one_byte_takes three three-IsValid

sock_blocking_copy_lem_example :
    Returns
      (sock_blocking_copy one_byte (negsuc 0) ((1 ∷ 2 ∷ []) ∷ (3 ∷ []) ∷ []))
      (Copied one_byte (negsuc 0) one_byte_takes ((1 ∷ 2 ∷ []) ∷ (3 ∷ []) ∷ []) [])
sock_blocking_copy_lem_example =
    sock_blocking_copy_lem one_byte (negsuc 0) one_byte_takes ((1 ∷ 2 ∷ []) ∷ (3 ∷ []) ∷ [])

abbrev a_peer : Peer
a_peer = internet (some (codes "127.0.0.1")) (codes "2525")

-- What is in the array after the call.
abbrev human_in : ℕ → Option Peer → Option (List ℕ)
unfolding sockaddr_to_human put_address c_str strlen strcpy
human_in size addr = do buff ← sockaddr_to_human (filled size 0 []) addr; some (c_str buff)

human_test : human_in 20 (some a_peer) ≡ some (codes "127.0.0.1:2525")
unfolding human_in filled replicate
human_test = refl

-- The port is cut.
human_cut_test : human_in 13 (some a_peer) ≡ some (codes "127.0.0.1:25")
unfolding human_in filled replicate
human_cut_test = refl

-- The address fills the array.
human_fault_test : human_in 10 (some a_peer) ≡ none
unfolding human_in filled replicate
human_fault_test = refl

human_null_test : human_in 20 none ≡ some (codes "null")
unfolding human_in filled replicate
human_null_test = refl

human_other_test : human_in 20 (some other) ≡ some (codes "unknown:")
unfolding human_in filled replicate
human_other_test = refl
