-- ===== src/Netutils.antt =====
-- src/lib/netutils.c: the copies that block. `send` is the result of a call, given how many calls
-- came before and the bytes that it is offered; `errno` is what a failed call sets.
pub mod Progress
pub mod Human
mod Tests
use smtp_protos.Buffer.{Buffer, buffer_read_ptr, buffer_read_adv, buffer_can_read}
use smtp_protos.Prelude.{
  ℕ, zero, suc, ◌+◌, ◌-◌, ◌*◌, ◌/◌, ◌%◌, ◌^◌, ◌≤◌, ◌<◌, ◌≡◌, ◌≢◌, ◌↔◌, ◌⊎◌, List, [], ◌∷◌, ◌++◌,
  Option, none, some, arith, length, set, Bool, true, false, ltb, leb, ◌==◌, ◌&&◌, ◌||◌, not,
  length-set, length-take, Returns, Returns-some, get_or, length-replicate, take, drop,
  if◌then◌else◌, ◌>>=◌, ◌>>◌, Bool-cases, Option-cases, inl, inr, refl, Returns-bind, Returns-mono,
  All, All-mono, filled, replicate, length-filled, set-filled, set-filled_end, set-replicate,
  length-append, ap, sym, ◌∙◌, append-nil, append_assoc, store, codes, ℤ, pos, negsuc, map, assert,
  dec_lt, ℕ_discrete,
}

-- How many bytes a call took, if its result is positive.
abbrev pub count : ℤ → ℕ
count (pos n) = n
count (negsuc n) = 0

module _ (send : ℕ → List ℕ → ℤ) (errno : ℤ) where
  -- The loop of sock_blocking_write; the third part is all that was sent.
  unfoldable pub write_loop : ℕ → ℕ → Buffer → List ℕ → Option (ℤ × Buffer × List ℕ)
  write_loop zero k b out = none
  write_loop (suc fuel) k b out = do
    (at, n) ← buffer_read_ptr b
    let bytes = take n (drop at b.mem)
    let nwritten = count (send k bytes)
    if nwritten == 0 then some (errno, b, out) else (do
      b' ← buffer_read_adv b (pos nwritten)
      let rest = write_loop fuel (suc k) b' (out ++ take nwritten bytes)
      if buffer_can_read b' then rest else some (pos 0, b', out ++ take nwritten bytes))

  unfoldable pub sock_blocking_write : Buffer → Option (ℤ × Buffer × List ℕ)
  unfolding write_loop
  sock_blocking_write b = write_loop (suc (b.write - b.read)) 0 b []

  -- The inner loop of sock_blocking_copy: whether it went well, the calls made, and what was sent.
  unfoldable pub send_all : ℕ → ℕ → List ℕ → List ℕ → Option (Bool × ℕ × List ℕ)
  send_all zero k bytes out = none
  send_all (suc fuel) k bytes out =
      let nwritten = count (send k bytes) in
      let rest = send_all fuel (suc k) (drop nwritten bytes) (out ++ take nwritten bytes) in
      if nwritten == 0
      then some (false, suc k, out)
      else if ltb 0 (length bytes - nwritten)
      then rest
      else some (true, suc k, out ++ take nwritten bytes)

  -- `received` is what the calls of recv give before one gives nothing.
  unfoldable pub copy_loop : List (List ℕ) → ℕ → List ℕ → Option (ℤ × List ℕ)
  unfolding send_all
  copy_loop [] k out = some (pos 0, out)
  copy_loop (bytes ∷ received) k out = do
    (well, k', out') ← send_all (suc (length bytes)) k bytes out
    if well then copy_loop received k' out' else some (errno, out')

  unfoldable pub sock_blocking_copy : List (List ℕ) → Option (ℤ × List ℕ)
  unfolding copy_loop
  sock_blocking_copy received = copy_loop received 0 []
