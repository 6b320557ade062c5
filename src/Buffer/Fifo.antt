-- ===== src/Buffer/Fifo.antt =====
-- A valid buffer is a queue of bytes: what each call does to its contents.
use smtp_protos.Prelude.{
  ℕ, suc, ◌+◌, ◌-◌, ◌≤◌, ◌<◌, ◌≡◌, List, [], ◌∷◌, ◌++◌, some, arith, true, false, dec_lt,
  Returns-some, ◌⊎◌, length, take, drop, get_or, inl, inr, length-append, length-take, length-drop,
  pos, Returns, take-drop-suc, drop-slice, slice-splice, take-append_length,
}
use smtp_protos.Buffer.{
  Buffer, buffer_compact, buffer_read_adv, buffer_read, buffer_can_read, contents, receive,
}
use smtp_protos.Buffer.Inv.{IsValid, compact-IsValid}

-- The byte that `buffer_read` returns from a queue, and the queue that it leaves.
unfoldable pub pop : List ℕ → ℕ × List ℕ
pop [] = (0, [])
pop (x ∷ xs) = (x, xs)

contents_of_read :
    (b : Buffer)
    → IsValid b
    → b.read < b.write
    → contents b ≡ get_or b.mem b.read 0 ∷ take (b.write - (b.read + 1)) (drop (b.read + 1) b.mem)
unfolding contents
contents_of_read b v h =
    let e : b.write - b.read ≡ suc (b.write - (b.read + 1)) = omega arith in
    let f : b.read + 1 ≡ suc b.read = omega arith in
    rw (e, f) (take-drop-suc b.mem b.read (b.write - suc b.read) 0 (omega arith))

contents-compact : (b : Buffer) → IsValid b → contents (buffer_compact b) ≡ contents b
unfolding buffer_compact contents
contents-compact b v = ground (
  arith,
  take-append_length (contents b) (drop (b.write - b.read) b.mem) (b.write - b.read),
  length-take (b.write - b.read) (drop b.read b.mem),
  length-drop b.read b.mem,
)

-- Compaction keeps the contents, and all the room that they leave can be written.
pub compact_room :
    (b : Buffer)
    → IsValid b
    → let c = buffer_compact b in
      (contents c ≡ contents b) × (c.limit - c.write ≡ b.limit - length (contents b)) × IsValid c
unfolding buffer_compact contents
compact_room b v = (
  contents-compact b v,
  ground (arith, length-take (b.write - b.read) (drop b.read b.mem), length-drop b.read b.mem),
  compact-IsValid v,
)

-- Advancing the reader by no more than what is there drops that many bytes.
pub read_adv_drops :
    (b : Buffer) (n : ℕ)
    → IsValid b
    → b.read + n ≤ b.write
    → Returns (buffer_read_adv b (pos n)) (λ c. (contents c ≡ drop n (contents b)) × IsValid c)
unfolding buffer_read_adv contents
read_adv_drops b n v h =
    let e = drop-slice b.mem b.read b.write n h in
    let w : IsValid (record b { read = b.read + n }) = omega arith in
    ground (arith, contents-compact (record b { read = b.read + n }) w, compact-IsValid w)

-- On a valid buffer `buffer_read` never fails an assert: it takes the first byte from the contents,
-- or returns 0 where there is none, and keeps the buffer valid.
pub read_pops :
    (b : Buffer)
    → IsValid b
    → Returns (buffer_read b) (λ r. ((r.0, contents r.1) ≡ pop (contents b)) × IsValid r.1)
unfolding buffer_read pop contents
read_pops b v = ground (arith, contents_of_read b v, read_adv_drops b 1 v)

-- What fits is appended by `recv`, and the buffer stays valid.
pub receive_appends :
    (b : Buffer) (bytes : List ℕ)
    → IsValid b
    → b.write + length bytes ≤ b.limit
    → Returns (receive b bytes) (λ c. (contents c ≡ contents b ++ bytes) × IsValid c)
unfolding receive contents
receive_appends b bytes v h = ground (
  arith,
  slice-splice b.mem bytes (drop (b.write + length bytes) b.mem) b.read b.write
      (b.write + length bytes - b.read),
  length-append (take b.write b.mem) (bytes ++ drop (b.write + length bytes) b.mem),
  length-append bytes (drop (b.write + length bytes) b.mem),
  length-take b.write b.mem,
  length-drop (b.write + length bytes) b.mem,
)

read_more :
    (b : Buffer)
    → IsValid b
    → b.read < b.write
    → (c : ℕ) × (b' : Buffer) × (buffer_read b ≡ some (c, b'))
      × (contents b ≡ c ∷ contents b')
      × IsValid b'
unfolding pop
read_more b v h =
    let (r, e, q) = Returns-some _ (buffer_read b) (read_pops b v) in
    (r.0, r.1, e, ground (arith, contents_of_read b v h, q.0), q.1)

contents_empty : (b : Buffer) → b.read ≡ b.write → contents b ≡ []
unfolding contents
contents_empty b h = ground arith

-- Either nothing can be read and the contents are empty, or the next byte comes off the contents.
pub read_cases :
    (b : Buffer)
    → IsValid b
    → ((buffer_can_read b ≡ false) × (contents b ≡ []))
      ⊎ ((c : ℕ) × (b' : Buffer) × (buffer_can_read b ≡ true)
          × (buffer_read b ≡ some (c, b'))
          × (contents b ≡ c ∷ contents b')
          × IsValid b')
unfolding buffer_can_read
read_cases b v = elim (dec_lt b.read b.write) [
  | yes h ↦ let (c, b', e, f, w) = read_more b v h in inr (c, b', ground arith, e, f, w)
  | no h ↦ inl (ground arith, contents_empty b (omega arith))
]

pub length-contents : (b : Buffer) → IsValid b → length (contents b) ≡ b.write - b.read
unfolding contents
length-contents b v =
    omega (arith, length-take (b.write - b.read) (drop b.read b.mem), length-drop b.read b.mem)
