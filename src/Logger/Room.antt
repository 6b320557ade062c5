-- ===== src/Logger/Room.antt =====
-- src/lib/logger.c: make_buffer_space. The buffer stays within its limits and keeps what waits in it.
use smtp_protos.Prelude.{
  ℕ, ◌+◌, ◌≤◌, ◌<◌, ◌≡◌, ◌≢◌, List, ◌++◌, Option, none, some, arith, length, ltb, leb, length-take,
  Returns, take, drop, Bool-cases, Option-cases, inl, inr, refl, length-append, sym,
}
use smtp_protos.Prelude.{Within, length-drop, take-append_length}
use smtp_protos.Logger.{
  Logger, log_min_buffer_size, log_max_buffer_size, put_front, bytes_at, compact, grown_capacity,
  grow, make_buffer_space,
}

-- malloc gives NULL or as much memory as was asked for.
abbrev pub GivesSize : (ℕ → Option (List ℕ)) → Type 0
GivesSize malloc = (n : ℕ) (m : List ℕ) → malloc n ≡ some m → length m ≡ n

put_front_lem :
    (bytes a : List ℕ)
    → length bytes ≤ length a
    → put_front bytes a ≡ some (bytes ++ drop (length bytes) a)
put_front_lem bytes a h = ground arith

front-length :
    (bytes a : List ℕ)
    → length bytes ≤ length a
    → length (bytes ++ drop (length bytes) a) ≡ length a
front-length bytes a h =
    omega (arith, length-append bytes (drop (length bytes) a), length-drop (length bytes) a)

module _ {H D : Type 0} where
  -- The bytes that wait.
  unfoldable pub pending : Logger H D → List ℕ
  pending l = take l.buffer_length (drop l.buffer_start l.buffer)

  pub record IsValid (l : Logger H D) : Type 0 where
    pub sized : length l.buffer ≡ l.buffer_capacity
    pub at_least : log_min_buffer_size ≤ l.buffer_capacity
    pub at_most : l.buffer_capacity ≤ log_max_buffer_size
    pub room : l.buffer_start + l.buffer_length < l.buffer_capacity

  -- Only the place of the bytes in the memory has changed.
  pub record Moved (l l' : Logger H D) : Type 0 where
    pub valid : IsValid l'
    pub queue : pending l' ≡ pending l
    pub same : l' ≡ (record l {
      buffer = l'.buffer;
      buffer_start = l'.buffer_start;
      buffer_capacity = l'.buffer_capacity;
    })

  pub length-pending :
      (l : Logger H D)
      → l.buffer_start + l.buffer_length ≤ length l.buffer
      → length (pending l) ≡ l.buffer_length
  unfolding pending
  length-pending l h = omega (
    arith,
    length-take l.buffer_length (drop l.buffer_start l.buffer),
    length-drop l.buffer_start l.buffer,
  )

  pub bytes_at_start :
      (l : Logger H D)
      → l.buffer_start + l.buffer_length ≤ length l.buffer
      → bytes_at l.buffer_start l ≡ some (pending l)
  unfolding pending
  bytes_at_start l h = ground arith

  -- The bytes at the front of an array `a` that holds them and is not too large.
  abbrev front : ℕ → List ℕ → Logger H D → Logger H D
  front size a l = record l {
    buffer = pending l ++ drop (length (pending l)) a;
    buffer_start = 0;
    buffer_capacity = size;
  }

  front-Moved :
      (size : ℕ) (a : List ℕ) (l : Logger H D)
      → IsValid l
      → length a ≡ size
      → l.buffer_length < size
      → log_min_buffer_size ≤ size
      → size ≤ log_max_buffer_size
      → Moved l (front size a l)
  front-Moved size a l v e h k m =
      let n = length-pending l (omega arith) in
      let q = front-length (pending l) a (omega arith) in
      record {
        valid = record {
          sized = omega (arith, q, e);
          at_least = k;
          at_most = m;
          room = omega arith;
        };
        queue =
            unfold pending in
            take-append_length (pending l) (drop (length (pending l)) a) l.buffer_length (sym n);
        same = refl;
      }

  compact-Moved : (l : Logger H D) → IsValid l → Returns (compact l) (Moved l)
  unfolding compact
  compact-Moved l v =
      let n = length-pending l (omega arith) in
      rw (bytes_at_start l (omega arith)) (
        rw (put_front_lem (pending l) l.buffer (omega arith))
          (front-Moved l.buffer_capacity l.buffer l v v.sized (omega arith) v.at_least v.at_most))

  -- The next buffer is within the limits and larger than what waits; it is large enough, unless that
  -- is more than the largest buffer has.
  grown_capacity_bounds :
      (len : ℕ) (l : Logger H D)
      → l.buffer_length < log_max_buffer_size
      → 0 < len
      → (log_min_buffer_size ≤ grown_capacity len l)
        × (grown_capacity len l ≤ log_max_buffer_size)
        × (l.buffer_length < grown_capacity len l)
        × (l.buffer_length + len ≤ log_max_buffer_size
            → l.buffer_length + len ≤ grown_capacity len l)
  unfolding grown_capacity
  grown_capacity_bounds len l h k = (ground arith, ground arith, ground arith, λ e. ground arith)

  module _ (malloc : ℕ → Option (List ℕ)) (gives : GivesSize malloc) (len : ℕ)
      (some_room : 0 < len) where
    grow-Moved : (l : Logger H D) → IsValid l → Returns (grow malloc len l) (Moved l)
    unfolding grow
    grow-Moved l v = elim (Option-cases (malloc (grown_capacity len l))) [
      | inl e ↦ rw (grow, e) (compact-Moved l v)
      | inr (fresh, e) ↦
          let n = length-pending l (omega arith) in
          let z = gives (grown_capacity len l) fresh e in
          let b = grown_capacity_bounds len l (omega arith) some_room in
          rw (grow, e)
            (rw (bytes_at_start l (omega arith)) (
              rw (put_front_lem (pending l) fresh (omega arith))
                (front-Moved (grown_capacity len l) fresh l v z b.2 b.0 b.1)))
    ]

    pub make_buffer_space-Moved :
        (l : Logger H D) → IsValid l → Returns (make_buffer_space malloc len l) (Moved l)
    unfolding make_buffer_space
    make_buffer_space-Moved l v =
        elim (Bool-cases (ltb l.buffer_capacity (l.buffer_length + l.buffer_start + len))) [
          | inr e ↦ rw e (record { valid = v; queue = refl; same = refl })
          | inl e ↦ rw e (elim (Bool-cases (leb l.buffer_capacity len)) [
            | inl f ↦ rw f (compact-Moved l v)
            | inr f ↦ rw f (elim (Bool-cases (ltb l.buffer_capacity log_max_buffer_size)) [
              | inl g ↦ rw g (grow-Moved l v)
              | inr g ↦ rw g (record { valid = v; queue = refl; same = refl })
            ])
          ])
        ]

    grow-Ready :
        (l : Logger H D)
        → IsValid l
        → malloc (grown_capacity len l) ≢ none
        → l.buffer_length + len ≤ log_max_buffer_size
        → Within
            (grow malloc len l)
            (λ l'. l'.buffer_start + l'.buffer_length + len ≤ l'.buffer_capacity)
    unfolding grow
    grow-Ready l v has h = elim (Option-cases (malloc (grown_capacity len l))) [
      | inl e ↦ absurd (has e)
      | inr (fresh, e) ↦
          let n = length-pending l (omega arith) in
          let z = gives (grown_capacity len l) fresh e in
          let b = grown_capacity_bounds len l (omega arith) some_room in
          rw (grow, e)
            (rw (bytes_at_start l (omega arith))
              (rw (put_front_lem (pending l) fresh (omega arith)) (let r = b.3 h in omega arith)))
    ]

    -- With memory, and unless the buffer is, or would be, larger than the largest, `len` bytes can
    -- follow.
    pub make_buffer_space_room :
        (l : Logger H D)
        → IsValid l
        → ((n : ℕ) → malloc n ≢ none)
        → len < log_min_buffer_size
        → l.buffer_capacity < log_max_buffer_size
        → l.buffer_length + len ≤ log_max_buffer_size
        → Within
            (make_buffer_space malloc len l)
            (λ l'. l'.buffer_start + l'.buffer_length + len ≤ l'.buffer_capacity)
    unfolding make_buffer_space
    make_buffer_space_room l v has h k m =
        elim (Bool-cases (ltb l.buffer_capacity (l.buffer_length + l.buffer_start + len))) [
          | inr e ↦ rw e (ground arith)
          | inl e ↦ rw e (elim (Bool-cases (leb l.buffer_capacity len)) [
            | inl f ↦ absurd (ground arith)
            | inr f ↦ rw f (elim (Bool-cases (ltb l.buffer_capacity log_max_buffer_size)) [
              | inl g ↦ rw g (grow-Ready l v (has _) m)
              | inr g ↦ absurd (ground arith)
            ])
          ])
        ]
