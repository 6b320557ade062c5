-- ===== src/Logger/Line.antt =====
-- src/lib/logger.c: a line that is printed into the buffer behind the bytes that wait.
use smtp_protos.Prelude.{
  ℕ, ◌+◌, ◌-◌, ◌%◌, ◌^◌, ◌<◌, ◌≡◌, List, [], ◌∷◌, ◌++◌, some, arith, length, length-take, take,
  drop, refl, length-append, ap, ◌∙◌, append-nil, append_assoc,
}
use smtp_protos.Prelude.{length-drop, slice-splice, drop-append_length}
use smtp_protos.CString.{strcpy, strlen, c_str}
use smtp_protos.Logger.{Logger}
use smtp_protos.Logger.Print.{logger_get_buf_start_and_max_length}
use smtp_protos.Logger.Room.{IsValid, pending}

strlen_before : (k rest : List ℕ) → strlen (k ++ 0 ∷ rest) < length (k ++ 0 ∷ rest)
unfolding strlen c_str
strlen_before [] rest = omega arith
strlen_before (c ∷ k) rest = ground (arith, strlen_before k rest)

module _ {H D : Type 0} (l : Logger H D) (v : IsValid l) where
  pub room_lem :
      logger_get_buf_start_and_max_length l
      ≡ (l.buffer_start + l.buffer_length, l.buffer_capacity - (l.buffer_length + l.buffer_start))
  unfolding logger_get_buf_start_and_max_length
  room_lem =
      let e : (l.buffer_capacity + 2 ^ 64 - (l.buffer_length + l.buffer_start)) % 2 ^ 64
          ≡ l.buffer_capacity - (l.buffer_length + l.buffer_start) =
        omega arith in
      rw e refl

  module _ (k : List ℕ)
      (fits : l.buffer_start + l.buffer_length + length k < l.buffer_capacity) where
    -- The memory with `k` and a NUL behind the bytes that wait.
    unfoldable pub printed : List ℕ
    printed =
        take (l.buffer_start + l.buffer_length) l.buffer
        ++ ((k ++ 0 ∷ []) ++ drop (l.buffer_start + l.buffer_length + length k + 1) l.buffer)

    pub strcpy_lem : strcpy l.buffer (l.buffer_start + l.buffer_length) k ≡ some printed
    unfolding strcpy printed
    strcpy_lem = ground arith

    splice_assoc :
        printed
        ≡ take (l.buffer_start + l.buffer_length) l.buffer
          ++ (k ++ 0 ∷ drop (l.buffer_start + l.buffer_length + length k + 1) l.buffer)
    unfolding printed
    splice_assoc =
        ap (λ ys. take (l.buffer_start + l.buffer_length) l.buffer ++ ys)
          (append_assoc k (0 ∷ [])
            (drop (l.buffer_start + l.buffer_length + length k + 1) l.buffer))

    pub length-printed : length printed ≡ length l.buffer
    unfolding printed
    length-printed =
        let at = l.buffer_start + l.buffer_length in
        let rest = drop (at + length k + 1) l.buffer in
        omega (
          arith,
          v.sized,
          length-append (take at l.buffer) ((k ++ 0 ∷ []) ++ rest),
          length-append (k ++ 0 ∷ []) rest,
          length-append k (0 ∷ []),
          length-take at l.buffer,
          length-drop (at + length k + 1) l.buffer,
        )

    -- Counted in, the line stands behind the bytes that wait.
    pub pending-printed :
        pending (record l { buffer = printed; buffer_length = l.buffer_length + length k })
        ≡ pending l ++ k
    unfolding pending
    pending-printed =
        let at = l.buffer_start + l.buffer_length in
        let before : at - l.buffer_start ≡ l.buffer_length = omega arith in
        let e =
          slice-splice l.buffer k (0 ∷ drop (at + length k + 1) l.buffer) l.buffer_start at
            (l.buffer_length + length k) (omega arith) (omega (arith, v.sized, v.room))
            (omega arith) in
        rw splice_assoc (rw before at e)

    -- Not counted in, it does not wait.
    pub pending-not_counted : pending (record l { buffer = printed }) ≡ pending l
    unfolding pending
    pending-not_counted =
        let at = l.buffer_start + l.buffer_length in
        let before : at - l.buffer_start ≡ l.buffer_length = omega arith in
        let e =
          slice-splice l.buffer [] (k ++ 0 ∷ drop (at + length k + 1) l.buffer) l.buffer_start at
            l.buffer_length (omega arith) (omega (arith, v.sized, v.room)) (omega arith) in
        rw splice_assoc
          ((rw before at e) ∙ append-nil (take l.buffer_length (drop l.buffer_start l.buffer)))

    -- The string that is printed to the stream ends within the memory.
    pub printed_string :
        strlen (drop (l.buffer_start + l.buffer_length) printed)
        < length (drop (l.buffer_start + l.buffer_length) printed)
    printed_string =
        let at = l.buffer_start + l.buffer_length in
        let rest = drop (at + length k + 1) l.buffer in
        let e : at ≡ length (take at l.buffer) =
          omega (arith, v.sized, v.room, length-take at l.buffer) in
        rw splice_assoc
          (rw (drop-append_length (take at l.buffer) (k ++ 0 ∷ rest) at e) (strlen_before k rest))
