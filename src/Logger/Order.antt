-- ===== src/Logger/Order.antt =====
-- src/lib/logger.c: the macro logf. What the file has taken, and then what waits, are the lines in
-- their order.
use smtp_protos.Prelude.{
  ℕ, ◌+◌, ◌-◌, ◌%◌, ◌^◌, ◌≤◌, ◌<◌, ◌≡◌, ◌≢◌, List, ◌++◌, Option, none, some, arith, length, true,
  false, ltb, leb, ◌==◌, length-take, Returns, Returns-some, take, drop, if◌then◌else◌, Bool-cases,
  inl, inr, refl, Returns-bind, Returns-mono, ap, sym, ◌∙◌, append-nil, append_assoc, ℤ, pos,
}
use smtp_protos.Prelude.{take-whole}
use smtp_protos.CString.{strlen}
use smtp_protos.Logger.{
  make_buffer_space, Logger, log_max_buffer_size, log_buffer_max_print_length, is_open,
  try_flush_buffer_to_file,
}
use smtp_protos.Logger.Print.{
  print_to_stream, print_line, log_line, logger_post_print, logger_pre_print, logger_is_enabled_for,
  logf,
}
use smtp_protos.Logger.Room.{
  IsValid, Moved, GivesSize, pending, make_buffer_space-Moved, make_buffer_space_room,
}
use smtp_protos.Logger.Flush.{InSync, TakesWithin, Flushed, wanted, try_flush_lem}
use smtp_protos.Logger.Line.{
  room_lem, printed, strcpy_lem, length-printed, pending-printed, pending-not_counted,
  printed_string,
}

-- What is counted of a line of `written` bytes is what snprintf has printed of it.
counted :
    (maxlen : ℕ) (line : List ℕ)
    → 0 < maxlen
    → maxlen ≤ log_max_buffer_size
    → (if leb maxlen (length line) then (maxlen + 2 ^ 64 - 1) % 2 ^ 64 else length line)
      ≡ length (take (maxlen - 1) line)
counted maxlen line h k = ground (arith, length-take (maxlen - 1) line)

module _ {H D : Type 0} where
  -- The room for a line.
  abbrev pub room_of : Logger H D → ℕ
  room_of l = l.buffer_capacity - (l.buffer_length + l.buffer_start)

  fitting :
      (l : Logger H D) (line : List ℕ)
      → IsValid l
      → l.buffer_start + l.buffer_length + length (take (room_of l - 1) line) < l.buffer_capacity
  fitting l line v = omega (arith, v.room, length-take (room_of l - 1) line)

  stream_lem :
      (at : ℕ) (l : Logger H D)
      → strlen (drop at l.buffer) < length (drop at l.buffer)
      → Returns (print_to_stream at l) (λ l'. l' ≡ record l { console = l'.console })
  unfolding print_to_stream
  stream_lem at l h = elim (Bool-cases l.log_stream) [
    | inl e ↦
        let t : ltb (strlen (drop at l.buffer)) (length (drop at l.buffer)) ≡ true = ground arith in
        rw e (rw t refl)
    | inr e ↦ rw e refl
  ]

  -- How many bytes of a line are kept for the file.
  abbrev pub kept_of : Logger H D → ℕ
  kept_of l = if is_open l.log_file_fd then room_of l - 1 else 0

  -- After a call that was given a line, `n` bytes of it stand behind what was there.
  abbrev pub Appended : ℕ → List ℕ → Logger H D → Logger H D → Type 0
  Appended n line l l' =
      IsValid l'
      × InSync l'
      × (l'.log_file_fd ≡ l.log_file_fd)
      × (l'.file ++ pending l' ≡ (l.file ++ pending l) ++ take n line)

  module _ (write : ℕ → ℤ) (takes : TakesWithin write) (line : List ℕ) where
    print_line_lem :
        (l : Logger H D) (v : IsValid l)
        → print_line (l.buffer_start + l.buffer_length) (room_of l) line l
          ≡ some (record l { buffer = printed l v (take (room_of l - 1) line) (fitting l line v) })
    unfolding print_line
    print_line_lem l v =
        let some_room : (room_of l == 0) ≡ false = ground (arith, v.room) in
        rw some_room (rw (strcpy_lem l v (take (room_of l - 1) line) (fitting l line v)) refl)

    post_print_lem :
        (l : Logger H D) (v : IsValid l)
        → InSync l
        → Returns
            (logger_post_print write
              (pos (length line))
              (room_of l)
              (record l { buffer = printed l v (take (room_of l - 1) line) (fitting l line v) }))
            (λ r. Appended (kept_of l) line l r.1)
    unfolding logger_post_print
    post_print_lem l v t =
        let k = take (room_of l - 1) line in
        let m = printed l v k (fitting l line v) in
        let at = l.buffer_start + l.buffer_length in
        let fits = fitting l line v in
        let same_length : length m ≡ length l.buffer = length-printed l v k fits in
        let small : (l.buffer_length + length k) % 2 ^ 64 ≡ l.buffer_length + length k =
          omega (arith, fits, v.at_most) in
        let (l₁, e₁, same) =
          Returns-some (λ (l' : Logger H D). l' ≡ record l { buffer = m; console = l'.console })
            (print_to_stream at (record l { buffer = m }))
            (stream_lem at (record l { buffer = m }) (printed_string l v k (fitting l line v))) in
        let counted_in = record l {
          buffer = m;
          buffer_length = l.buffer_length + length k;
          console = l₁.console;
        } in
        let valid : IsValid counted_in = record {
          sized = same_length ∙ v.sized;
          at_least = v.at_least;
          at_most = v.at_most;
          room = omega (arith, fits);
        } in
        let joined : counted_in.file ++ pending counted_in ≡ (l.file ++ pending l) ++ k =
          unfold pending in
          (ap (λ ys. l.file ++ ys) (unfold pending in pending-printed l v k fits)
            ∙ sym (append_assoc l.file (pending l) k)) in
        rw e₁ (
          rw same (
            rw (counted (room_of l) line (omega (arith, v.room)) (omega (arith, v.at_most)))
              (elim (Bool-cases (is_open l.log_file_fd)) [
                | inr e ↦ rw e (
                  record {
                    sized = same_length ∙ v.sized;
                    at_least = v.at_least;
                    at_most = v.at_most;
                    room = v.room;
                  },
                  t,
                  refl,
                  unfold pending in
                      (ap (λ ys. l.file ++ ys) (unfold pending in pending-not_counted l v k fits)
                        ∙ sym (append-nil (l.file ++ pending l))),
                )
                | inl e ↦ rw e (
                    rw small (
                      Returns-bind (Flushed counted_in) (λ r. Appended (room_of l - 1) line l r.1)
                        (try_flush_buffer_to_file write counted_in) (λ l₂. some (pos 0, l₂))
                        (λ l₂ f. (
                          f.valid,
                          f.in_sync,
                          ap (λ (x : Logger H D). x.log_file_fd) f.same,
                          f.order ∙ joined,
                        ))
                        (try_flush_lem write (wanted l.buffer_length) counted_in takes valid t)))
              ])))

  together : (l l₁ : Logger H D) → Moved l l₁ → l₁.file ++ pending l₁ ≡ l.file ++ pending l
  together l l₁ m = rw (m.queue) (ap (λ (x : Logger H D). x.file ++ pending l) m.same)

  module _ (malloc : ℕ → Option (List ℕ)) (gives : GivesSize malloc) (write : ℕ → ℤ)
      (takes : TakesWithin write) (stamp : List ℕ) (level : ℕ) (text : List ℕ) where
    logf_enabled :
        (l : Logger H D)
        → IsValid l
        → InSync l
        → logger_is_enabled_for level l ≡ true
        → (l₁ : Logger H D) × (make_buffer_space malloc log_buffer_max_print_length l ≡ some l₁)
          × Moved l l₁
          × Returns
              (logf malloc write stamp level text l)
              (Appended (kept_of l₁) (log_line stamp level text) l)
    unfolding logf logger_pre_print
    logf_enabled l v t on =
        let line = log_line stamp level text in
        let (l₁, e, m) =
          Returns-some (Moved l) (make_buffer_space malloc log_buffer_max_print_length l)
            (make_buffer_space-Moved malloc gives log_buffer_max_print_length (omega arith) l v) in
        let t₁ : InSync l₁ = rw (ap (λ (x : Logger H D). x.log_file_fd) m.same) (
          rw (ap (λ (x : Logger H D). x.selector) m.same)
            (rw (ap (λ (x : Logger H D). x.buffer_length) m.same) t)) in
        (
          l₁,
          e,
          m,
          rw on (
              rw e (
                rw (room_lem l₁ m.valid) (
                  rw (print_line_lem write takes line l₁ m.valid) (
                    Returns-bind (λ r. Appended (kept_of l₁) line l₁ r.1)
                      (Appended (kept_of l₁) line l) _ (λ r. some r.1)
                      (λ r a. (
                        a.0,
                        a.1,
                        a.2 ∙ ap (λ (x : Logger H D). x.log_file_fd) m.same,
                        a.3 ∙ ap (λ ys. ys ++ take (kept_of l₁) line) (together l l₁ m),
                      ))
                      (post_print_lem write takes line l₁ m.valid t₁))))),
        )

    -- Whether or not it is enabled, logf returns, and puts a front part of its line behind what was
    -- there.
    pub logf_lem :
        (l : Logger H D)
        → IsValid l
        → InSync l
        → Returns
            (logf malloc write stamp level text l)
            (λ l'. (n : ℕ) × Appended n (log_line stamp level text) l l')
    unfolding logf
    logf_lem l v t = elim (Bool-cases (logger_is_enabled_for level l)) [
      | inl e ↦
          let (l₁, _, _, r) = logf_enabled l v t e in
          Returns-mono (Appended (kept_of l₁) (log_line stamp level text) l) _
            (logf malloc write stamp level text l) (λ l' a. (kept_of l₁, a)) r
      | inr e ↦ rw (logf, e) (0, (v, t, refl, sym (append-nil (l.file ++ pending l))))
    ]

    -- With memory for the buffer, and while the buffer and what waits are not as large as they can be,
    -- a line of less than 512 bytes reaches the file, or waits for it, whole and in its place.
    pub logf_whole :
        (l : Logger H D)
        → IsValid l
        → InSync l
        → logger_is_enabled_for level l ≡ true
        → is_open l.log_file_fd ≡ true
        → ((n : ℕ) → malloc n ≢ none)
        → l.buffer_capacity < log_max_buffer_size
        → l.buffer_length + log_buffer_max_print_length ≤ log_max_buffer_size
        → length (log_line stamp level text) < log_buffer_max_print_length
        → Returns
            (logf malloc write stamp level text l)
            (λ l'. l'.file ++ pending l' ≡ (l.file ++ pending l) ++ log_line stamp level text)
    logf_whole l v t on opened has small space short =
        let line = log_line stamp level text in
        let (l₁, e, m, r) = logf_enabled l v t on in
        let q =
          make_buffer_space_room malloc gives log_buffer_max_print_length (omega arith) l v has
            (omega arith) small space in
        let room : l₁.buffer_start + l₁.buffer_length + log_buffer_max_print_length
            ≤ l₁.buffer_capacity =
          rw e at q in
        let still : is_open l₁.log_file_fd ≡ true =
          ap (λ (x : Logger H D). is_open x.log_file_fd) m.same ∙ opened in
        let all : length line ≤ kept_of l₁ = rw still (omega arith) in
        Returns-mono (Appended (kept_of l₁) line l) _ (logf malloc write stamp level text l)
          (λ l' a. a.3 ∙ ap (λ ys. (l.file ++ pending l) ++ ys) (take-whole line (kept_of l₁) all))
          r
