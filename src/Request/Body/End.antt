-- ===== src/Request/Body/End.antt =====
-- Where the message parser sees the end of a message, and what it has stored then.
use smtp_protos.Prelude.{
  ℕ, zero, suc, ◌+◌, ◌-◌, ◌≤◌, ◌<◌, ◌≡◌, ◌≢◌, ◌⊎◌, List, [], ◌∷◌, ◌++◌, Option, none, some, arith,
  length, set, Bool, true, false, length-set, Returns, get_or, take, ◌>>=◌, Bool-cases, inl, inr,
  refl, All, filled, length-filled, get_or-filled, get_or-append, take-filled, take-set,
  get_or-set_self, get_or-set_ne, set-filled, length-append, ap, sym, ◌∙◌, append-nil, append_assoc,
  ℕ_discrete,
}
use smtp_protos.Buffer.{Buffer, contents}
use smtp_protos.Buffer.Inv
use smtp_protos.Buffer.Fifo.{length-contents}
use smtp_protos.Request.{
  RequestParser, RequestState, request_cr, request_done, request_body, zeroed, data_size,
  request_is_done,
}
use smtp_protos.CString.{c_str, c_str-cut}
use smtp_protos.Request.Loop.{feed_run, view, loop_view}
use smtp_protos.Request.Body.{
  request_parser_data_feed, request_parser_data_init, request_consume_data, has_room, after_dot,
  terminate,
}

-- A parser that has stored the bytes `s` of a message.
in_body : RequestParser → List ℕ → RequestParser
in_body p s = record p {
  request = record zeroed { text = filled data_size 0 s };
  state = request_body;
  i = length s;
}

-- No LF "." CR inside.
abbrev pub NoMark : List ℕ → Type 0
NoMark t = (u w : List ℕ) → t ≢ u ++ (10 ∷ b'.' ∷ 13 ∷ w)

last_two :
    (s : List ℕ) (n : ℕ)
    → length s ≡ suc (suc n)
    → s ≡ take n s ++ (get_or s n 0 ∷ get_or s (suc n) 0 ∷ [])
last_two [] n e = absurd (omega arith)
last_two (x ∷ []) n e = absurd (omega arith)
last_two (x ∷ y ∷ []) zero e = refl
last_two (x ∷ y ∷ []) (suc n) e = absurd (omega arith)
last_two (x ∷ y ∷ z ∷ s) zero e = absurd (omega arith)
last_two (x ∷ y ∷ z ∷ s) (suc n) e = ap (◌∷◌ x) (last_two (y ∷ z ∷ s) n (omega arith))

-- A message that has not been cut holds no end mark.
after_dot-false :
    (p : RequestParser) (s w : List ℕ)
    → length s ≤ data_size - 1
    → NoMark (s ++ (13 ∷ w))
    → after_dot (in_body p s) ≡ false
unfolding after_dot in_body
after_dot-false p s w h nm = elim (Bool-cases (after_dot (in_body p s))) [
  | inr out ↦ out
  | inl mark ↦ absurd (
      nm (take (length s - 2) s) w (
        ap (λ u. u ++ (13 ∷ w)) (ends_in_mark mark)
        ∙ append_assoc (take (length s - 2) s) (10 ∷ b'.' ∷ []) (13 ∷ w)))
]
  where
    ends_in_mark : after_dot (in_body p s) ≡ true → s ≡ take (length s - 2) s ++ (10 ∷ b'.' ∷ [])
    ends_in_mark mark = ground (
      arith,
      last_two s (length s - 2),
      get_or-filled data_size 0 s (length s - 2) 0,
      get_or-filled data_size 0 s (suc (length s - 2)) 0,
    )

store_byte :
    (p : RequestParser) (s : List ℕ) (c : ℕ)
    → length s < data_size - 1
    → (c ≢ 13) ⊎ (after_dot (in_body p s) ≡ false)
    → request_parser_data_feed (in_body p s) c ≡ some (in_body p (s ++ c ∷ []))
unfolding request_parser_data_feed in_body
store_byte p s c h k =
    ground
      (arith, set-filled data_size 0 s c, length-filled data_size 0 s, length-append s (c ∷ []))

feed_text_byte :
    (p : RequestParser) (s w : List ℕ) (c : ℕ)
    → length s < data_size - 1
    → NoMark (s ++ (c ∷ w))
    → request_parser_data_feed (in_body p s) c ≡ some (in_body p (s ++ c ∷ []))
feed_text_byte p s w c h nm = store_byte p s c h (elim (ℕ_discrete c 13) [
  | yes e ↦ inr (after_dot-false p s w (omega arith) (rw e at nm))
  | no n ↦ inl n
])

-- A run over bytes that hold no end mark stores them all.
run_text :
    (p : RequestParser) (s t rest : List ℕ)
    → length s + length t ≤ data_size - 1
    → NoMark (s ++ t)
    → feed_run has_room request_parser_data_feed (in_body p s) request_body (t ++ rest)
      ≡ feed_run has_room request_parser_data_feed (in_body p (s ++ t)) request_body rest
unfolding feed_run request_is_done in_body
run_text p s [] rest h nm = rw (append-nil s)
run_text p s (c ∷ t) rest h nm = ground (
  arith,
  feed_text_byte p s t c (omega arith) nm,
  run_text p (s ++ c ∷ []) t rest (omega (arith, length-append s (c ∷ []))) (rw append_assoc nm),
  append_assoc s (c ∷ []) t,
)

-- The parser once it has met the end of the message `t`.
ended : RequestParser → List ℕ → RequestParser
ended p t = record p {
  request = record zeroed {
    text = set (filled data_size 0 (t ++ (13 ∷ 10 ∷ b'.' ∷ []))) (length t) 0;
  };
  state = request_done;
  i = length t + 3;
}

feed_mark_cr :
    (p : RequestParser) (t : List ℕ)
    → length t + 3 < data_size - 1
    → request_parser_data_feed (in_body p (t ++ (13 ∷ 10 ∷ b'.' ∷ []))) 13
      ≡ some (record (ended p t) { state = request_cr })
unfolding request_parser_data_feed in_body ended after_dot
feed_mark_cr p t h = ground (
  arith,
  length-append t (13 ∷ 10 ∷ b'.' ∷ []),
  length-filled data_size 0 (t ++ (13 ∷ 10 ∷ b'.' ∷ [])),
  stored 1 10 (omega arith) refl,
  stored 2 b'.' (omega arith) refl,
)
  where
    stored :
        (k c : ℕ)
        → k < 3
        → get_or (13 ∷ 10 ∷ b'.' ∷ []) k 0 ≡ c
        → get_or (filled data_size 0 (t ++ (13 ∷ 10 ∷ b'.' ∷ []))) (length t + k) 0 ≡ c
    stored k c small e =
        get_or-filled data_size 0 (t ++ (13 ∷ 10 ∷ b'.' ∷ [])) (length t + k) 0
          (omega (arith, length-append t (13 ∷ 10 ∷ b'.' ∷ [])))
          (omega (arith, length-append t (13 ∷ 10 ∷ b'.' ∷ [])))
        ∙ get_or-append t (13 ∷ 10 ∷ b'.' ∷ []) (length t + k) k 0 refl
        ∙ e

feed_mark_lf :
    (p : RequestParser) (t : List ℕ)
    → request_parser_data_feed (record (ended p t) { state = request_cr }) 10 ≡ some (ended p t)
unfolding request_parser_data_feed ended
feed_mark_lf p t = refl

run_mark :
    (p : RequestParser) (t rest : List ℕ)
    → length t + 3 < data_size - 1
    → feed_run has_room request_parser_data_feed
        (in_body p (t ++ (13 ∷ 10 ∷ b'.' ∷ [])))
        request_body
        (13 ∷ 10 ∷ rest)
      ≡ some (ended p t, request_done, rest)
unfolding feed_run request_is_done in_body ended
run_mark p t rest h =
    ground (arith, feed_mark_cr p t h, feed_mark_lf p t, length-append t (13 ∷ 10 ∷ b'.' ∷ []))

run_message :
    (p : RequestParser) (t rest : List ℕ)
    → length t + 3 < data_size - 1
    → NoMark (t ++ (13 ∷ 10 ∷ b'.' ∷ []))
    → feed_run has_room request_parser_data_feed
        (in_body p [])
        request_body
        (t ++ (13 ∷ 10 ∷ b'.' ∷ 13 ∷ 10 ∷ rest))
      ≡ some (ended p t, request_done, rest)
run_message p t rest h nm =
    ap (feed_run has_room request_parser_data_feed (in_body p []) request_body)
      (sym (append_assoc t (13 ∷ 10 ∷ b'.' ∷ []) (13 ∷ 10 ∷ rest)))
    ∙ run_text p [] (t ++ (13 ∷ 10 ∷ b'.' ∷ [])) (13 ∷ 10 ∷ rest)
        (omega (arith, length-append t (13 ∷ 10 ∷ b'.' ∷ []))) nm
    ∙ run_mark p t rest h

-- What the array holds once its end is closed by a NUL.
abbrev closed : RequestParser → List ℕ → List ℕ
closed p t = set (ended p t).request.text (length t + 3) 0

c_str-closed :
    (p : RequestParser) (t : List ℕ)
    → length t + 3 < data_size - 1
    → All (λ c. c ≢ 0) t
    → c_str (closed p t) ≡ t
unfolding ended
c_str-closed p t h nz =
    c_str-cut (closed p t) t
      (take-set (set array (length t) 0) (length t) (length t + 3) 0 (omega arith)
        ∙ take-set array (length t) (length t) 0 (omega arith)
        ∙ take-filled data_size 0 t (13 ∷ 10 ∷ b'.' ∷ []) (omega arith))
      (get_or-set_ne (set array (length t) 0) 0 0 (omega arith)
        ∙ get_or-set_self array (length t) 0 0
            (omega (arith, length-filled data_size 0 (t ++ (13 ∷ 10 ∷ b'.' ∷ [])))))
      nz
  where
    array : List ℕ
    array = filled data_size 0 (t ++ (13 ∷ 10 ∷ b'.' ∷ []))

init-eq-in_body : (p : RequestParser) → request_parser_data_init p ≡ in_body p []
unfolding request_parser_data_init in_body zeroed filled
init-eq-in_body p = refl

length-ended : (p : RequestParser) (t : List ℕ) → length (ended p t).request.text ≡ data_size
unfolding ended
length-ended p t =
    length-set (filled data_size 0 (t ++ (13 ∷ 10 ∷ b'.' ∷ []))) (length t) 0
    ∙ length-filled data_size 0 (t ++ (13 ∷ 10 ∷ b'.' ∷ []))

abbrev Ended : List ℕ → List ℕ → RequestState × Bool × RequestParser × Buffer → Type 0
Ended t rest (st, _, p', b') =
    (st ≡ request_done) × (c_str p'.request.text ≡ t) × (contents b' ≡ rest)

terminate-Ended :
    (p : RequestParser) (t rest : List ℕ)
    (r : Option (RequestState × Bool × RequestParser × Buffer))
    → length t + 3 < data_size - 1
    → All (λ c. c ≢ 0) t
    → view r ≡ some (ended p t, request_done, rest)
    → Returns (r >>= terminate) (Ended t rest)
unfolding terminate
terminate-Ended p t rest none h nz e = cc
terminate-Ended p t rest (some (st, er, p', b')) h nz e =
    ground (arith, c_str-closed p t h nz, length-ended p t, i-ended)
  where
    i-ended : (ended p t).i ≡ length t + 3
    i-ended = unfold ended in refl

-- A message `t` that fits the parser's array with its end mark, and that holds no LF "." CR before
-- it, is read as sent: from a buffer that holds it and goes on after it, `request_consume_data`
-- returns `request_done`, stores the string `t`, and leaves what follows the mark unread.
pub consume_message :
    (b : Buffer) (p : RequestParser) (t rest : List ℕ) (errored : Bool)
    → Inv.IsValid b
    → contents b ≡ t ++ (13 ∷ 10 ∷ b'.' ∷ 13 ∷ 10 ∷ rest)
    → length t + 3 < data_size - 1
    → All (λ c. c ≢ 0) t
    → NoMark (t ++ (13 ∷ 10 ∷ b'.' ∷ []))
    → Returns
        (request_consume_data b (request_parser_data_init p) errored)
        (λ r. (r.0 ≡ request_done) × (c_str r.2.request.text ≡ t) × (contents r.3 ≡ rest))
unfolding request_consume_data request_parser_data_init
consume_message b p t rest errored vb e h nz nm = terminate-Ended p t rest _ h nz (
    loop_view has_room request_parser_data_feed (suc (b.write - b.read)) b
      (request_parser_data_init p) request_body errored vb (omega (arith, length-contents b vb))
    ∙ rw (e, init-eq-in_body p) (run_message p t rest h nm))
