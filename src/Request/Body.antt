-- ===== src/Request/Body.antt =====
-- src/lib/request_data.c: the parser of a message, which ends at CRLF "." CRLF.
pub mod Bounds
pub mod End
use smtp_protos.Prelude.{
  ℕ, zero, suc, ◌+◌, ◌-◌, ◌%◌, ◌^◌, ◌≤◌, ◌<◌, ◌≡◌, ◌≢◌, ◌↔◌, ◌⊎◌, List, [], ◌∷◌, ◌++◌, Option, none,
  some, arith, length, set, Bool, true, false, ltb, leb, ◌==◌, ◌&&◌, ◌||◌, not, length-set, Returns,
  Returns-some, get_or, length-replicate, take, drop, if◌then◌else◌, ◌>>=◌, ◌>>◌, Bool-cases,
  Option-cases, inl, inr, refl, Returns-bind, Returns-mono, All, All-mono, filled, replicate,
  length-filled, set-filled, set-filled_end, set-replicate, length-append, ap, sym, ◌∙◌, append-nil,
  append_assoc, store, codes, ℤ, pos, negsuc, map, assert, dec_lt, ℕ_discrete,
}
use smtp_protos.Buffer.{Buffer, contents, buffer_can_read, buffer_read}
use smtp_protos.Request.{
  Request, RequestParser, RequestState, request_verb, request_arg, request_cr, request_done,
  request_error, request_data, request_body, zeroed, verb_size, arg_size, data_size, inc,
  request_is_done,
}
use smtp_protos.Request.Loop.{feed_loop}

unfoldable pub request_parser_data_init : RequestParser → RequestParser
request_parser_data_init p = record p { request = zeroed; state = request_body; i = 0 }

-- p->i - n on an unsigned int.
abbrev pub minus : ℕ → ℕ → ℕ
minus i n = (i + 2 ^ 32 - n) % 2 ^ 32

-- Whether the last two bytes stored are LF and ".".
unfoldable pub after_dot : RequestParser → Bool
after_dot p =
    ltb 1 p.i
    && (get_or p.request.text (minus p.i 1) 0 == b'.'
        && get_or p.request.text (minus p.i 2) 0 == 10)

unfoldable pub body : ℕ → RequestParser → Option (RequestParser × RequestState)
body c p =
    if c == 13 && after_dot p
    then (do
      text' ← store p.request.text (minus p.i 3) 0
      some (record p { request = record (p.request) { text = text' } }, request_cr))
    else if ltb p.i (data_size - 1)
    then (do
      text' ← store p.request.text p.i c
      some (record p { request = record (p.request) { text = text' }; i = inc p.i }, request_body))
    else (do
      text' ← store p.request.text p.i 0
      some (record p { request = record (p.request) { text = text' } }, request_body))

unfoldable pub dispatch : RequestState → RequestParser → ℕ → Option (RequestParser × RequestState)
unfolding body
dispatch request_body p c = body c p
dispatch request_cr p c = some (p, if c == 10 then request_done else request_error)
dispatch request_error p c = some (p, request_error)
dispatch _ p c = some (p, request_error)

unfoldable pub request_parser_data_feed : RequestParser → ℕ → Option RequestParser
unfolding dispatch
request_parser_data_feed p c = do
  (p', next) ← dispatch p.state p c
  some (record p' { state = next })

-- The second test of the loop: there is room for another byte and the final NUL.
abbrev pub has_room : RequestParser → Bool
has_room p = ltb p.i (data_size - 1)

-- After the loop, `p->request->data[p->i] = 0`.
unfoldable pub terminate :
    RequestState × Bool × RequestParser × Buffer
    → Option (RequestState × Bool × RequestParser × Buffer)
terminate (st, errored, p, b) = do
  text' ← store p.request.text p.i 0
  some (st, errored, record p { request = record (p.request) { text = text' } }, b)

unfoldable pub request_consume_data :
    Buffer → RequestParser → Bool → Option (RequestState × Bool × RequestParser × Buffer)
request_consume_data b p errored =
    feed_loop has_room request_parser_data_feed (suc (b.write - b.read)) b p p.state errored
    >>= terminate
