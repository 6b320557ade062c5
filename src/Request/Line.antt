-- ===== src/Request/Line.antt =====
-- src/lib/request.c: the parser of a command line, `VERB [SP ARG] CRLF`.
pub mod Bounds
pub mod Consume
pub mod RoundTrip
use smtp_protos.Prelude.{
  ℕ, zero, suc, ◌+◌, ◌-◌, Bool, true, false, ◌||◌, List, [], ◌∷◌, Option, none, some, ltb, ◌==◌,
  if◌then◌else◌, store, ◌>>=◌, codes,
}
use smtp_protos.CString.{strncasecmp_eq}
use smtp_protos.Buffer.{Buffer, buffer_can_read, buffer_read}
use smtp_protos.Request.{
  Request, RequestParser, RequestState, request_verb, request_arg, request_cr, request_done,
  request_error, request_data, request_body, zeroed, verb_size, arg_size, inc, request_is_done,
}

unfoldable pub request_parser_init : RequestParser → RequestParser
request_parser_init p = record p { request = zeroed; state = request_verb; i = 0 }

-- The verbs that may stand without an argument, compared on their own length only.
unfoldable pub takes_no_argument : List ℕ → Bool
takes_no_argument v =
    strncasecmp_eq v (codes "DATA") 4
    || (strncasecmp_eq v (codes "RSET") 4
        || (strncasecmp_eq v (codes "QUIT") 4 || strncasecmp_eq v (codes "NOOP") 4))

-- A step of the parser: it and the state to go to.
abbrev pub Step : Type 0
Step = Option (RequestParser × RequestState)

unfoldable pub verb : ℕ → RequestParser → Step
verb c p =
    if c == b' '
    then (do
      arg' ← store p.request.arg p.i 0
      some (record p { request = record (p.request) { arg = arg' }; i = 0 }, request_arg))
    else if c == 13
    then (if takes_no_argument p.request.verb
        then (do
          verb' ← store p.request.verb p.i 0
          some (record p { request = record (p.request) { verb = verb' }; i = 0 }, request_cr))
        else some (p, request_error))
    else if ltb p.i (verb_size - 1)
    then (do
      verb' ← store p.request.verb p.i c
      some (record p { request = record (p.request) { verb = verb' }; i = inc p.i }, request_verb))
    else some (p, request_error)

unfoldable pub arg : ℕ → RequestParser → Step
arg c p =
    if c == 13
    then (do
      arg' ← store p.request.arg p.i 0
      some (record p { request = record (p.request) { arg = arg' } }, request_cr))
    else if ltb p.i (arg_size - 1)
    then (do
      arg' ← store p.request.arg p.i c
      some (record p { request = record (p.request) { arg = arg' }; i = inc p.i }, request_arg))
    else some (p, request_error)

-- The step that the state chooses, on the parser whose state it is.
unfoldable pub dispatch : RequestState → RequestParser → ℕ → Step
unfolding verb arg
dispatch request_verb p c = verb c p
dispatch request_arg p c = arg c p
dispatch request_cr p c = some (p, if c == 10 then request_done else request_error)
dispatch request_error p c = some (p, request_error)
dispatch _ p c = some (p, request_error)

-- The parser after the byte; its state is what the function returns.
unfoldable pub request_parser_feed : RequestParser → ℕ → Option RequestParser
unfolding dispatch
request_parser_feed p c = do (p', next) ← dispatch p.state p c; some (record p' { state = next })

-- The loop of `request_consume` for at most `fuel` rounds, `st` being the last state returned.
unfoldable pub consume_loop :
    ℕ
    → Buffer
    → RequestParser
    → RequestState
    → Bool
    → Option (RequestState × Bool × RequestParser × Buffer)
consume_loop zero b p st errored = none
consume_loop (suc fuel) b p st errored =
    if buffer_can_read b
    then (let (done, errored') = request_is_done st errored in
        elim done [
          | true ↦ some (st, errored', p, b)
          | false ↦ do
            (c, b') ← buffer_read b
            p' ← request_parser_feed p c
            consume_loop fuel b' p' p'.state errored'
        ])
    else some (st, errored, p, b)

-- A round reads a byte, so one round more than there are bytes ends the loop.
unfoldable pub request_consume :
    Buffer → RequestParser → Bool → Option (RequestState × Bool × RequestParser × Buffer)
unfolding consume_loop
request_consume b p errored = consume_loop (suc (b.write - b.read)) b p p.state errored
