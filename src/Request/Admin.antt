-- ===== src/Request/Admin.antt =====
-- src/lib/request_admin.c: the parser of a command line once the client is an administrator.
pub mod Bounds
use smtp_protos.Prelude.{
  ℕ, zero, suc, ◌+◌, ◌-◌, ◌%◌, ◌^◌, ◌≤◌, ◌<◌, ◌≡◌, ◌≢◌, ◌↔◌, ◌⊎◌, List, [], ◌∷◌, ◌++◌, Option, none,
  some, arith, length, set, Bool, true, false, ltb, leb, ◌==◌, ◌&&◌, ◌||◌, not, length-set, Returns,
  Returns-some, get_or, length-replicate, take, drop, if◌then◌else◌, ◌>>=◌, ◌>>◌, Bool-cases,
  Option-cases, inl, inr, refl, Returns-bind, Returns-mono, All, All-mono, filled, replicate,
  length-filled, set-filled, set-filled_end, set-replicate, length-append, ap, sym, ◌∙◌, append-nil,
  append_assoc, store, codes, ℤ, pos, negsuc, map, assert, dec_lt, ℕ_discrete,
}
use smtp_protos.Buffer.{Buffer, contents, buffer_can_read, buffer_read}
use smtp_protos.Request.{
  Request, RequestParser, RequestState, request_verb, request_arg, request_cr, request_done,
  request_error, request_data, request_body, zeroed, verb_size, arg_size, data_size, inc,
  request_is_done,
}
use smtp_protos.CString.{strncasecmp_eq}
use smtp_protos.Request.Loop.{feed_loop}

unfoldable pub request_parser_admin_init : RequestParser → RequestParser
request_parser_admin_init p = record p { request = zeroed; state = request_verb; i = 0 }

-- A verb too long leaves `next` unset, and the function returns it: a fault.
unfoldable pub command : ℕ → RequestParser → Option (RequestParser × RequestState)
command c p =
    if c == b' '
    then (do
      verb' ← store p.request.verb p.i 0
      some (record p { request = record (p.request) { verb = verb' }; i = 0 }, request_arg))
    else if c == 13
    then (if strncasecmp_eq p.request.verb (codes "XQUIT") 5
        then (do
          verb' ← store p.request.verb p.i 0
          some (record p { request = record (p.request) { verb = verb' }; i = 0 }, request_cr))
        else some (p, request_error))
    else if ltb p.i (verb_size - 1)
    then (do
      verb' ← store p.request.verb p.i c
      some (record p { request = record (p.request) { verb = verb' }; i = inc p.i }, request_verb))
    else none

unfoldable pub command_arg : ℕ → RequestParser → Option (RequestParser × RequestState)
command_arg c p =
    if c == 13
    then (do
      arg' ← store p.request.arg p.i 0
      some (record p { request = record (p.request) { arg = arg' } }, request_cr))
    else if ltb p.i (arg_size - 1)
    then (do
      arg' ← store p.request.arg p.i c
      some (record p { request = record (p.request) { arg = arg' }; i = inc p.i }, request_arg))
    else some (p, request_error)

unfoldable pub dispatch : RequestState → RequestParser → ℕ → Option (RequestParser × RequestState)
unfolding command command_arg
dispatch request_verb p c = command c p
dispatch request_arg p c = command_arg c p
dispatch request_cr p c = some (p, if c == 10 then request_done else request_error)
dispatch request_error p c = some (p, request_error)
dispatch _ p c = some (p, request_error)

unfoldable pub request_parser_admin_feed : RequestParser → ℕ → Option RequestParser
unfolding dispatch
request_parser_admin_feed p c = do
  (p', next) ← dispatch p.state p c
  some (record p' { state = next })

unfoldable pub request_consume_admin :
    Buffer → RequestParser → Bool → Option (RequestState × Bool × RequestParser × Buffer)
request_consume_admin b p errored =
    feed_loop (λ _. true) request_parser_admin_feed (suc (b.write - b.read)) b p p.state errored
