-- ===== src/Request/Line/Bounds.antt =====
-- request.c never writes outside the arrays of struct request.
use smtp_protos.Prelude.{ℕ, arith, length-set, Returns}
use smtp_protos.Request.{RequestParser, request_verb}
use smtp_protos.Request.Bounds.{IsValid, fresh-IsValid}
use smtp_protos.Request.Line.{request_parser_feed, request_parser_init}

-- No step of the command parser writes outside an array, and each keeps the invariant.
pub feed-IsValid :
    (p : RequestParser) (c : ℕ) → IsValid p → Returns (request_parser_feed p c) IsValid
unfolding request_parser_feed
feed-IsValid p c v = ground (
  arith,
  length-set p.request.verb p.i c,
  length-set p.request.verb p.i 0,
  length-set p.request.arg p.i c,
  length-set p.request.arg p.i 0,
)

pub init-IsValid : (p : RequestParser) → IsValid (request_parser_init p)
unfolding request_parser_init
init-IsValid p = fresh-IsValid p request_verb
