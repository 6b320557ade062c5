-- ===== src/Request/Body/Bounds.antt =====
-- Which writes of request_data.c stay inside the arrays.
use smtp_protos.Prelude.{ℕ, ◌≡◌, ◌↔◌, none, arith, length-set, Returns, get_or}
use smtp_protos.Request.{RequestParser, request_body}
use smtp_protos.Request.Bounds.{IsValid}
use smtp_protos.Request.Body.{request_parser_data_feed, after_dot, minus}

-- A message that begins with LF "." and goes on with CR: the byte before its end mark would be
-- stored three bytes back, before the array.
abbrev pub DotFirst : RequestParser → ℕ → Type 0
DotFirst p c =
    (p.state ≡ request_body)
    × (c ≡ 13)
    × (p.i ≡ 2)
    × (get_or p.request.text 0 0 ≡ 10)
    × (get_or p.request.text 1 0 ≡ b'.')

-- A step of the message parser faults on a message that begins LF "." CR.
pub data_feed_fault :
    (p : RequestParser) (c : ℕ) → IsValid p → DotFirst p c → request_parser_data_feed p c ≡ none
unfolding request_parser_data_feed after_dot
data_feed_fault p c v h = ground arith

-- Any other step stays inside the arrays, and keeps the invariant.
pub data_feed-IsValid :
    (p : RequestParser) (c : ℕ)
    → IsValid p
    → ¬ DotFirst p c
    → Returns (request_parser_data_feed p c) IsValid
unfolding request_parser_data_feed after_dot
data_feed-IsValid p c v h = ground (
  arith,
  length-set p.request.text p.i c,
  length-set p.request.text p.i 0,
  length-set p.request.text (minus p.i 3) 0,
)

-- A step of the message parser faults exactly at the CR of a message that begins LF "." CR.
pub data_feed_fault_iff :
    (p : RequestParser) (c : ℕ) → IsValid p → (request_parser_data_feed p c ≡ none) ↔ DotFirst p c
unfolding request_parser_data_feed after_dot
data_feed_fault_iff p c v = (λ e. ground arith, data_feed_fault p c v)
