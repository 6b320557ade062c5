-- ===== src/Request/Tests.antt =====
-- The theorems on the request parsers at concrete inputs.
use smtp_protos.Prelude.{
  ℕ, ◌≡◌, ◌↔◌, List, [], ◌∷◌, none, arith, length, false, Returns, length-replicate, refl, filled,
  length-filled, length-append, ap,
}
use smtp_protos.CString.{c_str}
use smtp_protos.Buffer.{Buffer, contents}
use smtp_protos.Request.{
  RequestParser, RequestState, request_verb, request_done, request_body, zeroed, verb_size,
  arg_size, data_size,
}
use smtp_protos.Request.Bounds.{IsValid, fresh-IsValid}
use smtp_protos.Request.Line.{request_parser_feed, request_parser_init, request_consume}
use smtp_protos.Request.Line.Bounds.{feed-IsValid}
use smtp_protos.Request.Line.Consume.{scan, Follows, consume-Follows}
use smtp_protos.Request.Line.RoundTrip.{consume_line}
use smtp_protos.Request.Body.{
  request_parser_data_feed, request_parser_data_init, request_consume_data,
}
use smtp_protos.Request.Body.Bounds.{DotFirst, data_feed_fault_iff}
use smtp_protos.Request.Body.End.{NoMark, consume_message}
use smtp_protos.Request.Admin.{request_parser_admin_feed}
use smtp_protos.Request.Admin.Bounds.{VerbTooLong, admin_feed_fault_iff}

abbrev new_parser : RequestState → RequestParser
new_parser st = record { request = zeroed; state = st; i = 0 }

new_parser-IsValid : (st : RequestState) → IsValid (new_parser st)
new_parser-IsValid st = fresh-IsValid (new_parser st) st

-- A buffer that holds the bytes and nothing else.
abbrev holding : List ℕ → Buffer
holding bytes = record { mem = bytes; limit = length bytes; read = 0; write = length bytes }

abbrev line : List ℕ
line = b'E' ∷ b' ' ∷ b'x' ∷ 13 ∷ 10 ∷ b'Q' ∷ []

abbrev message : List ℕ
message = b'h' ∷ b'i' ∷ 13 ∷ 10 ∷ b'.' ∷ 13 ∷ 10 ∷ b'Q' ∷ []

feed-IsValid_example : Returns (request_parser_feed (new_parser request_verb) b'E') IsValid
feed-IsValid_example = feed-IsValid (new_parser request_verb) b'E' (new_parser-IsValid request_verb)

consume-Follows_example :
    Returns
      (request_consume (holding line) (new_parser request_verb) false)
      (Follows (scan (new_parser request_verb) request_verb (contents (holding line))))
consume-Follows_example =
    consume-Follows (holding line) (new_parser request_verb) false (omega arith)
      (new_parser-IsValid request_verb)

consume_line_example :
    Returns
      (request_consume (holding line) (request_parser_init (new_parser request_verb)) false)
      (λ (st, _, p', b').
        (st ≡ request_done)
        × (c_str p'.request.verb ≡ b'E' ∷ [])
        × (c_str p'.request.arg ≡ b'x' ∷ [])
        × (contents b' ≡ b'Q' ∷ []))
unfolding contents
consume_line_example =
    consume_line (holding line) (new_parser request_verb) (b'E' ∷ []) (b'x' ∷ []) (b'Q' ∷ []) false
      (omega arith) refl (omega arith) (omega arith) (omega arith) (omega arith)

-- The message with its end mark, cut before the last CR, holds no mark.
message-NoMark : NoMark (b'h' ∷ b'i' ∷ 13 ∷ 10 ∷ b'.' ∷ [])
message-NoMark [] w e = ground arith
message-NoMark (a ∷ []) w e = ground arith
message-NoMark (a ∷ b ∷ []) w e = ground arith
message-NoMark (a ∷ b ∷ c ∷ []) w e = ground arith
message-NoMark (a ∷ b ∷ c ∷ d ∷ []) w e = ground arith
message-NoMark (a ∷ b ∷ c ∷ d ∷ f ∷ u) w e =
    ground (arith, ap length e, length-append u (10 ∷ b'.' ∷ 13 ∷ w))

consume_message_example :
    Returns
      (request_consume_data
        (holding message)
        (request_parser_data_init (new_parser request_body))
        false)
      (λ r.
        (r.0 ≡ request_done)
        × (c_str r.2.request.text ≡ b'h' ∷ b'i' ∷ [])
        × (contents r.3 ≡ b'Q' ∷ []))
unfolding contents
consume_message_example =
    consume_message (holding message) (new_parser request_body) (b'h' ∷ b'i' ∷ []) (b'Q' ∷ []) false
      (omega arith) refl (omega arith) (omega arith) message-NoMark

-- LF and "." stored, and nothing else.
abbrev dotted : RequestParser
dotted = record {
  request = record zeroed { text = filled data_size 0 (10 ∷ b'.' ∷ []) };
  state = request_body;
  i = 2;
}

dotted-IsValid : IsValid dotted
unfolding zeroed
dotted-IsValid = record {
  verb_length = length-replicate verb_size 0;
  arg_length = length-replicate arg_size 0;
  text_length = length-filled data_size 0 (10 ∷ b'.' ∷ []);
  in_range = omega arith;
}

data_feed_fault_iff_example : (request_parser_data_feed dotted 13 ≡ none) ↔ DotFirst dotted 13
data_feed_fault_iff_example = data_feed_fault_iff dotted 13 dotted-IsValid

admin_feed_fault_iff_example :
    (request_parser_admin_feed (new_parser request_verb) b'X' ≡ none)
    ↔ VerbTooLong (new_parser request_verb) b'X'
admin_feed_fault_iff_example =
    admin_feed_fault_iff (new_parser request_verb) b'X' (new_parser-IsValid request_verb)
