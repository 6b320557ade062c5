-- ===== src/Request/Bounds.antt =====
-- The invariant of the request parsers: the arrays keep their sizes, and `i` stays inside them.
use smtp_protos.Prelude.{ℕ, ◌-◌, ◌≤◌, ◌≡◌, arith, length, length-replicate}
use smtp_protos.Request.{
  RequestParser, RequestState, request_verb, request_arg, zeroed, verb_size, arg_size, data_size,
}

-- How far `i` may go in a state.
abbrev pub index_limit : RequestState → ℕ
index_limit request_verb = verb_size - 1
index_limit request_arg = arg_size - 1
index_limit _ = data_size - 1

pub record IsValid (p : RequestParser) : Type 0 where
  pub verb_length : length p.request.verb ≡ verb_size
  pub arg_length : length p.request.arg ≡ arg_size
  pub text_length : length p.request.text ≡ data_size
  pub in_range : p.i ≤ index_limit p.state

pub fresh-IsValid :
    (p : RequestParser) (st : RequestState)
    → IsValid (record p { request = zeroed; state = st; i = 0 })
unfolding zeroed
fresh-IsValid p st = record {
  verb_length = length-replicate verb_size 0;
  arg_length = length-replicate arg_size 0;
  text_length = length-replicate data_size 0;
  in_range = omega arith;
}
