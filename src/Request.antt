-- ===== src/Request.antt =====
-- src/lib/headers/request.h: what the parsers of request.c, request_data.c and request_admin.c
-- share. An array is a list of bytes with the array's size; a write outside it is a fault.
pub mod Loop
pub mod Bounds
pub mod Line
pub mod Body
pub mod Admin
mod Tests
use smtp_protos.Prelude.{
  ℕ, ◌+◌, ◌%◌, ◌^◌, Bool, true, false, ◌||◌, List, leb, replicate, if◌then◌else◌,
}

-- enum request_state
pub data RequestState : Type 0 where
  request_verb request_arg request_cr request_data request_body request_done request_error :
      RequestState

-- The sizes of the arrays of struct request.
abbrev pub verb_size : ℕ
verb_size = 16

abbrev pub arg_size : ℕ
arg_size = 256

abbrev pub data_size : ℕ
data_size = 4097

-- struct request; `text` is its field `data`.
pub record Request : Type 0 where
  pub verb : List ℕ
  pub arg : List ℕ
  pub text : List ℕ

-- struct request_parser, without `n` and `output_fd`, which no parser reads.
pub record RequestParser : Type 0 where
  pub request : Request
  pub state : RequestState
  pub i : ℕ

-- memset(request, 0, sizeof(*request))
unfoldable pub zeroed : Request
zeroed = record {
  verb = replicate verb_size 0;
  arg = replicate arg_size 0;
  text = replicate data_size 0;
}

-- p->i++ on an unsigned int.
abbrev pub inc : ℕ → ℕ
inc i = (i + 1) % 2 ^ 32

-- The place of a state in the enum.
abbrev pub ord : RequestState → ℕ
ord request_verb = 0
ord request_arg = 1
ord request_cr = 2
ord request_data = 3
ord request_body = 4
ord request_done = 5
ord request_error = 6

-- Whether parsing is over, and the flag behind `errored`, raised where it ended in an error.
unfoldable pub request_is_done : RequestState → Bool → Bool × Bool
request_is_done st errored =
    (leb (ord request_done) (ord st), if leb (ord request_error) (ord st) then true else errored)
